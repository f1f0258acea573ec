-- ===== src/KeyParser/Named.antt =====
-- The keys that `keyparser_getkey` gives have names: src/keyparser/key_parser.c.
use mathlib.Core.Option.{some-injective}
use libevfilter.Base.{
  ℕ, zero, suc, ◌<◌, ◌≡◌, refl, sym, ap, ◌∙◌, ◌≢◌, inl, inr, Option, none, some, List, [], ◌∷◌,
  arith, length, get_elem?, Bool-cases, All,
}
use libevfilter.Base.Int.{ℤ, negsuc, ◌==ℤ◌, ==ℤ_refl}
use libevfilter.Base.Text.{Text}
use libevfilter.KeyParser.{search, getkey, getname}
use libevfilter.KeyParser.Search.{IsFound, search_total}

-- A value that stands in the table where a name stands has a name, and what holds of all names
-- holds of it.
getname_named :
    (P : Text → Type 0) (names : List Text) (values : List ℤ) (i : ℕ) (v : ℤ) (key : Text)
    → get_elem? values i ≡ some v
    → get_elem? names i ≡ some key
    → All P names
    → (n : Text) × (getname names values v ≡ some (some n)) × P n
unfolding getname
getname_named P names [] i v key e k h = absurd (ground arith)
getname_named P [] (w ∷ values) i v key e k h = absurd (ground arith)
getname_named P (n ∷ names) (w ∷ values) zero v key e k h =
    (n, rw (ap (λ u. u ==ℤ v) (some-injective _ _ e) ∙ ==ℤ_refl v) refl, h.0)
getname_named P (n ∷ names) (w ∷ values) (suc i) v key e k h = elim (Bool-cases (w ==ℤ v)) [
  | inl same ↦ (n, rw same refl, h.0)
  | inr other ↦
      let (m, found, p) = getname_named P names values i v key e k h.1 in (m, rw other found, p)
]

module _ (names : List Text) (values : List ℤ) (s : Text) where
  -- What follows the search.
  getkey-search :
      (r : Option ℕ)
      → search s names ≡ some r
      → getkey names values s ≡ elim r [ none ↦ some (negsuc 0) | some i ↦ get_elem? values i ]
  unfolding getkey
  getkey-search none e =
      ap
        (λ o. elim o [
          | none ↦ none
          | some none ↦ some (negsuc 0)
          | some (some i) ↦ get_elem? values i
        ])
        e
  getkey-search (some i) e =
      ap
        (λ o. elim o [
          | none ↦ none
          | some none ↦ some (negsuc 0)
          | some (some i) ↦ get_elem? values i
        ])
        e

  -- If a name gives a key that is not -1, then the key has a name, which is one of the table.
  pub getkey-getname :
      (P : Text → Type 0) (v : ℤ)
      → 0 < length names
      → All P names
      → getkey names values s ≡ some v
      → v ≢ negsuc 0
      → (n : Text) × (getname names values v ≡ some (some n)) × P n
  getkey-getname P v h all e found =
      let (r, searched, is_found) = search_total s names h in
      by_index r is_found (sym (getkey-search r searched) ∙ e)
    where
      by_index :
          (r : Option ℕ)
          → IsFound s names r
          → elim r [ none ↦ some (negsuc 0) | some i ↦ get_elem? values i ] ≡ some v
          → (n : Text) × (getname names values v ≡ some (some n)) × P n
      by_index none f k = absurd (found (sym (some-injective _ _ k)))
      by_index (some i) (key, at, _) k = getname_named P names values i v key k at all

-- Two lists of the same length have the same indices.
get_elem?-both :
    (names : List Text) (values : List ℤ) (i : ℕ) (key : Text)
    → length names ≡ length values
    → get_elem? names i ≡ some key
    → (v : ℤ) × (get_elem? values i ≡ some v)
get_elem?-both [] values i key l e = absurd (ground arith)
get_elem?-both (n ∷ names) [] i key l e = absurd (omega arith)
get_elem?-both (n ∷ names) (w ∷ values) zero key l e = (w, refl)
get_elem?-both (n ∷ names) (w ∷ values) (suc i) key l e =
    get_elem?-both names values i key (omega arith) e

-- With as many numbers as names, and at least one, `keyparser_getkey` ends with a number for every
-- text, and reads nothing outside of its tables.
pub getkey_total :
    (names : List Text) (values : List ℤ) (s : Text)
    → length names ≡ length values
    → 0 < length names
    → (v : ℤ) × (getkey names values s ≡ some v)
getkey_total names values s l h =
    let (r, searched, is_found) = search_total s names h in by_index r searched is_found
  where
    by_index :
        (r : Option ℕ)
        → search s names ≡ some r
        → IsFound s names r
        → (v : ℤ) × (getkey names values s ≡ some v)
    by_index none e f = (negsuc 0, getkey-search names values s none e)
    by_index (some i) e (key, at, _) =
        let (v, stands) = get_elem?-both names values i key l at in
        (v, getkey-search names values s (some i) e ∙ stands)
