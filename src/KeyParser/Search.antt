-- ===== src/KeyParser/Search.antt =====
-- The binary search of src/keyparser/key_parser.c over any table.
use libevfilter.Base.{
  ℕ, zero, suc, ◌+◌, ◌-◌, ◌/◌, ◌<◌, ◌≤◌, ◌≡◌, refl, ◌∙◌, inl, inr, ◌⊎◌, Option, none, some, List,
  [], ◌∷◌, arith, ◌==◌, if◌then◌else◌, length, get_elem?, Bool-cases,
}
use libevfilter.Base.Text.{Text, Order, below, same, above, strcasecmp}
use libevfilter.KeyParser.{search_from, search}

get_elem?-lt : (xs : List Text) (i : ℕ) → i < length xs → (x : Text) × (get_elem? xs i ≡ some x)
get_elem?-lt [] i h = absurd (omega arith)
get_elem?-lt (x ∷ xs) zero h = (x, refl)
get_elem?-lt (x ∷ xs) (suc i) h = get_elem?-lt xs i (omega arith)

-- An index that is found is that of the name.
abbrev pub IsFound : Text → List Text → Option ℕ → Type 0
IsFound name names none = Unit
IsFound name names (some i) =
    (key : Text) × (get_elem? names i ≡ some key) × (strcasecmp name key ≡ same)

-- One round, at the three outcomes of the comparison.
module _ (fuel : ℕ) (name : Text) (names : List Text) (left right : ℕ) {key : Text}
    (e : get_elem? names ((left + right) / 2) ≡ some key) where
  at_same :
      strcasecmp name key ≡ same
      → search_from (suc fuel) name names left right ≡ some (some ((left + right) / 2))
  unfolding search_from
  at_same c = rw (e, search_from) (rw (c, search_from))

  at_above :
      strcasecmp name key ≡ above
      → search_from (suc fuel) name names left right ≡ (
          if (left + right) / 2 == left
          then some none
          else search_from fuel name names ((left + right) / 2) right)
  unfolding search_from
  at_above c = rw (e, search_from) (rw (c, search_from))

  at_below :
      strcasecmp name key ≡ below
      → search_from (suc fuel) name names left right ≡ (
          if (left + right) / 2 == right
          then some none
          else search_from fuel name names left ((left + right) / 2))
  unfolding search_from
  at_below c = rw (e, search_from) (rw (c, search_from))

Order-cases : (c : Order) → (c ≡ same) ⊎ (c ≡ above) ⊎ (c ≡ below)
Order-cases below = inr (inr refl)
Order-cases same = inl refl
Order-cases above = inr (inl refl)

Outcome : ℕ → Text → List Text → (left right : ℕ) → Type 0
Outcome fuel name names left right =
    (r : Option ℕ) × (search_from fuel name names left right ≡ some r) × IsFound name names r

search_from_total :
    (fuel : ℕ) (name : Text) (names : List Text) (left right : ℕ)
    → left ≤ right
    → left < length names
    → right ≤ length names
    → right - left < fuel
    → Outcome fuel name names left right
unfolding Outcome
search_from_total zero name names left right o l r h = absurd (omega arith)
search_from_total (suc fuel) name names left right o l r h =
    let mid = (left + right) / 2 in
    let (key, e) = get_elem?-lt names mid (omega arith) in
    elim (Order-cases (strcasecmp name key)) [
      | inl c ↦ (some mid, at_same fuel name names left right e c, (key, e, c))
      | inr (inl c) ↦ elim (Bool-cases (mid == left)) [
        | inl stop ↦ (none, at_above fuel name names left right e c ∙ rw stop, tt)
        | inr go ↦
            let (r', run, ok) =
              search_from_total fuel name names mid right (omega arith) (omega arith) r
                (ground arith) in
            (r', at_above fuel name names left right e c ∙ rw go run, ok)
      ]
      | inr (inr c) ↦ elim (Bool-cases (mid == right)) [
        | inl stop ↦ (none, at_below fuel name names left right e c ∙ rw stop, tt)
        | inr go ↦
            let (r', run, ok) =
              search_from_total fuel name names left mid (omega arith) l (omega arith)
                (ground arith) in
            (r', at_below fuel name names left right e c ∙ rw go run, ok)
      ]
    ]

-- On a table that is not empty, sorted or not, the search reads inside the table, ends within one
-- round more than the table has names, and an index that it returns holds the name that was looked
-- for, up to case.
pub search_total :
    (name : Text) (names : List Text)
    → 0 < length names
    → (r : Option ℕ) × (search name names ≡ some r) × IsFound name names r
unfolding search Outcome
search_total name names h =
    search_from_total (length names + 1) name names 0 (length names) (omega arith) h (omega arith)
      (omega arith)
