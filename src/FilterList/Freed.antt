-- ===== src/FilterList/Freed.antt =====
-- Freeing a list of filters, and writing to the last one of it: src/evf_filter.c.
use libevfilter.Base.{
  zero, ◌≡◌, refl, sym, ap, subst, ◌∙◌, arith, true, false, Option, none, some, List, [], ◌∷◌, ◌++◌,
  ◌==◌, length, append_assoc, append-nil, All, Bool-cases, inl, inr,
}
use mathlib.Core.Option.{some-injective}
use libevfilter.FilterList.{Ptr, Node, Memory, put, filter_free, free_from, last_from}
use libevfilter.FilterList.Chain.{IsChain, IsChain-put, is_in, AreApart}

pub is_in-append :
    (a : Ptr) (ps qs : List Ptr)
    → is_in a ps ≡ false
    → is_in a qs ≡ false
    → is_in a (ps ++ qs) ≡ false
is_in-append a [] qs h k = k
is_in-append a (p ∷ ps) qs h k = ground (arith, is_in-append a ps qs, h, k)

pub AreApart-append :
    (ps qs : List Ptr)
    → AreApart ps
    → AreApart qs
    → All (λ a. is_in a qs ≡ false) ps
    → AreApart (ps ++ qs)
AreApart-append [] qs h k d = k
AreApart-append (p ∷ ps) qs h k d = (is_in-append p ps qs h.0 d.0, AreApart-append ps qs h.1 k d.1)

pub is_in-apart :
    (q : Ptr) (ps qs : List Ptr)
    → All (λ a. is_in a qs ≡ false) ps
    → is_in q qs ≡ true
    → is_in q ps ≡ false
is_in-apart q [] qs d h = refl
is_in-apart q (p ∷ ps) qs d h = elim (Bool-cases (q == p)) [
  | inl same ↦ ground (arith, same, d.0, h)
  | inr other ↦ ground (arith, other, is_in-apart q ps qs d.1 h)
]

-- The loop that frees a list, from any value of `priv`.
pub free_from_total :
    (ps : List Ptr) (root : Option Ptr) (priv : Option (Option Ptr)) (m : Memory)
    → IsChain m.cell root ps
    → AreApart ps
    → (r : Option (Option Ptr)) × (m' : Memory) × (free_from (length ps) root priv m ≡ some (r, m'))
      × (m'.freed ≡ m.freed ++ ps)
unfolding free_from filter_free
free_from_total [] root priv m c h = (priv, m, rw c refl, sym (append-nil m.freed))
free_from_total (p ∷ ps) root priv m (e, (n, f, c)) (h, k) =
    let (priv', m₁) = filter_free p n m in
    let (r, m', run, log) =
      free_from_total ps n.next (some priv') m₁ (IsChain-put m.cell p none n.next ps h c) k in
    (r, m', rw (e, f) run, log ∙ append_assoc m.freed (p ∷ []) ps)

is_in-last : (p c : Ptr) (ps : List Ptr) → is_in p (ps ++ c ∷ []) ≡ false → (c == p) ≡ false
is_in-last p c [] h = ground (arith, h)
is_in-last p c (q ∷ ps) h = is_in-last p c ps (ground (arith, h))

-- Its value is what the last filter gives.
pub free_from-value :
    (ps : List Ptr) (c : Ptr) (root : Option Ptr) (priv : Option (Option Ptr)) (m : Memory)
    (n : Node) (v : Option Ptr)
    → IsChain m.cell root (ps ++ c ∷ [])
    → AreApart (ps ++ c ∷ [])
    → m.cell c ≡ some n
    → n.free ≡ some v
    → (m' : Memory) × (free_from (length (ps ++ c ∷ [])) root priv m ≡ some (some v, m'))
      × (m'.freed ≡ m.freed ++ (ps ++ c ∷ []))
unfolding free_from filter_free
free_from-value [] c root priv m n v (e, (n', f, g)) h at is =
    let same : n' ≡ n = some-injective _ _ (sym f ∙ at) in
    let ends = subst (λ x. x.next ≡ none) same g in
    ((filter_free c n m).1, rw (e, at, ends, is) refl, refl)
free_from-value (p ∷ ps) c root priv m n v (e, (n', f, g)) (h, k) at is =
    let (priv', m₁) = filter_free p n' m in
    let (m', run, log) =
      free_from-value ps c n'.next (some priv') m₁ n v
        (IsChain-put m.cell p none n'.next (ps ++ c ∷ []) h g) k (rw (is_in-last p c ps h) at) is in
    (m', rw (e, f) run, log ∙ append_assoc m.freed (p ∷ []) (ps ++ c ∷ []))

-- What is not freed stays as it is.
pub free_from-outside :
    (ps : List Ptr) (root : Option Ptr) (priv r : Option (Option Ptr)) (m m' : Memory) (a : Ptr)
    → IsChain m.cell root ps
    → AreApart ps
    → free_from (length ps) root priv m ≡ some (r, m')
    → is_in a ps ≡ false
    → m'.cell a ≡ m.cell a
unfolding free_from filter_free
free_from-outside [] root priv r m m' a c h run out =
    let ends : free_from zero root priv m ≡ some (priv, m) = rw c refl in
    ap (λ x. x.1.cell a) (some-injective _ _ (sym run ∙ ends))
free_from-outside (p ∷ ps) root priv r m m' a (e, (n, f, c)) (h, k) run out =
    let (priv', m₁) = filter_free p n m in
    let run' : free_from (length ps) n.next (some priv') m₁ ≡ some (r, m') =
      sym (rw (e, f) refl) ∙ run in
    free_from-outside ps n.next (some priv') r m₁ m' a (IsChain-put m.cell p none n.next ps h c) k
      run' (ground (arith, out))
    ∙ ground (arith, out)

-- The last of some filters.
abbrev pub last_of : Ptr → List Ptr → Ptr
last_of p [] = p
last_of p (q ∷ ps) = last_of q ps

pub last_from-chain :
    (cell : Ptr → Option Node) (p : Ptr) (ps : List Ptr)
    → IsChain cell (some p) (p ∷ ps)
    → last_from (length (p ∷ ps)) p cell ≡ some (last_of p ps)
unfolding last_from
last_from-chain cell p [] (e, (n, f, c)) = rw (f, c) refl
last_from-chain cell p (q ∷ ps) (e, (n, f, (e', c))) =
    rw (f, e') (last_from-chain cell q ps (refl, c))

-- A list of filters is put behind another one.
pub put_last :
    (cell : Ptr → Option Node) (p : Ptr) (ps : List Ptr) (filters : Option Ptr) (qs : List Ptr)
    → IsChain cell (some p) (p ∷ ps)
    → AreApart (p ∷ ps)
    → IsChain cell filters qs
    → All (λ a. is_in a qs ≡ false) (p ∷ ps)
    → (n : Node) × (cell (last_of p ps) ≡ some n)
      × (is_in (last_of p ps) (p ∷ ps) ≡ true)
      × IsChain
          (put (last_of p ps) (some (record n { next = filters })) cell)
          (some p)
          (p ∷ (ps ++ qs))
put_last cell p [] filters qs (e, (n, f, c)) h cq d =
    let n' : Node = record n { next = filters } in
    (n, f, ground arith, (refl, (n', ground arith, IsChain-put cell p (some n') filters qs d.0 cq)))
put_last cell p (p' ∷ ps) filters qs (e, (n, f, (e', c))) (h, k) cq d =
    let (l, at, within, chain) = put_last cell p' ps filters qs (refl, c) k cq d.1 in
    (l, at, ground (arith, within), (refl, (n, ground (arith, f, within, h), (e', chain.1))))
