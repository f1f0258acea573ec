-- ===== src/FilterList/Chain.antt =====
-- The list of filters as a chain in memory: src/evf_filter.c.
use libevfilter.Base.{
  suc, ◌≡◌, refl, sym, ◌∙◌, arith, Bool, true, false, ◌||◌, Option, none, some, List, [], ◌∷◌, ◌++◌,
  ◌==◌, if◌then◌else◌, length, append_assoc, append-nil, All,
}
use libevfilter.FilterList.{
  Ptr, Node, Memory, put, filter_free, free_from, filters_free, last_from, filters_merge,
}

-- The pointers of a list from its root on.
abbrev pub IsChain : (Ptr → Option Node) → Option Ptr → List Ptr → Type 0
IsChain cell root [] = root ≡ none
IsChain cell root (p ∷ ps) =
    (root ≡ some p) × ((n : Node) × (cell p ≡ some n) × IsChain cell n.next ps)

abbrev pub is_in : Ptr → List Ptr → Bool
is_in a [] = false
is_in a (p ∷ ps) = (a == p) || is_in a ps

abbrev pub AreApart : List Ptr → Type 0
AreApart [] = Unit
AreApart (p ∷ ps) = (is_in p ps ≡ false) × AreApart ps

-- A write to another filter keeps a chain.
pub IsChain-put :
    (cell : Ptr → Option Node) (a : Ptr) (n : Option Node) (root : Option Ptr) (ps : List Ptr)
    → is_in a ps ≡ false
    → IsChain cell root ps
    → IsChain (put a n cell) root ps
IsChain-put cell a n root [] h c = c
IsChain-put cell a n root (p ∷ ps) h (e, (m, f, c)) =
    (e, (m, ground (arith, f), IsChain-put cell a n m.next ps (ground arith) c))

free_from_lem :
    (ps : List Ptr) (root priv : Option Ptr) (m : Memory)
    → IsChain m.cell root ps
    → AreApart ps
    → (r : Option Ptr) × (m' : Memory) × (free_from (length ps) root (some priv) m
        ≡ some (some r, m'))
      × (m'.freed ≡ m.freed ++ ps)
      × ((a : Ptr) → m'.cell a ≡ (if is_in a ps then none else m.cell a))
unfolding free_from filter_free
free_from_lem [] root priv m c h = (priv, m, rw c refl, sym (append-nil m.freed), λ a. refl)
free_from_lem (p ∷ ps) root priv m (e, (n, f, c)) (h, k) =
    let (priv', m₁) = filter_free p n m in
    let (r, m', run, log, cell) =
      free_from_lem ps n.next priv' m₁ (IsChain-put m.cell p none n.next ps h c) k in
    (r, m', rw (e, f) run, log ∙ append_assoc m.freed (p ∷ []) ps, λ a. ground (arith, cell a))

-- Freeing a list that is not empty ends without a fault, with fuel for one round to each filter:
-- each filter of the list is freed once, in the list's order, and no other cell changes.
pub filters_free_lem :
    (p : Ptr) (ps : List Ptr) (m : Memory)
    → IsChain m.cell (some p) (p ∷ ps)
    → AreApart (p ∷ ps)
    → (priv : Option Ptr) × (m' : Memory) × (filters_free (length (p ∷ ps)) (some p) m
        ≡ some (priv, m'))
      × (m'.freed ≡ m.freed ++ (p ∷ ps))
      × ((a : Ptr) → m'.cell a ≡ (if is_in a (p ∷ ps) then none else m.cell a))
unfolding filters_free free_from filter_free
filters_free_lem p ps m (e, (n, f, c)) (h, k) =
    let (priv', m₁) = filter_free p n m in
    let (r, m', run, log, cell) =
      free_from_lem ps n.next priv' m₁ (IsChain-put m.cell p none n.next ps h c) k in
    (
      r,
      m',
      rw (free_from, f, run) refl,
      log ∙ append_assoc m.freed (p ∷ []) ps,
      λ a. ground (arith, cell a),
    )

-- The last filter of a list, with a list put behind it.
last_from_lem :
    (cell : Ptr → Option Node) (p : Ptr) (ps : List Ptr) (filters : Option Ptr) (qs : List Ptr)
    → IsChain cell (some p) (p ∷ ps)
    → AreApart (p ∷ ps)
    → IsChain cell filters qs
    → All (λ a. is_in a qs ≡ false) (p ∷ ps)
    → (q : Ptr) × (n : Node) × (last_from (suc (length ps)) p cell ≡ some q)
      × (cell q ≡ some n)
      × (is_in q (p ∷ ps) ≡ true)
      × IsChain (put q (some (record n { next = filters })) cell) (some p) (p ∷ (ps ++ qs))
unfolding last_from
last_from_lem cell p [] filters qs (e, (n, f, c)) h cq d = (
  p,
  n,
  ground (arith, f, c),
  f,
  ground arith,
  (
    refl,
    (
      record n { next = filters },
      ground arith,
      IsChain-put cell p (some (record n { next = filters })) filters qs d.0 cq,
    ),
  ),
)
last_from_lem cell p (p' ∷ ps) filters qs (e, (n, f, (e', c))) (h, k) cq d =
    let (q, l, run, at, within, chain) = last_from_lem cell p' ps filters qs (refl, c) k cq d.1 in
    (
      q,
      l,
      rw (last_from, f, e') run,
      at,
      ground (arith, within),
      (refl, (n, ground (arith, f, within, h), (e', chain.1))),
    )

-- Merging two lists that share no filter gives one list: the filters of the first and then those
-- of the second, with fuel for one step to each filter of the first; nothing is freed.
pub filters_merge_lem :
    (root : Option Ptr) (ps : List Ptr) (filters : Option Ptr) (qs : List Ptr) (m : Memory)
    → IsChain m.cell root ps
    → AreApart ps
    → IsChain m.cell filters qs
    → All (λ a. is_in a qs ≡ false) ps
    → (r : Option Ptr) × (m' : Memory) × (filters_merge (length ps) root filters m ≡ some (r, m'))
      × IsChain m'.cell r (ps ++ qs)
      × (m'.freed ≡ m.freed)
unfolding filters_merge
filters_merge_lem root [] filters qs m c h cq d = (filters, m, rw c refl, cq, refl)
filters_merge_lem root (p ∷ ps) filters qs m (e, c) h cq d =
    let (q, n, run, at, within, chain) = last_from_lem m.cell p ps filters qs (refl, c) h cq d in
    (
      some p,
      record m { cell = put q (some (record n { next = filters })) m.cell },
      rw (e, run, at) refl,
      chain,
      refl,
    )
