-- ===== src/FilterList/Registry.antt =====
-- Loading a filter by its name: src/evf_filter.c.

use libevfilter.Base.{
  ℕ, zero, suc, ◌<◌, ◌≡◌, refl, arith, true, false, inl, inr, ◌⊎◌, none, some, List, [], ◌∷◌,
  length, get_elem?, All, Bool-cases,
}
use libevfilter.Base.Text.{Text, case_eq}
use libevfilter.Param.Defs.{Err, Result, failed}
use libevfilter.Param.Load.{index_of}
use libevfilter.FilterList.{evf_filters, getfilter, filter_load}

-- The index of a name in a list that has it, up to case.
abbrev IsIndex : Text → List Text → ℕ → Type 0
IsIndex s ts i = (i < length ts) × ((t : Text) × (get_elem? ts i ≡ some t) × (case_eq t s ≡ true))

index_of_lem :
    (s : Text) (ts : List Text)
    → (index_of s ts ≡ none) × All (λ t. case_eq t s ≡ false) ts
      ⊎ ((i : ℕ) × (index_of s ts ≡ some i) × IsIndex s ts i)
unfolding index_of
index_of_lem s [] = inl (refl, tt)
index_of_lem s (t ∷ ts) = elim (Bool-cases (case_eq t s)) [
  | inl hit ↦ inr (0, ground (arith), (omega arith, (t, refl, hit)))
  | inr miss ↦ elim (index_of_lem s ts) [
    | inl (unknown, all) ↦ inl (ground (arith), (miss, all))
    | inr (i, at, (low, (u, e, same))) ↦
        inr (suc i, ground (arith), (omega (arith, low), (u, e, same)))
  ]
]

get_elem?-some :
    {A : Type 0} (xs : List A) (i : ℕ) → i < length xs → (x : A) × (get_elem? xs i ≡ some x)
get_elem?-some [] i h = absurd (omega arith)
get_elem?-some (x ∷ xs) zero h = (x, refl)
get_elem?-some (x ∷ xs) (suc i) h = get_elem?-some xs i (omega arith)

-- With a table of functions as long as the table of names, a name is either refused with the
-- error that there is no such filter, and then it is none of the names, whatever the case of its
-- letters, or the function in the place of the name, up to case, is called with the parameters.
pub filter_load_lem :
    {S : Type 0} (evf_creat : List (Text → Result S)) (name params : Text)
    → length evf_creat ≡ length evf_filters
    → (filter_load evf_creat name params ≡ failed (Err.efname name))
        × All (λ t. case_eq t name ≡ false) evf_filters
      ⊎ ((i : ℕ) × (t : Text) × (creat : Text → Result S) × (get_elem? evf_filters i ≡ some t)
          × (case_eq t name ≡ true)
          × (get_elem? evf_creat i ≡ some creat)
          × (filter_load evf_creat name params ≡ creat params))
unfolding filter_load getfilter case_eq
filter_load_lem evf_creat name params h = elim (index_of_lem name evf_filters) [
  | inl (unknown, all) ↦ inl (rw unknown refl, all)
  | inr (i, at, (low, (t, e, same))) ↦
      let (creat, c) = get_elem?-some evf_creat i (omega (arith, h, low)) in
      inr (i, t, creat, e, same, c, rw (at, c) refl)
]
