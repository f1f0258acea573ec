-- ===== src/FilterList.antt =====
-- src/evf_filter.c: the table of filters, and the linked list of the filters of a line.
-- The list is modelled with the memory that its filters lie in.
pub mod Chain
pub mod Print
pub mod Registry
pub mod Attach
pub mod Freed
use libevfilter.Base.{
  ℕ, zero, suc, Option, none, some, List, [], ◌∷◌, ◌++◌, ◌==◌, if◌then◌else◌, get_elem?,
}
use libevfilter.Base.Text.{Text, codes}
use libevfilter.Param.Defs.{Err, Result, failed, fault}
use libevfilter.Param.Load.{index_of}

-- `evf_filters`.
abbrev pub evf_filters : List Text
evf_filters =
    codes "Dump"
    ∷ codes "NoRepeat"
    ∷ codes "PressureToKey"
    ∷ codes "SpeedMod"
    ∷ codes "Barrier"
    ∷ codes "WeightedAverageAbs"
    ∷ codes "ScaleAbs"
    ∷ codes "Mirror"
    ∷ codes "Rotate"
    ∷ codes "Abs2Rel"
    ∷ codes "Btn2Rel"
    ∷ codes "Kalman"
    ∷ codes "Rel2Scroll"
    ∷ codes "CopyToHandle"
    ∷ codes "GetFromHandle"
    ∷ codes "KeyLock"
    ∷ codes "FilterToHandle"
    ∷ codes "KeySubstitute"
    ∷ []

-- `getfilter`; `none` is -1.
unfoldable pub getfilter : Text → Option ℕ
unfolding index_of
getfilter name = index_of name evf_filters

-- `evf_filter_load`, with the functions of the table `evf_creat`.
unfoldable pub filter_load : {S : Type 0} → List (Text → Result S) → Text → Text → Result S
unfolding getfilter
filter_load evf_creat name params = elim (getfilter name) [
  | none ↦ failed (Err.efname name)
  | some i ↦ elim (get_elem? evf_creat i) [ none ↦ fault | some creat ↦ creat params ]
]

abbrev pub Ptr : Type 0
Ptr = ℕ

-- The members of `struct evf_filter` that these functions use: what the filter's `free` function
-- returns, if it has one, and `next`.
pub record Node : Type 0 where
  pub free : Option (Option Ptr)
  pub next : Option Ptr

-- The filters that are allocated, and what `free` was called with.
pub record Memory : Type 0 where
  pub cell : Ptr → Option Node
  pub freed : List Ptr

abbrev pub put : Ptr → Option Node → (Ptr → Option Node) → Ptr → Option Node
put p n cell = λ a. if a == p then n else cell a

-- `evf_filter_free` of a filter that is allocated; the first part is what it returns.
unfoldable pub filter_free : Ptr → Node → Memory → Option Ptr × Memory
filter_free p n m = (
  elim n.free [ none ↦ none | some priv ↦ priv ],
  record { cell = put p none m.cell; freed = m.freed ++ (p ∷ []) },
)

-- The loop of `evf_filters_free`; `priv` has no value before the first round. The outer `none` is
-- a read of freed memory or the end of the fuel.
unfoldable pub free_from :
    ℕ → Option Ptr → Option (Option Ptr) → Memory → Option (Option (Option Ptr) × Memory)
unfolding filter_free
free_from fuel none priv m = some (priv, m)
free_from zero (some p) priv m = none
free_from (suc fuel) (some p) priv m = elim (m.cell p) [
  | none ↦ none
  | some n ↦ let (priv', m') = filter_free p n m in free_from fuel n.next (some priv') m'
]

-- `evf_filters_free`; a result without a value is a fault.
unfoldable pub filters_free : ℕ → Option Ptr → Memory → Option (Option Ptr × Memory)
unfolding free_from
filters_free fuel root m = elim (free_from fuel root none m) [
  | none ↦ none
  | some (none, m') ↦ none
  | some (some priv, m') ↦ some (priv, m')
]

-- The loop of `evf_filters_last`, from a filter on.
unfoldable pub last_from : ℕ → Ptr → (Ptr → Option Node) → Option Ptr
last_from zero p cell = none
last_from (suc fuel) p cell = elim (cell p) [
  | none ↦ none
  | some n ↦ elim n.next [ none ↦ some p | some q ↦ last_from fuel q cell ]
]

-- `evf_filters_last` and `evf_filters_merge`; the outer `none` is a fault.
unfoldable pub filters_last : ℕ → Option Ptr → Memory → Option (Option Ptr)
unfolding last_from
filters_last fuel none m = some none
filters_last fuel (some p) m = elim (last_from fuel p m.cell) [
  | none ↦ none
  | some q ↦ some (some q)
]

unfoldable pub filters_merge : ℕ → Option Ptr → Option Ptr → Memory → Option (Option Ptr × Memory)
unfolding last_from
filters_merge fuel none filters m = some (filters, m)
filters_merge fuel (some p) filters m = elim (last_from fuel p m.cell) [
  | none ↦ none
  | some q ↦ elim (m.cell q) [
    | none ↦ none
    | some n ↦ some (some p, record m { cell = put q (some (record n { next = filters })) m.cell })
  ]
]
