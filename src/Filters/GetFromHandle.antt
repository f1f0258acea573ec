-- ===== src/Filters/GetFromHandle.antt =====
-- src/filters/get_from_handle.c: the events of a handle come into a line.
use libevfilter.Base.{ℕ, Option, none, some, List, [], ◌∷◌, take}
use libevfilter.Base.Text.{Text, codes}
use libevfilter.Event.{Next, Modify, pass}
use libevfilter.Param.Defs.{ParamType, Param, row, last_row, Result, fault, ◌>>=◌, Value, Env}
use libevfilter.Param.Load.{load_params}
use libevfilter.Handle.{Ptr, Store, Attached, attached, no_memory, taken, attach, detach}
use libevfilter.Filters.AtHandle.{made}

-- `struct priv`: the name, cut to 63 bytes.
pub record GetFromHandle : Type 0 where
  pub name : Text

unfoldable pub modify : {D : Type 0} → Next D → Modify GetFromHandle D
modify next g ev d = pass next g ev d

-- `filter_free`.
abbrev pub filter_free : GetFromHandle → Store → Option Store
filter_free g s = detach g.name s

-- The filter if it is attached; if not, its memory is freed.
unfoldable pub if_attached : Text → Attached × Store → Option GetFromHandle × Store
if_attached name (attached, s) = (some (record { name = take 63 name }), s)
if_attached name (no_memory, s) = (none, s)
if_attached name (taken old, s) = (none, s)

-- `evf_get_from_handle_alloc`: `self` is the memory of the filter, `mem` that for the handle, and
-- `send` stands for this filter's `modify`.
unfoldable pub alloc :
    (self : Option Ptr) (mem : Option Ptr) (send : ℕ)
    → Text
    → Store
    → Option (Option GetFromHandle × Store)
unfolding if_attached
alloc none mem send name s = some (none, s)
alloc (some self) mem send name s = elim (attach mem name self send s) [
  | none ↦ none
  | some r ↦ some (if_attached name r)
]

abbrev pub filter_params : List Param
filter_params = row (codes "HandleName") ParamType.str none none ∷ last_row ∷ []

unfoldable pub from_values :
    {F : Type 0}
    → Env F
    → (self mem : Option Ptr) (send : ℕ) → Store
    → List (Value F)
    → Result (GetFromHandle × Store)
unfolding alloc made
from_values env self mem send s (Value.str name ∷ []) = made env (alloc self mem send name s)
from_values env self mem send s _ = fault

-- `evf_get_from_handle_creat`.
unfoldable pub creat :
    {F : Type 0}
    → Env F
    → (self mem : Option Ptr) (send : ℕ) → Store
    → Text
    → Result (GetFromHandle × Store)
unfolding from_values
creat env self mem send s params =
    load_params env params filter_params >>= from_values env self mem send s
