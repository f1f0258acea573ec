-- ===== src/Filters/CopyToHandle.antt =====
-- src/filters/copy_to_handle.c: all events go to a handle too.
pub mod Meet
use libevfilter.Base.{Bool, Option, none, some, List, [], ◌∷◌, if◌then◌else◌}
use libevfilter.Base.Text.{Text, codes}
use libevfilter.Event.{Event, Next, Modify, pass}
use libevfilter.Param.Defs.{ParamType, Param, row, last_row, Result, fault, ◌>>=◌, Value, Env}
use libevfilter.Param.Load.{load_params}
use libevfilter.Handle.{Ptr, Store, create, destroy}
use libevfilter.Filters.AtHandle.{made}

-- `struct priv`.
pub record CopyToHandle : Type 0 where
  pub handle : Ptr
  pub name : Text

-- `send` is `evf_handle_send`.
unfoldable pub modify : {D : Type 0} → (send : Ptr → Next D) → Next D → Modify CopyToHandle D
modify send next c ev d = elim (send c.handle ev d) [
  | none ↦ none
  | some (ev', d') ↦ pass next c ev' d'
]

-- `filter_free`.
abbrev pub filter_free : CopyToHandle → Store → Option Store
filter_free c s = destroy c.handle s

-- `evf_copy_to_handle_alloc`, with the memory for the filter and for the handle.
unfoldable pub alloc : Bool → Option Ptr → Text → Store → Option (Option CopyToHandle × Store)
alloc has_memory mem name s =
    if has_memory
    then elim (create mem name s) [
      | none ↦ none
      | some (none, s') ↦ some (none, s')
      | some (some h, s') ↦ some (some (record { handle = h; name = name }), s')
    ]
    else some (none, s)

abbrev pub filter_params : List Param
filter_params = row (codes "HandleName") ParamType.str none none ∷ last_row ∷ []

unfoldable pub from_values :
    {F : Type 0} → Env F → Option Ptr → Store → List (Value F) → Result (CopyToHandle × Store)
unfolding alloc made
from_values env mem s (Value.str name ∷ []) = made env (alloc env.has_memory mem name s)
from_values env mem s _ = fault

-- `evf_copy_to_handle_creat`.
unfoldable pub creat :
    {F : Type 0} → Env F → Option Ptr → Store → Text → Result (CopyToHandle × Store)
unfolding from_values
creat env mem s params = load_params env params filter_params >>= from_values env mem s
