-- ===== src/Filters/FilterToHandle.antt =====
-- src/filters/filter_to_handle.c: the events of one type and code go to a handle.
pub mod Parted
use libevfilter.Base.{Bool, Option, none, some, List, [], ◌∷◌, ◌==◌, ◌&&◌, if◌then◌else◌}
use libevfilter.Base.Int.{ℤ, pos, ◌==ℤ◌}
use libevfilter.Base.Text.{Text, codes}
use libevfilter.Event.{Event, Next, Modify, nonzero}
use libevfilter.Param.Defs.{ParamType, Param, row, last_row, Result, fault, ◌>>=◌, Value, Env}
use libevfilter.Param.Load.{load_params}
use libevfilter.Handle.{Ptr, Store, create, destroy}
use libevfilter.Filters.AtHandle.{made}

-- `struct priv`.
pub record FilterToHandle : Type 0 where
  pub type : ℤ
  pub code : ℤ
  pub sync_flag : ℤ
  pub ev_flag : ℤ
  pub handle : Ptr

-- The two tests of `modify`.
abbrev pub is_sync_event : Event → Bool
is_sync_event ev = (ev.type == 0) && (ev.code == 0) && (ev.value ==ℤ pos 0)

abbrev pub is_chosen : (type code : ℤ) → Event → Bool
is_chosen type code ev = (pos ev.type ==ℤ type) && (pos ev.code ==ℤ code)

-- What is done after a call.
abbrev pub and_then :
    {D : Type 0}
    → Option (Event × D)
    → (Event → D → Option (FilterToHandle × Event × D))
    → Option (FilterToHandle × Event × D)
and_then none f = none
and_then (some (ev, d)) f = f ev d

-- `send` is `evf_handle_send`.
unfoldable pub modify : {D : Type 0} → (send : Ptr → Next D) → Next D → Modify FilterToHandle D
modify send next p ev d =
    if is_sync_event ev && nonzero p.sync_flag
    then and_then (send p.handle ev d) (λ ev' d'.
      if nonzero p.ev_flag
      then and_then (next ev' d') (λ ev'' d''. some (p, ev'', d''))
      else some (p, ev', d'))
    else if is_chosen p.type p.code ev
    then and_then (send p.handle ev d)
        (λ ev' d'. some (record p { sync_flag = pos 1; ev_flag = pos 0 }, ev', d'))
    else and_then (next ev d) (λ ev' d'. some (record p { ev_flag = pos 1 }, ev', d'))

-- `filter_free`.
abbrev pub filter_free : FilterToHandle → Store → Option Store
filter_free p s = destroy p.handle s

-- `evf_filter_to_handle_alloc`, with the memory for the filter, in which `junk` lies in the place
-- of `ev_flag`, and for the handle.
unfoldable pub alloc :
    Bool
    → Option Ptr
    → (junk : ℤ) → Text
    → (type code : ℤ) → Store
    → Option (Option FilterToHandle × Store)
alloc has_memory mem junk name type code s =
    if has_memory
    then elim (create mem name s) [
      | none ↦ none
      | some (none, s') ↦ some (none, s')
      | some (some h, s') ↦ some (
        some (record { type = type; code = code; sync_flag = pos 0; ev_flag = junk; handle = h }),
        s',
      )
    ]
    else some (none, s)

abbrev pub filter_params : List Param
filter_params =
    row (codes "HandleName") ParamType.str none none
    ∷ row (codes "EventType") ParamType.evtype none none
    ∷ row (codes "EventCode") ParamType.int none none
    ∷ last_row
    ∷ []

unfoldable pub from_values :
    {F : Type 0}
    → Env F
    → Option Ptr
    → (junk : ℤ) → Store
    → List (Value F)
    → Result (FilterToHandle × Store)
unfolding alloc made
from_values env mem junk s (Value.str name ∷ Value.int type ∷ Value.int code ∷ []) =
    made env (alloc env.has_memory mem junk name type code s)
from_values env mem junk s _ = fault

-- `evf_filter_to_handle_creat`.
unfoldable pub creat :
    {F : Type 0} → Env F → Option Ptr → (junk : ℤ) → Store → Text → Result (FilterToHandle × Store)
unfolding from_values
creat env mem junk s params = load_params env params filter_params >>= from_values env mem junk s
