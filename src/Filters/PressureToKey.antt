-- ===== src/Filters/PressureToKey.antt =====
-- src/filters/pressure_to_key.c: key events from the pressure of a pen.
pub mod Alternate
use libevfilter.Base.{
  ℕ, zero, suc, ◌+◌, ◌-◌, ◌*◌, ◌%◌, ◌≤◌, ◌<◌, ◌≡◌, refl, ◌≢◌, ◌⊎◌, inl, inr, Bool, true, false, not,
  ◌&&◌, ◌||◌, Option, none, some, List, [], ◌∷◌, ◌++◌, append-nil, append_assoc, arith, ltb, leb,
  ◌==◌, if◌then◌else◌, length, take, select, Bool-cases, set, ap, replicate, length-append,
  length-replicate, length-set,
}
use libevfilter.Base.Int.{
  ℤ, pos, negsuc, ◌+ℤ◌, ◌-ℤ◌, ◌*ℤ◌, ◌==ℤ◌, ◌≤ℤ◌, ltb_ℤ, abs, to_int, to_u16, div_trunc, rem_trunc,
  int_max, InInt, to_int_fits, int_laws,
}
use libevfilter.Base.Text.{Text, codes}
use libevfilter.Event.{
  Event, ev_syn, ev_key, ev_rel, ev_abs, syn_report, rel_x, rel_y, rel_hwheel, rel_wheel, abs_x,
  abs_y, abs_pressure, nonzero, Next, Modify, pass, swallow, emit, run,
}
use libevfilter.Param.Defs.{
  ParamType, LimInt, Param, row, last_row, Result, done, failed, fault, ◌>>=◌, Value, Env,
}
use libevfilter.Param.Load.{load_params, or_errno}

-- `struct pressure`.
pub record Pressure : Type 0 where
  pub treshold : ℤ
  pub key : ℤ
  pub pressed : ℤ

unfoldable pub check_treshold : ℤ → ℤ → Bool
check_treshold value treshold =
    if ltb_ℤ treshold (pos 0)
    then (if value ==ℤ pos 0 then false else ltb_ℤ value (pos (abs treshold)))
    else ltb_ℤ treshold value

-- The key event that is written over the event.
abbrev pub key_event : Pressure → ℤ → Event → Event
key_event p value ev = record ev { type = ev_key; code = to_u16 p.key; value = value }

-- What `modify` does with the event when the filters behind it have returned.
unfoldable pub generate : {D : Type 0} → Next D → Modify Pressure D
unfolding check_treshold
generate next p ev d =
    if (ev.type == ev_abs) && (ev.code == abs_pressure)
    then (if check_treshold ev.value p.treshold
        then (if nonzero p.pressed
            then swallow p ev d
            else pass next (record p { pressed = pos 1 }) (key_event p (pos 1) ev) d)
        else (if nonzero p.pressed
            then pass next (record p { pressed = pos 0 }) (key_event p (pos 0) ev) d
            else swallow p ev d))
    else swallow p ev d

unfoldable pub modify : {D : Type 0} → Next D → Modify Pressure D
unfolding generate
modify next p ev d = elim (next ev d) [ none ↦ none | some (ev', d') ↦ generate next p ev' d' ]

-- `evf_pressure_to_key_alloc`.
unfoldable pub alloc : Bool → ℤ → ℤ → Option Pressure
alloc has_memory treshold key =
    if has_memory then some (record { treshold = treshold; key = key; pressed = pos 0 }) else none

abbrev pub pressure_to_key_params : List Param
pressure_to_key_params =
    row (codes "treshold") ParamType.int none none
    ∷ row (codes "key") ParamType.key none none
    ∷ last_row
    ∷ []

unfoldable pub from_values : {F : Type 0} → Env F → List (Value F) → Result Pressure
unfolding alloc
from_values env (Value.int t ∷ Value.int k ∷ []) = or_errno env (alloc env.has_memory t k)
from_values env _ = fault

-- `evf_pressure_to_key_creat`.
unfoldable pub creat : {F : Type 0} → Env F → Text → Result Pressure
unfolding from_values
creat env params = load_params env params pressure_to_key_params >>= from_values env
