-- ===== src/Filters/KeyLock.antt =====
-- src/filters/key_lock.c: a key stays pressed until it is pressed again.
pub mod Toggle
use libevfilter.Base.{
  ℕ, zero, suc, ◌+◌, ◌-◌, ◌*◌, ◌%◌, ◌≤◌, ◌<◌, ◌≡◌, refl, ◌≢◌, ◌⊎◌, inl, inr, Bool, true, false, not,
  ◌&&◌, ◌||◌, Option, none, some, List, [], ◌∷◌, ◌++◌, append-nil, append_assoc, arith, ltb, leb,
  ◌==◌, if◌then◌else◌, length, take, select, Bool-cases, set, ap, replicate, length-append,
  length-replicate, length-set,
}
use libevfilter.Base.Int.{
  ℤ, pos, negsuc, ◌+ℤ◌, ◌-ℤ◌, ◌*ℤ◌, ◌==ℤ◌, ◌≤ℤ◌, ltb_ℤ, abs, to_int, to_u16, div_trunc, rem_trunc,
  int_max, InInt, to_int_fits, int_laws,
}
use libevfilter.Base.Text.{Text, codes}
use libevfilter.Event.{
  Event, ev_syn, ev_key, ev_rel, ev_abs, syn_report, rel_x, rel_y, rel_hwheel, rel_wheel, abs_x,
  abs_y, abs_pressure, nonzero, Next, Modify, pass, swallow, emit, run,
}
use libevfilter.Param.Defs.{
  ParamType, LimInt, Param, row, last_row, Result, done, failed, fault, ◌>>=◌, Value, Env,
}
use libevfilter.Param.Load.{load_params, or_errno}

-- `struct priv` of the filter.
pub record KeyLock : Type 0 where
  pub key : ℤ
  pub state : ℤ
  pub eat_next_sync : ℤ

-- `modify` behind its first block.
unfoldable pub lock : {D : Type 0} → Next D → Modify KeyLock D
lock next s ev d =
    if (ev.type == ev_key) && (pos ev.code ==ℤ s.key)
    then (if ev.value ==ℤ pos 0
        then swallow (record s { eat_next_sync = pos 1 }) ev d
        else if ev.value ==ℤ pos 1
        then (if s.state ==ℤ pos 0
            then pass next (record s { state = pos 1 }) ev d
            else pass next (record s { state = pos 0 }) (record ev { value = pos 0 }) d)
        else pass next s ev d)
    else pass next s ev d

-- `ev->type == 0 && ev->code == 0 && ev->value == 0`.
abbrev pub is_sync : Event → Bool
is_sync ev = (ev.type == 0) && (ev.code == 0) && (ev.value ==ℤ pos 0)

unfoldable pub modify : {D : Type 0} → Next D → Modify KeyLock D
unfolding lock
modify next s ev d =
    if nonzero s.eat_next_sync
    then (if is_sync ev
        then swallow (record s { eat_next_sync = pos 0 }) ev d
        else lock next (record s { eat_next_sync = pos 0 }) ev d)
    else lock next s ev d

-- `evf_key_lock_alloc`.
unfoldable pub alloc : Bool → ℤ → Option KeyLock
alloc has_memory key =
    if has_memory then some (record { key = key; state = pos 0; eat_next_sync = pos 0 }) else none

abbrev pub filter_params : List Param
filter_params = row (codes "Key") ParamType.key none none ∷ last_row ∷ []

unfoldable pub from_values : {F : Type 0} → Env F → List (Value F) → Result KeyLock
unfolding alloc
from_values env (Value.int k ∷ []) = or_errno env (alloc env.has_memory k)
from_values env _ = fault

-- `evf_key_lock_creat`.
unfoldable pub creat : {F : Type 0} → Env F → Text → Result KeyLock
unfolding from_values
creat env params = load_params env params filter_params >>= from_values env
