-- ===== src/Filters/SpeedMod.antt =====
-- src/filters/speed_mod_rel.c: relative movements divided by a number, with the rest kept.
pub mod Conserve
use libevfilter.Base.{
  ℕ, zero, suc, ◌+◌, ◌-◌, ◌*◌, ◌%◌, ◌≤◌, ◌<◌, ◌≡◌, refl, ◌≢◌, ◌⊎◌, inl, inr, Bool, true, false, not,
  ◌&&◌, ◌||◌, Option, none, some, List, [], ◌∷◌, ◌++◌, append-nil, append_assoc, arith, ltb, leb,
  ◌==◌, if◌then◌else◌, length, take, select, Bool-cases, set, ap, replicate, length-append,
  length-replicate, length-set,
}
use libevfilter.Base.Int.{
  ℤ, pos, negsuc, ◌+ℤ◌, ◌-ℤ◌, ◌*ℤ◌, ◌==ℤ◌, ◌≤ℤ◌, ltb_ℤ, abs, to_int, to_u16, div_trunc, rem_trunc,
  int_max, InInt, to_int_fits, int_laws,
}
use libevfilter.Base.Text.{Text, codes}
use libevfilter.Event.{
  Event, ev_syn, ev_key, ev_rel, ev_abs, syn_report, rel_x, rel_y, rel_hwheel, rel_wheel, abs_x,
  abs_y, abs_pressure, nonzero, Next, Modify, pass, swallow, emit, run,
}
use libevfilter.Param.Defs.{
  ParamType, LimInt, Param, row, last_row, Result, done, failed, fault, ◌>>=◌, Value, Env,
}
use libevfilter.Param.Load.{load_params, or_errno}

-- `struct relspeed`.
pub record RelSpeed : Type 0 where
  pub x : ℤ
  pub y : ℤ
  pub xmod : ℤ
  pub ymod : ℤ
  pub eat_next_syn : ℤ

-- `#define sgn(x)`.
unfoldable pub sgn : ℤ → ℤ
sgn x = if ltb_ℤ (pos 0) x then pos 1 else negsuc 0

-- One axis at a movement `v`, where `abs` of the least `int` is that `int`: the rest that is kept, and what is sent, if anything is.
unfoldable pub slow : ℤ → ℤ → ℤ → Option (ℤ × Option ℤ)
unfolding sgn
slow m x v =
    let t = to_int (x +ℤ v) in
    let size = to_int (pos (abs t)) in
    if ltb_ℤ size m
    then some (t, none)
    else if m ==ℤ pos 0
    then none
    else some (sgn t *ℤ rem_trunc size m, some (div_trunc t m))

-- What `modify` does with the result: the axis's rest is stored by the first argument.
unfoldable pub send_slow :
    {D : Type 0} → (RelSpeed → ℤ → RelSpeed) → Next D → Option (ℤ × Option ℤ) → Modify RelSpeed D
send_slow store next none s ev d = none
send_slow store next (some (t, none)) s ev d =
    let s' = store s t in swallow (record s' { eat_next_syn = pos 1 }) ev d
send_slow store next (some (t, some v)) s ev d = pass next (store s t) (record ev { value = v }) d

abbrev pub store_x : RelSpeed → ℤ → RelSpeed
store_x s t = record s { x = t }

abbrev pub store_y : RelSpeed → ℤ → RelSpeed
store_y s t = record s { y = t }

unfoldable pub modify : {D : Type 0} → Next D → Modify RelSpeed D
unfolding slow send_slow
modify next s ev d =
    if (ev.type == ev_syn) && nonzero s.eat_next_syn
    then swallow (record s { eat_next_syn = pos 0 }) ev d
    else if ev.type == ev_rel
    then (if ev.code == rel_x
        then send_slow store_x next (slow s.xmod s.x ev.value) s ev d
        else if ev.code == rel_y
        then send_slow store_y next (slow s.ymod s.y ev.value) s ev d
        else pass next s ev d)
    else pass next s ev d

-- `evf_speed_mod_rel_alloc`.
unfoldable pub alloc : Bool → ℤ → ℤ → Option RelSpeed
alloc has_memory xmod ymod =
    if has_memory
    then some (record { x = pos 0; y = pos 0; xmod = xmod; ymod = ymod; eat_next_syn = pos 0 })
    else none

abbrev pub relspeed_params : List Param
relspeed_params =
    row (codes "xmod") ParamType.int none (some (codes "1"))
    ∷ row (codes "ymod") ParamType.int none (some (codes "1"))
    ∷ last_row
    ∷ []

unfoldable pub from_values : {F : Type 0} → Env F → List (Value F) → Result RelSpeed
unfolding alloc
from_values env (Value.int x ∷ Value.int y ∷ []) = or_errno env (alloc env.has_memory x y)
from_values env _ = fault

-- `evf_speed_mod_rel_creat`.
unfoldable pub creat : {F : Type 0} → Env F → Text → Result RelSpeed
unfolding from_values
creat env params = load_params env params relspeed_params >>= from_values env
