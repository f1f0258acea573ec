-- ===== src/Filters/Kalman.antt =====
-- src/filters/kalman.c: absolute coordinates are smoothed by a filter with two gains.
pub mod Unread
use libevfilter.Base.{Bool, Option, some, none, List, [], ◌∷◌, ◌==◌, not, if◌then◌else◌}
use libevfilter.Base.Int.{ℤ, pos, ◌==ℤ◌}
use libevfilter.Base.Text.{Text, codes}
use libevfilter.Event.{Event, ev_abs, abs_x, abs_y, abs_pressure, nonzero, Next, Modify, pass}
use libevfilter.Param.Defs.{ParamType, Param, row, last_row, Result, fault, ◌>>=◌, Value, Env}
use libevfilter.Param.Load.{load_params, or_errno}

-- The arithmetic on `float`: the conversions, `a + b`, `a - b`, `a * b`, `a / 10`, and
-- `a - 0.1 * b`, which is computed on `double`.
pub record Floats (F : Type 0) : Type 0 where
  pub zero_float : F
  pub of_int : ℤ → F
  pub int_of : F → ℤ
  pub plus : F → F → F
  pub minus : F → F → F
  pub times : F → F → F
  pub tenth : F → F
  pub less_tenth_of : F → F → F

-- What `struct kalman` has for one axis: the estimate, the velocity and the flag for a reset.
pub record Track (F : Type 0) : Type 0 where
  pub at : F
  pub velocity : F
  pub reset : ℤ

-- `struct kalman`.
pub record Kalman (F : Type 0) : Type 0 where
  pub kx : F
  pub ky : F
  pub x : Track F
  pub y : Track F

-- One axis: what it becomes, and the value that the event gets.
unfoldable pub follow : {F : Type 0} → Floats F → F → Track F → ℤ → Track F × ℤ
follow fl k t value =
    let est = fl.plus t.at t.velocity in
    let new = fl.plus est (fl.times k (fl.minus (fl.of_int value) est)) in
    let slowed = fl.less_tenth_of (fl.tenth t.velocity) (fl.minus est (fl.of_int value)) in
    if nonzero t.reset
    then (record t { at = fl.of_int value; reset = pos 0 }, value)
    else (record t { at = new; velocity = slowed }, fl.int_of new)

-- The pen is up.
abbrev pub forget : {F : Type 0} → Floats F → Track F → Track F
forget fl t = record t { velocity = fl.zero_float; reset = pos 1 }

-- The `switch` of `modify`.
unfoldable pub change : {F : Type 0} → Floats F → Kalman F → Event → Kalman F × Event
unfolding follow
change fl s ev =
    let on_x = follow fl s.kx s.x ev.value in
    let on_y = follow fl s.ky s.y ev.value in
    if not (ev.type == ev_abs)
    then (s, ev)
    else if ev.code == abs_x
    then (record s { x = on_x.0 }, record ev { value = on_x.1 })
    else if ev.code == abs_y
    then (record s { y = on_y.0 }, record ev { value = on_y.1 })
    else if not (ev.code == abs_pressure)
    then (s, ev)
    else if ev.value ==ℤ pos 0
    then (record s { x = forget fl s.x; y = forget fl s.y }, ev)
    else (s, ev)

unfoldable pub modify : {F D : Type 0} → Floats F → Next D → Modify (Kalman F) D
unfolding change
modify fl next s ev d = let r = change fl s ev in pass next r.0 r.1 d

-- `evf_kalman_alloc`: `junk` is what the memory holds, and the estimates keep it.
unfoldable pub alloc : {F : Type 0} → Floats F → Bool → Kalman F → (kx ky : F) → Option (Kalman F)
alloc fl has_memory junk kx ky =
    if has_memory
    then some (record { kx = kx; ky = ky; x = forget fl junk.x; y = forget fl junk.y })
    else none

abbrev pub kalman_params : List Param
kalman_params =
    row (codes "kx") ParamType.float none none
    ∷ row (codes "ky") ParamType.float none none
    ∷ last_row
    ∷ []

unfoldable pub from_values :
    {F : Type 0} → Floats F → Env F → Kalman F → List (Value F) → Result (Kalman F)
unfolding alloc
from_values fl env junk (Value.float kx ∷ Value.float ky ∷ []) =
    or_errno env (alloc fl env.has_memory junk kx ky)
from_values fl env junk _ = fault

-- `evf_kalman_creat`.
unfoldable pub creat : {F : Type 0} → Floats F → Env F → Kalman F → Text → Result (Kalman F)
unfolding from_values
creat fl env junk params = load_params env params kalman_params >>= from_values fl env junk
