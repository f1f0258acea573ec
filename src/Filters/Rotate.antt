-- ===== src/Filters/Rotate.antt =====
-- src/filters/rotate.c: the axes are exchanged.
pub mod Twice
use libevfilter.Base.{
  ℕ, zero, suc, ◌+◌, ◌-◌, ◌*◌, ◌%◌, ◌≤◌, ◌<◌, ◌≡◌, refl, ◌≢◌, ◌⊎◌, inl, inr, Bool, true, false, not,
  ◌&&◌, ◌||◌, Option, none, some, List, [], ◌∷◌, ◌++◌, append-nil, append_assoc, arith, ltb, leb,
  ◌==◌, if◌then◌else◌, length, take, select, Bool-cases, set, ap, replicate, length-append,
  length-replicate, length-set,
}
use libevfilter.Base.Int.{
  ℤ, pos, negsuc, ◌+ℤ◌, ◌-ℤ◌, ◌*ℤ◌, ◌==ℤ◌, ◌≤ℤ◌, ltb_ℤ, abs, to_int, to_u16, div_trunc, rem_trunc,
  int_max, InInt, to_int_fits, int_laws,
}
use libevfilter.Base.Text.{Text, codes}
use libevfilter.Event.{
  Event, ev_syn, ev_key, ev_rel, ev_abs, syn_report, rel_x, rel_y, rel_hwheel, rel_wheel, abs_x,
  abs_y, abs_pressure, nonzero, Next, Modify, pass, swallow, emit, run,
}
use libevfilter.Param.Defs.{
  ParamType, LimInt, Param, row, last_row, Result, done, failed, fault, ◌>>=◌, Value, Env,
}
use libevfilter.Param.Load.{load_params, or_errno}

-- `struct rotate`.
pub record Rotate : Type 0 where
  pub abs_coords : ℤ
  pub rel_coords : ℤ

-- The part for relative events.
unfoldable pub rotate_rel : Rotate → Event → Event
rotate_rel r ev =
    if (ev.type == ev_rel) && nonzero r.rel_coords
    then (if ev.code == rel_x
        then record ev { code = rel_y }
        else if ev.code == rel_y
        then record ev { code = rel_x }
        else ev)
    else ev

-- The part for absolute events.
unfoldable pub rotate_abs : Rotate → Event → Event
rotate_abs r ev =
    if (ev.type == ev_abs) && nonzero r.abs_coords
    then (if ev.code == abs_x
        then record ev { code = abs_y }
        else if ev.code == abs_y
        then record ev { code = abs_x }
        else ev)
    else ev

unfoldable pub modify : {D : Type 0} → Next D → Modify Rotate D
unfolding rotate_rel rotate_abs
modify next r ev d = pass next r (rotate_abs r (rotate_rel r ev)) d

-- `evf_rotate_alloc`.
unfoldable pub alloc : Bool → ℤ → ℤ → Option Rotate
alloc has_memory rotate_abs_coords rotate_rel_coords =
    if has_memory
    then some (record { abs_coords = rotate_abs_coords; rel_coords = rotate_rel_coords })
    else none

abbrev pub rotate_params : List Param
rotate_params =
    row (codes "RotateAbs") ParamType.bool none (some (codes "true"))
    ∷ row (codes "RotateRel") ParamType.bool none (some (codes "true"))
    ∷ last_row
    ∷ []

unfoldable pub from_values : {F : Type 0} → Env F → List (Value F) → Result Rotate
unfolding alloc
from_values env (Value.int a ∷ Value.int r ∷ []) = or_errno env (alloc env.has_memory a r)
from_values env _ = fault

-- `evf_rotate_creat`.
unfoldable pub creat : {F : Type 0} → Env F → Text → Result Rotate
unfolding from_values
creat env params = load_params env params rotate_params >>= from_values env
