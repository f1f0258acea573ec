-- ===== src/Filters/Mirror.antt =====
-- src/filters/mirror.c: coordinates are mirrored.
pub mod Twice
use libevfilter.Base.{
  ℕ, zero, suc, ◌+◌, ◌-◌, ◌*◌, ◌%◌, ◌≤◌, ◌<◌, ◌≡◌, refl, ◌≢◌, ◌⊎◌, inl, inr, Bool, true, false, not,
  ◌&&◌, ◌||◌, Option, none, some, List, [], ◌∷◌, ◌++◌, append-nil, append_assoc, arith, ltb, leb,
  ◌==◌, if◌then◌else◌, length, take, select, Bool-cases, set, ap, replicate, length-append,
  length-replicate, length-set,
}
use libevfilter.Base.Int.{
  ℤ, pos, negsuc, ◌+ℤ◌, ◌-ℤ◌, ◌*ℤ◌, ◌==ℤ◌, ◌≤ℤ◌, ltb_ℤ, abs, to_int, to_u16, div_trunc, rem_trunc,
  int_max, InInt, to_int_fits, int_laws,
}
use libevfilter.Base.Text.{Text, codes}
use libevfilter.Event.{
  Event, ev_syn, ev_key, ev_rel, ev_abs, syn_report, rel_x, rel_y, rel_hwheel, rel_wheel, abs_x,
  abs_y, abs_pressure, nonzero, Next, Modify, pass, swallow, emit, run,
}
use libevfilter.Param.Defs.{
  ParamType, LimInt, Param, row, last_row, Result, done, failed, fault, ◌>>=◌, Value, Env,
}
use libevfilter.Param.Load.{load_params, or_errno}

-- `struct mirror`.
pub record Mirror : Type 0 where
  pub abs_x : ℤ
  pub abs_y : ℤ
  pub rel_x : ℤ
  pub rel_y : ℤ

-- The part for relative events.
unfoldable pub mirror_rel : Mirror → Event → Event
mirror_rel m ev =
    if ev.type == ev_rel
    then (if ev.code == rel_x
        then (if nonzero m.rel_x then record ev { value = to_int (ev.value *ℤ negsuc 0) } else ev)
        else if ev.code == rel_y
        then (if nonzero m.rel_y then record ev { value = to_int (ev.value *ℤ negsuc 0) } else ev)
        else ev)
    else ev

-- The part for absolute events.
unfoldable pub mirror_abs : Mirror → Event → Event
mirror_abs m ev =
    if ev.type == ev_abs
    then (if ev.code == abs_x
        then (if nonzero m.abs_x
            then record ev { value = to_int (pos int_max -ℤ ev.value) }
            else ev)
        else if ev.code == abs_y
        then (if nonzero m.abs_y
            then record ev { value = to_int (pos int_max -ℤ ev.value) }
            else ev)
        else ev)
    else ev

unfoldable pub modify : {D : Type 0} → Next D → Modify Mirror D
modify next m ev d = pass next m (mirror_abs m (mirror_rel m ev)) d

-- `evf_mirror_alloc`.
unfoldable pub alloc : Bool → ℤ → ℤ → ℤ → ℤ → Option Mirror
alloc has_memory mir_rel_x mir_rel_y mir_abs_x mir_abs_y =
    if has_memory
    then some
        (record { abs_x = mir_abs_x; abs_y = mir_abs_y; rel_x = mir_rel_x; rel_y = mir_rel_y })
    else none

abbrev pub mirror_params : List Param
mirror_params =
    row (codes "MirrorRelX") ParamType.bool none (some (codes "false"))
    ∷ row (codes "MirrorRelY") ParamType.bool none (some (codes "false"))
    ∷ row (codes "MirrorAbsX") ParamType.bool none (some (codes "false"))
    ∷ row (codes "MirrorAbsY") ParamType.bool none (some (codes "false"))
    ∷ last_row
    ∷ []

unfoldable pub from_values : {F : Type 0} → Env F → List (Value F) → Result Mirror
unfolding alloc
from_values env (Value.int rx ∷ Value.int ry ∷ Value.int ax ∷ Value.int ay ∷ []) =
    or_errno env (alloc env.has_memory rx ry ax ay)
from_values env _ = fault

-- `evf_mirror_creat`.
unfoldable pub creat : {F : Type 0} → Env F → Text → Result Mirror
unfolding from_values
creat env params = load_params env params mirror_params >>= from_values env
