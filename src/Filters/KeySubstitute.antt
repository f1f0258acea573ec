-- ===== src/Filters/KeySubstitute.antt =====
-- src/filters/key_substitute.c: one key is replaced by another.
pub mod Replaced
use libevfilter.Base.{
  ℕ, zero, suc, ◌+◌, ◌-◌, ◌*◌, ◌%◌, ◌≤◌, ◌<◌, ◌≡◌, refl, ◌≢◌, ◌⊎◌, inl, inr, Bool, true, false, not,
  ◌&&◌, ◌||◌, Option, none, some, List, [], ◌∷◌, ◌++◌, append-nil, append_assoc, arith, ltb, leb,
  ◌==◌, if◌then◌else◌, length, take, select, Bool-cases, set, ap, replicate, length-append,
  length-replicate, length-set,
}
use libevfilter.Base.Int.{
  ℤ, pos, negsuc, ◌+ℤ◌, ◌-ℤ◌, ◌*ℤ◌, ◌==ℤ◌, ◌≤ℤ◌, ltb_ℤ, abs, to_int, to_u16, div_trunc, rem_trunc,
  int_max, InInt, to_int_fits, int_laws,
}
use libevfilter.Base.Text.{Text, codes}
use libevfilter.Event.{
  Event, ev_syn, ev_key, ev_rel, ev_abs, syn_report, rel_x, rel_y, rel_hwheel, rel_wheel, abs_x,
  abs_y, abs_pressure, nonzero, Next, Modify, pass, swallow, emit, run,
}
use libevfilter.Param.Defs.{
  ParamType, LimInt, Param, row, last_row, Result, done, failed, fault, ◌>>=◌, Value, Env,
}
use libevfilter.Param.Load.{load_params, or_errno}

-- `struct priv` of the filter.
pub record KeySubstitute : Type 0 where
  pub key_from : ℤ
  pub key_to : ℤ

unfoldable pub modify : {D : Type 0} → Next D → Modify KeySubstitute D
modify next s ev d =
    if (ev.type == ev_key) && (pos ev.code ==ℤ s.key_from)
    then pass next s (record ev { code = to_u16 s.key_to }) d
    else pass next s ev d

-- `evf_key_substitute_alloc`.
unfoldable pub alloc : Bool → ℤ → ℤ → Option KeySubstitute
alloc has_memory key_from key_to =
    if has_memory then some (record { key_from = key_from; key_to = key_to }) else none

abbrev pub filter_params : List Param
filter_params =
    row (codes "KeyFrom") ParamType.key none none
    ∷ row (codes "KeyTo") ParamType.key none none
    ∷ last_row
    ∷ []

unfoldable pub from_values : {F : Type 0} → Env F → List (Value F) → Result KeySubstitute
unfolding alloc
from_values env (Value.int a ∷ Value.int b ∷ []) = or_errno env (alloc env.has_memory a b)
from_values env _ = fault

-- `evf_key_substitute_creat`.
unfoldable pub creat : {F : Type 0} → Env F → Text → Result KeySubstitute
unfolding from_values
creat env params = load_params env params filter_params >>= from_values env
