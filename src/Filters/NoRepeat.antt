-- ===== src/Filters/NoRepeat.antt =====
-- src/filters/no_repeat.c: key repeat events are thrown away.
pub mod Stream
use libevfilter.Base.{
  ℕ, zero, suc, ◌+◌, ◌-◌, ◌*◌, ◌%◌, ◌≤◌, ◌<◌, ◌≡◌, refl, ◌≢◌, ◌⊎◌, inl, inr, Bool, true, false, not,
  ◌&&◌, ◌||◌, Option, none, some, List, [], ◌∷◌, ◌++◌, append-nil, append_assoc, arith, ltb, leb,
  ◌==◌, if◌then◌else◌, length, take, select, Bool-cases, set, ap, replicate, length-append,
  length-replicate, length-set,
}
use libevfilter.Base.Int.{
  ℤ, pos, negsuc, ◌+ℤ◌, ◌-ℤ◌, ◌*ℤ◌, ◌==ℤ◌, ◌≤ℤ◌, ltb_ℤ, abs, to_int, to_u16, div_trunc, rem_trunc,
  int_max, InInt, to_int_fits, int_laws,
}
use libevfilter.Base.Text.{Text, codes}
use libevfilter.Event.{
  Event, ev_syn, ev_key, ev_rel, ev_abs, syn_report, rel_x, rel_y, rel_hwheel, rel_wheel, abs_x,
  abs_y, abs_pressure, nonzero, Next, Modify, pass, swallow, emit, run,
}
use libevfilter.Param.Defs.{
  ParamType, LimInt, Param, row, last_row, Result, done, failed, fault, ◌>>=◌, Value, Env,
}
use libevfilter.Param.Load.{load_params, or_errno}

-- The filter has no data.
abbrev pub NoRepeat : Type 0
NoRepeat = Unit {0}

unfoldable pub modify : {D : Type 0} → Next D → Modify NoRepeat D
modify next s ev d =
    if not (ev.type == ev_key) || not (ev.value ==ℤ pos 2) then pass next s ev d else swallow s ev d

-- `evf_no_repeat_alloc`.
unfoldable pub alloc : Bool → Option NoRepeat
alloc has_memory = if has_memory then some tt else none

abbrev pub no_repeat_params : List Param
no_repeat_params = last_row ∷ []

-- `evf_no_repeat_creat`.
unfoldable pub creat : {F : Type 0} → Env F → Text → Result NoRepeat
unfolding alloc
creat env params =
    load_params env params no_repeat_params >>= λ _. or_errno env (alloc env.has_memory)
