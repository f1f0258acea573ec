-- ===== src/Filters/Abs2Rel.antt =====
-- src/filters/abs2rel.c: relative movements from absolute positions.
pub mod Stale
use libevfilter.Base.{
  ℕ, zero, suc, ◌+◌, ◌-◌, ◌*◌, ◌%◌, ◌≤◌, ◌<◌, ◌≡◌, refl, ◌≢◌, ◌⊎◌, inl, inr, Bool, true, false, not,
  ◌&&◌, ◌||◌, Option, none, some, List, [], ◌∷◌, ◌++◌, append-nil, append_assoc, arith, ltb, leb,
  ◌==◌, if◌then◌else◌, length, take, select, Bool-cases, set, ap, replicate, length-append,
  length-replicate, length-set,
}
use libevfilter.Base.Int.{
  ℤ, pos, negsuc, ◌+ℤ◌, ◌-ℤ◌, ◌*ℤ◌, ◌==ℤ◌, ◌≤ℤ◌, ltb_ℤ, abs, to_int, to_u16, div_trunc, rem_trunc,
  int_max, InInt, to_int_fits, int_laws,
}
use libevfilter.Base.Text.{Text, codes}
use libevfilter.Event.{
  Event, ev_syn, ev_key, ev_rel, ev_abs, syn_report, rel_x, rel_y, rel_hwheel, rel_wheel, abs_x,
  abs_y, abs_pressure, nonzero, Next, Modify, pass, swallow, emit, run,
}
use libevfilter.Param.Defs.{
  ParamType, LimInt, Param, row, last_row, Result, done, failed, fault, ◌>>=◌, Value, Env,
}
use libevfilter.Param.Load.{load_params, or_errno}

-- `struct abs2rel`.
pub record Abs2Rel : Type 0 where
  pub xstate : ℤ
  pub ystate : ℤ
  pub relx : ℤ
  pub rely : ℤ
  pub last_absx : ℤ
  pub last_absy : ℤ

-- `#define INCIF(x)`.
unfoldable pub incif : ℤ → ℤ
incif x = if ltb_ℤ x (pos 2) then x +ℤ pos 1 else x

-- One of the two events that are sent before the sync event.
unfoldable pub flush_axis : {D : Type 0} → Next D → ℤ → ℕ → ℤ → Next D
flush_axis next state axis rel ev d =
    if state ==ℤ pos 2 then next (record ev { code = axis; value = rel }) d else some (ev, d)

-- The block for sync events.
unfoldable pub flush : {D : Type 0} → Next D → Abs2Rel → Next D
unfolding flush_axis
flush next s ev d = elim (flush_axis next s.xstate rel_x s.relx ev d) [
  | none ↦ none
  | some (ev₁, d₁) ↦ elim (flush_axis next s.ystate rel_y s.rely ev₁ d₁) [
    | none ↦ none
    | some (ev₂, d₂) ↦ next (record ev₂ { type = ev_syn; value = pos 0 }) d₂
  ]
]

-- The `switch` and its `else`.
unfoldable pub track : {D : Type 0} → Next D → Modify Abs2Rel D
unfolding incif
track next s ev d =
    if ev.type == ev_abs
    then (if ev.code == abs_x
        then swallow
            (record s {
              relx = to_int (ev.value -ℤ s.last_absx);
              last_absx = ev.value;
              xstate = incif s.xstate;
            })
            ev d
        else if ev.code == abs_y
        then swallow
            (record s {
              rely = to_int (ev.value -ℤ s.last_absy);
              last_absy = ev.value;
              ystate = incif s.ystate;
            })
            ev d
        else if (ev.code == abs_pressure) && (ev.value ==ℤ pos 0)
        then swallow (record s { xstate = pos 0; ystate = pos 0 }) ev d
        else swallow s ev d)
    else pass next s ev d

unfoldable pub modify : {D : Type 0} → Next D → Modify Abs2Rel D
unfolding flush track
modify next s ev d =
    if ev.type == ev_syn
    then elim (flush next s ev d) [ none ↦ none | some (ev', d') ↦ track next s ev' d' ]
    else track next s ev d

-- `evf_abs2rel_alloc`: the four members that it leaves are what `malloc` gave, `junk`.
unfoldable pub alloc : Bool → (junk : Abs2Rel) → Option Abs2Rel
alloc has_memory junk =
    if has_memory then some (record junk { xstate = pos 0; ystate = pos 0 }) else none

abbrev pub abs2rel_params : List Param
abs2rel_params = last_row ∷ []

-- `evf_abs2rel_creat`.
unfoldable pub creat : {F : Type 0} → Env F → Abs2Rel → Text → Result Abs2Rel
unfolding alloc
creat env junk params =
    load_params env params abs2rel_params >>= λ _. or_errno env (alloc env.has_memory junk)
