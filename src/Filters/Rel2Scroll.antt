-- ===== src/Filters/Rel2Scroll.antt =====
-- src/filters/rel2scroll.c: while a button is held, movements turn the wheels.
pub mod Conserve
use libevfilter.Base.{
  ℕ, zero, suc, ◌+◌, ◌-◌, ◌*◌, ◌%◌, ◌≤◌, ◌<◌, ◌≡◌, refl, ◌≢◌, ◌⊎◌, inl, inr, Bool, true, false, not,
  ◌&&◌, ◌||◌, Option, none, some, List, [], ◌∷◌, ◌++◌, append-nil, append_assoc, arith, ltb, leb,
  ◌==◌, if◌then◌else◌, length, take, select, Bool-cases, set, ap, replicate, length-append,
  length-replicate, length-set,
}
use libevfilter.Base.Int.{
  ℤ, pos, negsuc, ◌+ℤ◌, ◌-ℤ◌, ◌*ℤ◌, ◌==ℤ◌, ◌≤ℤ◌, ltb_ℤ, abs, to_int, to_u16, div_trunc, rem_trunc,
  int_max, InInt, to_int_fits, int_laws,
}
use libevfilter.Base.Text.{Text, codes}
use libevfilter.Event.{
  Event, ev_syn, ev_key, ev_rel, ev_abs, syn_report, rel_x, rel_y, rel_hwheel, rel_wheel, abs_x,
  abs_y, abs_pressure, nonzero, Next, Modify, pass, swallow, emit, run,
}
use libevfilter.Param.Defs.{
  ParamType, LimInt, Param, row, last_row, Result, done, failed, fault, ◌>>=◌, Value, Env,
}
use libevfilter.Param.Load.{load_params, or_errno}

-- `struct rel2scroll`.
pub record Rel2Scroll : Type 0 where
  pub x : ℤ
  pub xmod : ℤ
  pub y : ℤ
  pub ymod : ℤ
  pub trigger_btn : ℤ
  pub trigger_on : Bool
  pub eat_next_sync : Bool

-- One axis at a movement `v`: the rest that is kept, and the turn that is sent, if any is.
unfoldable pub turn : ℤ → ℤ → ℤ → Option (ℤ × Option ℤ)
turn m x v =
    let t = to_int (x +ℤ v) in
    if m ==ℤ pos 0
    then none
    else if nonzero (div_trunc t m)
    then some (rem_trunc t m, some (div_trunc t m))
    else some (t, none)

-- What `modify` does with the result, with the wheel and where the rest is stored.
unfoldable pub send_turn :
    {D : Type 0}
    → (Rel2Scroll → ℤ → Rel2Scroll)
    → ℕ
    → Next D
    → Option (ℤ × Option ℤ)
    → Modify Rel2Scroll D
send_turn store wheel next none s ev d = none
send_turn store wheel next (some (t, none)) s ev d =
    let s' = store s t in swallow (record s' { eat_next_sync = true }) ev d
send_turn store wheel next (some (t, some v)) s ev d =
    pass next (store s t) (record ev { code = wheel; value = v }) d

abbrev pub store_x : Rel2Scroll → ℤ → Rel2Scroll
store_x s t = record s { x = t }

abbrev pub store_y : Rel2Scroll → ℤ → Rel2Scroll
store_y s t = record s { y = t }

-- `modify` behind its first test.
unfoldable pub scroll : {D : Type 0} → Next D → Modify Rel2Scroll D
unfolding turn send_turn
scroll next s ev d =
    if (ev.type == ev_key) && (pos ev.code ==ℤ s.trigger_btn)
    then swallow (record s { trigger_on = nonzero ev.value; eat_next_sync = true }) ev d
    else if s.trigger_on && (ev.type == ev_rel)
    then (if ev.code == rel_x
        then send_turn store_x rel_hwheel next (turn s.xmod s.x ev.value) s ev d
        else if ev.code == rel_y
        then send_turn store_y rel_wheel next (turn s.ymod s.y ev.value) s ev d
        else pass next s ev d)
    else pass next s ev d

unfoldable pub modify : {D : Type 0} → Next D → Modify Rel2Scroll D
unfolding scroll
modify next s ev d =
    if (ev.type == ev_syn) && s.eat_next_sync
    then swallow (record s { eat_next_sync = false }) ev d
    else scroll next (record s { eat_next_sync = false }) ev d

-- `evf_rel2scroll_alloc`.
unfoldable pub alloc : Bool → ℤ → ℤ → ℤ → Option Rel2Scroll
alloc has_memory trigger_btn xmod ymod =
    if has_memory
    then some (record {
      x = pos 0;
      xmod = xmod;
      y = pos 0;
      ymod = ymod;
      trigger_btn = trigger_btn;
      trigger_on = false;
      eat_next_sync = false;
    })
    else none

abbrev pub rel2scroll_params : List Param
rel2scroll_params =
    row (codes "TriggerButton") ParamType.key none none
    ∷ row (codes "Xmod") ParamType.int none (some (codes "1"))
    ∷ row (codes "Ymod") ParamType.int none (some (codes "1"))
    ∷ last_row
    ∷ []

unfoldable pub from_values : {F : Type 0} → Env F → List (Value F) → Result Rel2Scroll
unfolding alloc
from_values env (Value.int k ∷ Value.int x ∷ Value.int y ∷ []) =
    or_errno env (alloc env.has_memory k x y)
from_values env _ = fault

-- `evf_rel2scroll_creat`.
unfoldable pub creat : {F : Type 0} → Env F → Text → Result Rel2Scroll
unfolding from_values
creat env params = load_params env params rel2scroll_params >>= from_values env
