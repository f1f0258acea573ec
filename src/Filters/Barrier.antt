-- ===== src/Filters/Barrier.antt =====
-- src/filters/barrier.c: events are held back until a sync event.
pub mod Refine
use libevfilter.Base.{
  ℕ, zero, suc, ◌+◌, ◌-◌, ◌*◌, ◌%◌, ◌≤◌, ◌<◌, ◌≡◌, refl, ◌≢◌, ◌⊎◌, inl, inr, Bool, true, false, not,
  ◌&&◌, ◌||◌, Option, none, some, List, [], ◌∷◌, ◌++◌, append-nil, append_assoc, arith, ltb, leb,
  ◌==◌, if◌then◌else◌, length, take, select, Bool-cases, set, ap, replicate, length-append,
  length-replicate, length-set,
}
use libevfilter.Base.Int.{
  ℤ, pos, negsuc, ◌+ℤ◌, ◌-ℤ◌, ◌*ℤ◌, ◌==ℤ◌, ◌≤ℤ◌, ltb_ℤ, abs, to_int, to_u16, div_trunc, rem_trunc,
  int_max, InInt, to_int_fits, int_laws,
}
use libevfilter.Base.Text.{Text, codes}
use libevfilter.Event.{
  Event, ev_syn, ev_key, ev_rel, ev_abs, syn_report, rel_x, rel_y, rel_hwheel, rel_wheel, abs_x,
  abs_y, abs_pressure, nonzero, Next, Modify, pass, swallow, emit, run,
}
use libevfilter.Param.Defs.{
  ParamType, LimInt, Param, row, last_row, Result, done, failed, fault, ◌>>=◌, Value, Env,
}
use libevfilter.Param.Load.{load_params, or_errno}

-- `struct barrier`; the queue has `queue_size` places.
pub record Barrier : Type 0 where
  pub queue_index : ℕ
  pub queue_size : ℕ
  pub queue : List Event

-- The loop of `flush_queue` over the places from the front on: `n` rounds are left. The filters
-- behind may write to the event, which lies in the queue.
unfoldable pub flush_from : {D : Type 0} → Next D → ℕ → List Event → D → Option (List Event × D)
flush_from next zero q d = some (q, d)
flush_from next (suc n) [] d = none
flush_from next (suc n) (ev ∷ q) d = elim (next ev d) [
  | none ↦ none
  | some (ev', d') ↦ elim (flush_from next n q d') [
    | none ↦ none
    | some (q', d'') ↦ some (ev' ∷ q', d'')
  ]
]

unfoldable pub flush_queue : {D : Type 0} → Next D → Barrier → D → Option (Barrier × D)
unfolding flush_from
flush_queue next b d = elim (flush_from next b.queue_index b.queue d) [
  | none ↦ none
  | some (q, d') ↦ some (record b { queue_index = 0; queue = q }, d')
]

unfoldable pub insert_queue : Barrier → Event → Barrier
insert_queue b ev =
    if leb b.queue_size b.queue_index
    then b
    else record b { queue_index = b.queue_index + 1; queue = set b.queue b.queue_index ev }

unfoldable pub modify : {D : Type 0} → Next D → Modify Barrier D
unfolding flush_queue insert_queue
modify next b ev d =
    if (ev.type == ev_syn) && (ev.code == syn_report)
    then elim (flush_queue next b d) [ none ↦ none | some (b', d') ↦ pass next b' ev d' ]
    else swallow (insert_queue b ev) ev d

-- `evf_barrier_alloc`: `malloc` does not clear the places, `junk` is what lies there.
unfoldable pub alloc : Bool → (junk : Event) → ℕ → Option Barrier
alloc has_memory junk history =
    if has_memory
    then some (record { queue_index = 0; queue_size = history; queue = replicate history junk })
    else none

abbrev pub history_limit : LimInt
history_limit = record { min = pos 0; max = pos 100 }

-- This table has no last row.
abbrev pub barrier_params : List Param
barrier_params = row (codes "history") ParamType.int (some history_limit) (some (codes "50")) ∷ []

unfoldable pub from_values : {F : Type 0} → Env F → Event → List (Value F) → Result Barrier
unfolding alloc
from_values env junk (Value.int (pos n) ∷ []) = or_errno env (alloc env.has_memory junk n)
from_values env junk _ = fault

-- `evf_barrier_creat`.
unfoldable pub creat : {F : Type 0} → Env F → Event → Text → Result Barrier
unfolding from_values
creat env junk params = load_params env params barrier_params >>= from_values env junk
