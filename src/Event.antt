-- ===== src/Event.antt =====
-- `struct input_event`, the event numbers of the input layer, and how a filter hands an event on:
-- the calling convention of `modify` in src/evf_struct.h.
pub mod Compose
use libevfilter.Base.{ℕ, ◌≡◌, arith, Bool, not, Option, none, some, List, [], ◌∷◌, ◌++◌}
use libevfilter.Base.Int.{ℤ, pos, ◌==ℤ◌}

-- The time stamp is copied with the event and never read.
pub record Event : Type 0 where
  pub time : ℕ
  pub type : ℕ
  pub code : ℕ
  pub value : ℤ

-- Event types and codes, numbered as the name tables of src/evf_input.c number them.
abbrev pub ev_syn : ℕ
ev_syn = 0

abbrev pub ev_key : ℕ
ev_key = 1

abbrev pub ev_rel : ℕ
ev_rel = 2

abbrev pub ev_abs : ℕ
ev_abs = 3

abbrev pub syn_report : ℕ
syn_report = 0

abbrev pub rel_x : ℕ
rel_x = 0

abbrev pub rel_y : ℕ
rel_y = 1

abbrev pub rel_hwheel : ℕ
rel_hwheel = 6

abbrev pub rel_wheel : ℕ
rel_wheel = 8

abbrev pub abs_x : ℕ
abs_x = 0

abbrev pub abs_y : ℕ
abs_y = 1

abbrev pub abs_pressure : ℕ
abs_pressure = 24

-- `ev->value == 0` and the other tests of an `int` for truth.
abbrev pub nonzero : ℤ → Bool
nonzero v = not (v ==ℤ pos 0)

-- What stands behind a filter, `self->next->modify(self->next, ev)`: it may write to the event,
-- which is shared, and to its own state `D`. `none` is a fault that ends the process: a NULL
-- pointer, a division by zero, an index out of range.
abbrev pub Next : Type 0 → Type 0
Next D = Event → D → Option (Event × D)

-- A `modify` function: the filter's data, the event and the state behind the filter.
abbrev pub Modify : Type 0 → Type 0 → Type 0
Modify S D = S → Event → D → Option (S × Event × D)

-- The last call of most filters hands the event on.
abbrev pub pass : {S D : Type 0} → Next D → Modify S D
pass next s ev d = elim (next ev d) [ none ↦ none | some (ev', d') ↦ some (s, ev', d') ]

-- `return` before that call.
abbrev pub swallow : {S D : Type 0} → Modify S D
swallow s ev d = some (s, ev, d)

-- The simplest end of a line: it records each event and leaves it as it is.
abbrev pub emit : Next (List Event)
emit ev out = some (ev, out ++ (ev ∷ []))

-- A filter is given the events of a list in turn, and what it sends for each is put together.
unfoldable pub run : {S : Type 0} → Modify S (List Event) → S → List Event → Option (S × List Event)
run modify s [] = some (s, [])
run modify s (ev ∷ evs) = elim (modify s ev []) [
  | none ↦ none
  | some (s', _, out) ↦ elim (run modify s' evs) [
    | none ↦ none
    | some (s'', outs) ↦ some (s'', out ++ outs)
  ]
]

-- A run event by event.
pub run-cons :
    {S : Type 0} (modify : Modify S (List Event)) (ev : Event) (evs : List Event) {s s' s'' : S}
    {ev' : Event} {out outs : List Event}
    → modify s ev [] ≡ some (s', ev', out)
    → run modify s' evs ≡ some (s'', outs)
    → run modify s (ev ∷ evs) ≡ some (s'', out ++ outs)
unfolding run
run-cons modify ev evs e f = ground (arith, e, f)

-- A filter as what stands behind another one.
abbrev pub behind : {S D : Type 0} → Modify S D → Next (S × D)
behind modify ev (s, d) = elim (modify s ev d) [
  | none ↦ none
  | some (s', ev', d') ↦ some (ev', (s', d'))
]
