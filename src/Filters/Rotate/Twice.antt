-- ===== src/Filters/Rotate/Twice.antt =====
-- src/filters/rotate.c rotate_twice in a line.
use libevfilter.Base.{◌≡◌, arith}
use libevfilter.Event.{Event, Next, pass, behind}
use libevfilter.Filters.Rotate.{Rotate, rotate_rel, rotate_abs, modify}

-- Two filters with the same settings, one behind the other, send every event as it came.
pub rotate_twice :
    {D : Type 0} (next : Next D) (r : Rotate) (ev : Event) (d : D)
    → modify (behind (modify next)) r ev (r, d) ≡ pass (behind (pass next)) r ev (r, d)
unfolding modify
rotate_twice next r ev d = ground arith

-- A rotation changes the code of an event, never its value.
pub value-rotate : (r : Rotate) (ev : Event) → (rotate_abs r (rotate_rel r ev)).value ≡ ev.value
unfolding rotate_rel rotate_abs
value-rotate r ev = ground arith
