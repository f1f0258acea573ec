-- ===== src/Filters/NoRepeat/Stream.antt =====
-- What src/filters/no_repeat.c does to a stream of events.
use libevfilter.Base.{◌≡◌, refl, Bool, not, ◌&&◌, some, List, [], ◌∷◌, arith, ◌==◌, select}
use libevfilter.Base.Int.{pos, ◌==ℤ◌}
use libevfilter.Event.{Event, ev_key, emit, run}
use libevfilter.Filters.NoRepeat.{modify}

-- A key repeat event.
abbrev pub is_repeat : Event → Bool
is_repeat ev = (ev.type == ev_key) && (ev.value ==ℤ pos 2)

-- Of any stream the filter sends exactly the events that are no key repeats, unchanged and in
-- their order, and it never fails.
pub run-select :
    (evs : List Event) → run (modify emit) tt evs ≡ some (tt, select (λ ev. not (is_repeat ev)) evs)
unfolding run modify
run-select [] = refl
run-select (ev ∷ evs) = ground (arith, run-select evs)
