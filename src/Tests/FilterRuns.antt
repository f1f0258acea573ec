-- ===== src/Tests/FilterRuns.antt =====
-- Streams of events for the filters of src/filters.
use libevfilter.Base.{map, ℕ, ◌+◌, ◌≡◌, refl, arith, true, false, some, List, [], ◌∷◌, select}
use libevfilter.Base.Lists.{All}
use libevfilter.Base.Int.{ℤ, pos, negsuc, ◌+ℤ◌, to_u16}
use libevfilter.Event.{
  Event, ev_syn, ev_key, ev_rel, ev_abs, rel_x, rel_y, rel_hwheel, rel_wheel, abs_x, abs_pressure,
  nonzero, emit, run,
}
use libevfilter.Filters.Travel.{travel}
use libevfilter.Filters.Alternates.{Alternates}
use libevfilter.Filters.SpeedMod
use libevfilter.Filters.Rel2Scroll
use libevfilter.Filters.Barrier
use libevfilter.Filters.PressureToKey
use libevfilter.Filters.KeyLock
use libevfilter.Filters.KeySubstitute
use libevfilter.Filters.Abs2Rel

abbrev pub event : ℕ → ℕ → ℤ → Event
event type code value = record { time = 0; type = type; code = code; value = value }

abbrev pub syn : Event
syn = event ev_syn 0 (pos 0)

abbrev moves : List Event
moves =
    event ev_rel rel_x (pos 7)
    ∷ event ev_rel rel_y (negsuc 4)
    ∷ syn
    ∷ event ev_rel rel_x (negsuc 2)
    ∷ []

abbrev slow_pointer : SpeedMod.RelSpeed
slow_pointer = record { x = pos 1; y = pos 0; xmod = pos 3; ymod = pos 2; eat_next_syn = pos 0 }

pointer_conserves_example :
    (s' : SpeedMod.RelSpeed) × (out : List Event) × (run (SpeedMod.modify emit) slow_pointer moves
      ≡ some (s', out))
    × SpeedMod.Conserve.IsSlow 2 1 s'
    × (travel 1 rel_x moves +ℤ slow_pointer.x ≡ travel 3 rel_x out +ℤ s'.x)
    × (travel 1 rel_y moves +ℤ slow_pointer.y ≡ travel 2 rel_y out +ℤ s'.y)
pointer_conserves_example =
    SpeedMod.Conserve.pointer_conserves 2 1 slow_pointer moves
      (record {
        xmod_eq = refl;
        ymod_eq = refl;
        xmod_small = omega arith;
        ymod_small = omega arith;
        x_small = omega arith;
        y_small = omega arith;
      })
      (omega arith, (omega arith, (omega arith, (omega arith, tt))))

abbrev scrolling : Rel2Scroll.Rel2Scroll
scrolling = record {
  x = pos 1;
  xmod = pos 3;
  y = pos 0;
  ymod = pos 2;
  trigger_btn = pos 274;
  trigger_on = true;
  eat_next_sync = false;
}

scroll_conserves_example :
    (s' : Rel2Scroll.Rel2Scroll) × (out : List Event) × (run
        (Rel2Scroll.modify emit)
        scrolling
        moves
      ≡ some (s', out))
    × Rel2Scroll.Conserve.IsScrolling 2 1 s'
    × (select Rel2Scroll.Conserve.is_move out ≡ [])
    × (travel 1 rel_x moves +ℤ scrolling.x ≡ travel 3 rel_hwheel out +ℤ s'.x)
    × (travel 1 rel_y moves +ℤ scrolling.y ≡ travel 2 rel_wheel out +ℤ s'.y)
scroll_conserves_example =
    Rel2Scroll.Conserve.scroll_conserves 2 1 scrolling moves
      (record {
        on = refl;
        xmod_eq = refl;
        ymod_eq = refl;
        xmod_small = omega arith;
        ymod_small = omega arith;
        x_small = omega arith;
        y_small = omega arith;
      })
      (
        record { bounded = omega arith; no_wheel = refl; no_trigger = refl },
        (
          record { bounded = omega arith; no_wheel = refl; no_trigger = refl },
          (
            record { bounded = omega arith; no_wheel = refl; no_trigger = refl },
            (record { bounded = omega arith; no_wheel = refl; no_trigger = refl }, tt),
          ),
        ),
      )

abbrev small_barrier : Barrier.Barrier
small_barrier = record {
  queue_index = 1;
  queue_size = 2;
  queue = event ev_key 30 (pos 1) ∷ syn ∷ [];
}

run-queue_run_example :
    (b' : Barrier.Barrier) × (run (Barrier.modify emit) small_barrier moves
      ≡ some (b', Barrier.Refine.queue_run 2 (Barrier.Refine.waiting small_barrier) moves))
    × Barrier.Refine.IsValid b'
run-queue_run_example =
    Barrier.Refine.run-queue_run small_barrier moves
      (record { in_size = omega arith; places = refl })

abbrev pen : PressureToKey.Pressure
pen = record { treshold = pos 10; key = pos 330; pressed = pos 0 }

abbrev pen_events : List Event
pen_events =
    event ev_abs abs_pressure (pos 20)
    ∷ event ev_abs abs_x (pos 5)
    ∷ event ev_abs abs_pressure (pos 3)
    ∷ syn
    ∷ []

pressure-Alternates_example :
    (p' : PressureToKey.Pressure) × (out : List Event) × (run
        (PressureToKey.modify emit)
        pen
        pen_events
      ≡ some (p', out))
    × Alternates false (select PressureToKey.Alternate.is_key out) (nonzero p'.pressed)
pressure-Alternates_example =
    PressureToKey.Alternate.pressure-Alternates pen pen_events
      (omega arith, (omega arith, (omega arith, (omega arith, tt))))

abbrev caps : KeyLock.KeyLock
caps = record { key = pos 58; state = pos 0; eat_next_sync = pos 0 }

abbrev presses : List Event
presses =
    event ev_key 58 (pos 1)
    ∷ event ev_key 58 (pos 0)
    ∷ syn
    ∷ event ev_key 30 (pos 1)
    ∷ event ev_key 58 (pos 1)
    ∷ []

lock-Alternates_example :
    (s' : KeyLock.KeyLock) × (out : List Event) × (run (KeyLock.modify emit) caps presses
      ≡ some (s', out))
    × (s'.key ≡ pos 58)
    × Alternates false (select (KeyLock.Toggle.is_switch (pos 58)) out) (nonzero s'.state)
lock-Alternates_example = KeyLock.Toggle.lock-Alternates caps presses

abbrev to_control : KeySubstitute.KeySubstitute
to_control = record { key_from = pos 58; key_to = pos 29 }

run_replaces_example :
    (out : List Event) × (run (KeySubstitute.modify emit) to_control presses
      ≡ some (to_control, out))
    × (select (KeySubstitute.Replaced.is_press_of (pos 58)) out ≡ [])
    × (out ≡ map (KeySubstitute.Replaced.replaced to_control) presses)
    × (KeySubstitute.Replaced.count (KeySubstitute.Replaced.is_press_of (pos (to_u16 (pos 29)))) out
        ≡ KeySubstitute.Replaced.count (KeySubstitute.Replaced.is_press_of (pos 58)) presses
          + KeySubstitute.Replaced.count
              (KeySubstitute.Replaced.is_press_of (pos (to_u16 (pos 29))))
              presses)
unfolding to_u16
run_replaces_example = KeySubstitute.Replaced.run_replaces to_control presses (ground arith)

abbrev pub touched : Abs2Rel.Abs2Rel
touched = record {
  xstate = pos 2;
  ystate = pos 1;
  relx = pos 4;
  rely = pos 0;
  last_absx = pos 40;
  last_absy = pos 9;
}

run-IsQuiet_example :
    (s' : Abs2Rel.Abs2Rel) × (out : List Event) × (run (Abs2Rel.modify emit) touched pen_events
      ≡ some (s', out))
    × Abs2Rel.Stale.IsValid s'
    × All Abs2Rel.Stale.IsQuiet out
run-IsQuiet_example =
    Abs2Rel.Stale.run-IsQuiet touched pen_events
      (record {
        x_low = ground arith;
        x_high = ground arith;
        y_low = ground arith;
        y_high = ground arith;
      })
      (omega arith, (omega arith, (omega arith, (omega arith, tt))))
