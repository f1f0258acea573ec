-- ===== src/Tests/Averages.antt =====
-- Smoothed coordinates for src/filters/weighted_average_abs.c and src/filters/kalman.c.
use libevfilter.Base.{◌≡◌, refl, arith, true, some, List, [], ◌∷◌}
use libevfilter.Base.Int.{ℤ, pos, negsuc, div_trunc, ◌+ℤ◌, ◌-ℤ◌, ◌*ℤ◌}
use libevfilter.Event.{Event, emit, run}
use libevfilter.Filters.Kalman
use libevfilter.Filters.Kalman.Unread.{junk_unread}
use libevfilter.Filters.WeightedAverage.{Floats, Axis, Average, change}
use libevfilter.Filters.WeightedAverage.Ring.{IsRing, IsAverage, change-IsAverage}

-- Arithmetic that cuts off the fraction.
abbrev whole : Floats ℤ
whole = record { zero_float = pos 0; share = λ n v. div_trunc v (pos n); int_of = λ f. f }

abbrev memory : List ℤ
memory = pos 11 ∷ negsuc 4 ∷ pos 7 ∷ pos 900 ∷ []

abbrev ring : Axis
ring = record { head = pos 3; tail = pos 1; coord = memory }

ring-IsRing : IsRing 4 ring
ring-IsRing = record {
  h = 3;
  t = 1;
  head_is = refl;
  tail_is = refl;
  head_low = omega arith;
  tail_low = omega arith;
  full = refl;
}

abbrev averages : Average
averages = record { n = 4; x = ring; y = ring; p = ring }

abbrev touch : Event
touch = record { time = 1; type = 3; code = 0; value = pos 250 }

change-IsAverage_example :
    (s' : Average) × (ev' : Event) × (change whole averages touch ≡ some (s', ev')) × IsAverage s'
change-IsAverage_example = change-IsAverage whole averages touch (record {
  n_low = omega arith;
  x_ring = ring-IsRing;
  y_ring = ring-IsRing;
  p_ring = ring-IsRing;
})

abbrev exact : Kalman.Floats ℤ
exact = record {
  zero_float = pos 0;
  of_int = λ n. n;
  int_of = λ f. f;
  plus = λ a b. a +ℤ b;
  minus = λ a b. a -ℤ b;
  times = λ a b. a *ℤ b;
  tenth = λ a. div_trunc a (pos 10);
  less_tenth_of = λ a b. a -ℤ div_trunc b (pos 10);
}

abbrev left_there : ℤ → Kalman.Kalman ℤ
left_there v =
    let t : Kalman.Track ℤ = record { at = v; velocity = v; reset = v } in
    record { kx = v; ky = v; x = t; y = t }

junk_unread_example :
    (s r s' r' : Kalman.Kalman ℤ) × (out : List Event) × (Kalman.alloc exact true
        (left_there (pos 5))
        (pos 1)
        (pos 2)
      ≡ some s)
    × (Kalman.alloc exact true (left_there (negsuc 7)) (pos 1) (pos 2) ≡ some r)
    × (run (Kalman.modify exact emit) s (touch ∷ touch ∷ []) ≡ some (s', out))
    × (run (Kalman.modify exact emit) r (touch ∷ touch ∷ []) ≡ some (r', out))
junk_unread_example =
    junk_unread exact (pos 1) (pos 2) (left_there (pos 5)) (left_there (negsuc 7))
      (touch ∷ touch ∷ [])
