-- ===== src/Filters/WeightedAverage/Ring.antt =====
-- The rings of src/filters/weighted_average_abs.c stay within their places.
use libevfilter.Base.{
  ℕ, zero, suc, ◌+◌, ◌-◌, ◌<◌, ◌≤◌, ◌≡◌, ◌⊎◌, inl, inr, refl, ap, ◌∙◌, arith, true, some, ltb, ◌==◌,
  if◌then◌else◌, length, set, length-set, Bool-cases,
}
use libevfilter.Base.Int.{ℤ, pos, ◌-ℤ◌, ◌==ℤ◌, ltb_ℤ, to_int, abs}
use libevfilter.Event.{Event, ev_abs, abs_x, abs_y, abs_pressure}
use libevfilter.Filters.WeightedAverage.{
  Floats, Axis, Average, next_place, coord_at, go_on, calculate_from, calculate, drop_tail, store,
  add, sample, emptied, change,
}
use libevfilter.Filters.WeightedAverage.Junk.{next_place-up, next_place-wrap, get_elem?-lt}

-- A ring of `n` places.
pub record IsRing (n : ℕ) (a : Axis) : Type 0 where
  pub h : ℕ
  pub t : ℕ
  pub head_is : a.head ≡ pos h
  pub tail_is : a.tail ≡ pos t
  pub head_low : h < n
  pub tail_low : t < n
  pub full : length a.coord ≡ n

-- The next place, with its distance to the tail one less.
next_place_lem :
    (n i t d : ℕ)
    → n < 1000
    → i < n
    → (i + suc d ≡ t) ⊎ (i + suc d ≡ t + n)
    → (i' : ℕ) × (next_place n (pos i) ≡ some (pos i'))
      × (i' < n)
      × ((t < n) → (i' + d ≡ t) ⊎ (i' + d ≡ t + n))
next_place_lem n i t d small low far = elim (Bool-cases (ltb (i + 1) n)) [
  | inl up ↦ (
    i + 1,
    next_place-up n i small (ground (arith, up)),
    ground (arith, up),
    λ k. ground (arith, far),
  )
  | inr wrap ↦ (
    0,
    next_place-wrap n i small (ground (arith, wrap)),
    omega (arith, low),
    λ k. ground (arith, far, wrap),
  )
]

module _ {F : Type 0} (fl : Floats F) (n : ℕ) (small : n < 1000) (a : Axis) (t : ℕ)
    (tail_is : a.tail ≡ pos t) (tail_low : t < n) (full : length a.coord ≡ n) where
  calculate_from-ends :
      (d fuel k i : ℕ) (r : F)
      → i < n
      → d ≤ fuel
      → (i + d ≡ t) ⊎ (i + d ≡ t + n)
      → (r' : F) × (calculate_from fl fuel n a k (pos i) r ≡ some r')
  unfolding calculate_from coord_at
  calculate_from-ends d zero k i r low e far =
      let there : (pos i ==ℤ a.tail) ≡ true = rw tail_is (ground arith) in (r, rw there refl)
  calculate_from-ends zero (suc fuel) k i r low e far =
      let there : (pos i ==ℤ a.tail) ≡ true = rw tail_is (ground arith) in (r, rw there refl)
  calculate_from-ends (suc d) (suc fuel) k i r low e far = elim (Bool-cases (pos i ==ℤ a.tail)) [
    | inl there ↦ (r, rw there refl)
    | inr away ↦
        let (v, at) = get_elem?-lt a.coord i (omega (arith, full)) in
        let (i', next, low', near) = next_place_lem n i t d small low far in
        let (r', run) =
          calculate_from-ends d fuel (suc k) i' (fl.share k v) low' (omega arith) (near tail_low) in
        (r', rw (away, at, next) run)
  ]

calculate_ends :
    {F : Type 0} (fl : Floats F) (n : ℕ) (a : Axis)
    → n < 1000
    → IsRing n a
    → (v : ℤ) × (calculate fl n a ≡ some v)
unfolding calculate
calculate_ends fl n a small r =
    let d = if ltb r.t r.h then r.t + n - r.h else r.t - r.h in
    let from =
      calculate_from-ends fl n small a r.t r.tail_is r.tail_low r.full d n 1 r.h fl.zero_float
        r.head_low (ground (arith, r.head_low, r.tail_low))
        (ground (arith, r.head_low, r.tail_low)) in
    let (v, run) = from in
    (
      fl.int_of v,
      ap (λ z. go_on (calculate_from fl n n a 1 z fl.zero_float) (λ w. some (fl.int_of w)))
            r.head_is
          ∙ ap (λ m. go_on m (λ w. some (fl.int_of w))) run,
    )

next_place_low :
    (n i : ℕ) → n < 1000 → i < n → (i' : ℕ) × (next_place n (pos i) ≡ some (pos i')) × (i' < n)
next_place_low n i small low = elim (Bool-cases (ltb (i + 1) n)) [
  | inl up ↦ (i + 1, next_place-up n i small (ground (arith, up)), ground (arith, up))
  | inr wrap ↦ (0, next_place-wrap n i small (ground (arith, wrap)), omega (arith, low))
]

drop_tail-IsRing :
    (n : ℕ) (a : Axis) → n < 1000 → IsRing n a → (b : Axis) × (drop_tail n a ≡ some b) × IsRing n b
unfolding drop_tail
drop_tail-IsRing n a small r =
    elim (Bool-cases (ltb_ℤ (to_int (pos (abs (to_int (a.head -ℤ a.tail))))) (pos n -ℤ pos 1))) [
      | inl room ↦ (a, rw room refl, r)
      | inr crowded ↦
          let (t, next, low) = next_place_low n r.t small r.tail_low in
          (
            record a { tail = pos t },
            rw (crowded, r.tail_is, next) refl,
            record {
              h = r.h;
              t = t;
              head_is = r.head_is;
              tail_is = refl;
              head_low = r.head_low;
              tail_low = low;
              full = r.full;
            },
          )
    ]

add-IsRing :
    (n : ℕ) (a : Axis) (val : ℤ)
    → n < 1000
    → IsRing n a
    → (b : Axis) × (add n a val ≡ some b) × IsRing n b
unfolding add store
add-IsRing n a val small r =
    let (b, dropped, s) = drop_tail-IsRing n a small r in
    let (h, next, low) = next_place_low n s.h small s.head_low in
    let inside : ltb h (length b.coord) ≡ true = ground (arith, low, s.full) in
    (
      record b { head = pos h; coord = set b.coord h val },
      rw (dropped, s.head_is, next, inside) refl,
      record {
        h = h;
        t = s.t;
        head_is = refl;
        tail_is = s.tail_is;
        head_low = low;
        tail_low = s.tail_low;
        full = length-set b.coord h val ∙ s.full;
      },
    )

sample-IsRing :
    {F : Type 0} (fl : Floats F) (n : ℕ) (a : Axis) (val : ℤ)
    → n < 1000
    → IsRing n a
    → (b : Axis) × (v : ℤ) × (sample fl n a val ≡ some (b, v)) × IsRing n b
unfolding sample
sample-IsRing fl n a val small r =
    let (b, added, s) = add-IsRing n a val small r in
    let (v, ends) = calculate_ends fl n b small s in (b, v, rw (added, ends) refl, s)

-- All three rings have the places that the filter counts with, and there is one at least.
pub record IsAverage (s : Average) : Type 0 where
  pub n_low : s.n ≤ 10
  pub x_ring : IsRing s.n s.x
  pub y_ring : IsRing s.n s.y
  pub p_ring : IsRing s.n s.p

emptied-IsRing : (n : ℕ) (a : Axis) → IsRing n a → IsRing n (emptied a)
emptied-IsRing n a r = record {
  h = 0;
  t = 0;
  head_is = refl;
  tail_is = refl;
  head_low = omega (arith, r.head_low);
  tail_low = omega (arith, r.head_low);
  full = r.full;
}

-- From rings with their heads and tails inside, every event is taken: the loop of `calculate` ends
-- within a round for each place, nothing outside of the rings is read or written, and they are
-- left as such rings.
pub change-IsAverage :
    {F : Type 0} (fl : Floats F) (s : Average) (ev : Event)
    → IsAverage s
    → (s' : Average) × (ev' : Event) × (change fl s ev ≡ some (s', ev')) × IsAverage s'
unfolding change
change-IsAverage fl s ev v = elim (Bool-cases (ev.type == ev_abs)) [
  | inr other ↦ (s, ev, rw other refl, v)
  | inl is_abs ↦ elim (Bool-cases (ev.code == abs_x)) [
    | inl at_x ↦
        let (b, w, run, r) = sample-IsRing fl s.n s.x ev.value (omega (arith, v.n_low)) v.x_ring in
        (
          record s { x = b },
          record ev { value = w },
          rw (is_abs, at_x, run) refl,
          record { n_low = v.n_low; x_ring = r; y_ring = v.y_ring; p_ring = v.p_ring },
        )
    | inr not_x ↦ elim (Bool-cases (ev.code == abs_y)) [
      | inl at_y ↦
          let (b, w, run, r) =
            sample-IsRing fl s.n s.y ev.value (omega (arith, v.n_low)) v.y_ring in
          (
            record s { y = b },
            record ev { value = w },
            rw (is_abs, not_x, at_y, run) refl,
            record { n_low = v.n_low; y_ring = r; x_ring = v.x_ring; p_ring = v.p_ring },
          )
      | inr not_y ↦ elim (Bool-cases (ev.code == abs_pressure)) [
        | inr not_p ↦ (s, ev, rw (is_abs, not_x, not_y, not_p) refl, v)
        | inl at_p ↦ elim (Bool-cases (ev.value ==ℤ pos 0)) [
          | inl up ↦ (
            record s { x = emptied s.x; y = emptied s.y; p = emptied s.p },
            ev,
            rw (is_abs, not_x, not_y, at_p, up) refl,
            record {
              n_low = v.n_low;
              x_ring = emptied-IsRing s.n s.x v.x_ring;
              y_ring = emptied-IsRing s.n s.y v.y_ring;
              p_ring = emptied-IsRing s.n s.p v.p_ring;
            },
          )
          | inr down ↦
              let (b, w, run, r) =
                sample-IsRing fl s.n s.p ev.value (omega (arith, v.n_low)) v.p_ring in
              (
                record s { p = b },
                record ev { value = w },
                rw (is_abs, not_x, not_y, at_p, down, run) refl,
                record { n_low = v.n_low; p_ring = r; x_ring = v.x_ring; y_ring = v.y_ring },
              )
        ]
      ]
    ]
  ]
]
