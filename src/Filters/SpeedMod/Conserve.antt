-- ===== src/Filters/SpeedMod/Conserve.antt =====
-- What src/filters/speed_mod_rel.c keeps of the movement of a pointer.
use libevfilter.Base.{
  ℕ, zero, suc, ◌≤◌, ◌<◌, ◌≡◌, refl, inl, inr, false, ◌&&◌, ◌||◌, Option, none, some, List, [], ◌∷◌,
  ◌++◌, arith, ◌==◌, Bool-cases, All,
}
use libevfilter.Base.Int.{
  InInt, ℤ, pos, negsuc, ◌+ℤ◌, ◌*ℤ◌, ltb_ℤ, abs, div_trunc, rem_trunc, div_trunc-rem_trunc, mul_one,
  parts_of_eq, to_int_fits, int_laws,
}
use libevfilter.Event.{Event, ev_syn, ev_rel, rel_x, rel_y, nonzero, emit, run, run-cons}
use libevfilter.Filters.Travel.{
  travel, travel-append, small, InInt-+ℤ, units, abs-rem_trunc, pos_ne_zero,
}
use libevfilter.Filters.SpeedMod.{store_x, store_y, RelSpeed, sgn, slow, send_slow, modify}

-- The written remainder is C's.
sgn-rem :
    (t : ℤ) (m : ℕ) → sgn t *ℤ rem_trunc (pos (abs t)) (pos (suc m)) ≡ rem_trunc t (pos (suc m))
unfolding sgn rem_trunc ◌*ℤ◌
sgn-rem (pos zero) m = ground arith
sgn-rem (pos (suc t)) m = ground arith
sgn-rem (negsuc t) m = ground arith

InInt-abs : (x v : ℤ) → abs x < small → abs v ≤ small → InInt (pos (abs (x +ℤ v)))
unfolding ◌+ℤ◌
InInt-abs (pos a) (pos b) h k = ground arith
InInt-abs (pos a) (negsuc b) h k = ground arith
InInt-abs (negsuc a) (pos b) h k = ground arith
InInt-abs (negsuc a) (negsuc b) h k = ground arith

slow_lem :
    (m : ℕ) (x v : ℤ)
    → m < small
    → abs x ≤ m
    → abs v ≤ small
    → (t : ℤ) × (q : Option ℤ) × (slow (pos (suc m)) x v ≡ some (t, q))
      × (abs t ≤ m)
      × (units (suc m) q +ℤ t ≡ x +ℤ v)
unfolding slow
slow_lem m x v hm hx hv =
    rw
      (
        to_int_fits (x +ℤ v) (InInt-+ℤ x v (omega arith) hv),
        to_int_fits (pos (abs (x +ℤ v))) (InInt-abs x v (omega arith) hv),
      )
      (elim (Bool-cases (ltb_ℤ (pos (abs (x +ℤ v))) (pos (suc m)))) [
        | inl less ↦ (x +ℤ v, none, rw less, ground arith, omega int_laws)
        | inr more ↦ (
          rem_trunc (x +ℤ v) (pos (suc m)),
          some (div_trunc (x +ℤ v) (pos (suc m))),
          rw (more, pos_ne_zero m, sgn-rem (x +ℤ v) m),
          abs-rem_trunc (x +ℤ v) m,
          div_trunc-rem_trunc (x +ℤ v) m,
        )
      ])

-- Both divisors are positive and at most 2 ^ 30, and each rest is below its divisor.
pub record IsSlow (mx my : ℕ) (s : RelSpeed) : Type 0 where
  pub xmod_eq : s.xmod ≡ pos (suc mx)
  pub ymod_eq : s.ymod ≡ pos (suc my)
  pub xmod_small : mx < small
  pub ymod_small : my < small
  pub x_small : abs s.x ≤ mx
  pub y_small : abs s.y ≤ my

-- One event: what goes in and what was kept is what goes out and what is kept.
abbrev Kept : ℕ → ℕ → RelSpeed → Event → RelSpeed × Event × List Event → Type 0
Kept mx my s ev (s', ev', out) =
    IsSlow mx my s'
    × (travel 1 rel_x (ev ∷ []) +ℤ s.x ≡ travel (suc mx) rel_x out +ℤ s'.x)
    × (travel 1 rel_y (ev ∷ []) +ℤ s.y ≡ travel (suc my) rel_y out +ℤ s'.y)

abbrev Steps : ℕ → ℕ → RelSpeed → Event → Type 0
Steps mx my s ev =
    (r : RelSpeed × Event × List Event) × (modify emit s ev [] ≡ some r) × Kept mx my s ev r

abbrev moved : RelSpeed → Event → Option ℤ → RelSpeed × Event × List Event
moved s ev none = (record s { eat_next_syn = pos 1 }, ev, [])
moved s ev (some v) = let ev' = record ev { value = v } in (s, ev', ev' ∷ [])

module _ (mx my : ℕ) (s : RelSpeed) (ev : Event) (i : IsSlow mx my s) (rel : ev.type ≡ ev_rel) where
  -- A movement along x, at the outcome of `slow`.
  move_x :
      (t : ℤ) (q : Option ℤ)
      → ev.code ≡ rel_x
      → slow s.xmod s.x ev.value ≡ some (t, q)
      → abs t ≤ mx
      → units (suc mx) q +ℤ t ≡ s.x +ℤ ev.value
      → Steps mx my s ev
  unfolding modify send_slow
  move_x t none c e small_t sum = (
    moved (store_x s t) ev none,
    ground arith,
    (ground arith, rw (rel, c, mul_one) (omega (int_laws, parts_of_eq _ _ sum)), rw (rel, c) refl),
  )
  move_x t (some q) c e small_t sum = (
    moved (store_x s t) ev (some q),
    ground arith,
    (ground arith, rw (rel, c, mul_one) (omega (int_laws, parts_of_eq _ _ sum)), rw (rel, c) refl),
  )

  -- A movement along y.
  move_y :
      (t : ℤ) (q : Option ℤ)
      → ev.code ≡ rel_y
      → slow s.ymod s.y ev.value ≡ some (t, q)
      → abs t ≤ my
      → units (suc my) q +ℤ t ≡ s.y +ℤ ev.value
      → Steps mx my s ev
  unfolding modify send_slow
  move_y t none c e small_t sum = (
    moved (store_y s t) ev none,
    ground arith,
    (ground arith, rw (rel, c) refl, rw (rel, c, mul_one) (omega (int_laws, parts_of_eq _ _ sum))),
  )
  move_y t (some q) c e small_t sum = (
    moved (store_y s t) ev (some q),
    ground arith,
    (ground arith, rw (rel, c) refl, rw (rel, c, mul_one) (omega (int_laws, parts_of_eq _ _ sum))),
  )

-- Any other event is sent as it is, or is a sync event that is swallowed.
module _ (mx my : ℕ) (s : RelSpeed) (ev : Event) (i : IsSlow mx my s) where
  no_move :
      (ev.type == ev_rel) && ((ev.code == rel_x) || (ev.code == rel_y)) ≡ false → Steps mx my s ev
  unfolding modify
  no_move h = elim (Bool-cases ((ev.type == ev_syn) && nonzero s.eat_next_syn)) [
    | inl eat ↦ (
      (record s { eat_next_syn = pos 0 }, ev, []),
      rw eat,
      (ground arith, ground arith, ground arith),
    )
    | inr keep ↦ ((s, ev, ev ∷ []), ground arith, (i, ground arith, ground arith))
  ]

  step : abs ev.value ≤ small → Steps mx my s ev
  step h = elim (Bool-cases (ev.type == ev_rel)) [
    | inr other ↦ no_move (ground arith)
    | inl rel ↦ elim (Bool-cases (ev.code == rel_x)) [
      | inl is_x ↦
          let (t, q, e, less, sum) = slow_lem mx s.x ev.value i.xmod_small i.x_small h in
          move_x mx my s ev i (ground arith) t q (ground arith) (rw i.xmod_eq e) less sum
      | inr not_x ↦ elim (Bool-cases (ev.code == rel_y)) [
        | inl is_y ↦
            let (t, q, e, less, sum) = slow_lem my s.y ev.value i.ymod_small i.y_small h in
            move_y mx my s ev i (ground arith) t q (ground arith) (rw i.ymod_eq e) less sum
        | inr not_y ↦ no_move (ground arith)
      ]
    ]
  ]

-- Over any stream of movements of at most 2 ^ 30, with positive divisors of at most 2 ^ 30 and
-- rests below them at the start, the filter does not fail, and on both axes no movement is lost:
-- what came in and the rest at the start make up what was sent, each step counted with its
-- divisor, and the rest at the end, which is below the divisor.
pub pointer_conserves :
    (mx my : ℕ) (s : RelSpeed) (evs : List Event)
    → IsSlow mx my s
    → All (λ ev. abs ev.value ≤ small) evs
    → (s' : RelSpeed) × (out : List Event) × (run (modify emit) s evs ≡ some (s', out))
      × IsSlow mx my s'
      × (travel 1 rel_x evs +ℤ s.x ≡ travel (suc mx) rel_x out +ℤ s'.x)
      × (travel 1 rel_y evs +ℤ s.y ≡ travel (suc my) rel_y out +ℤ s'.y)
unfolding run
pointer_conserves mx my s [] i h = (s, [], refl, i, refl, refl)
pointer_conserves mx my s (ev ∷ evs) i h =
    let ((s₁, ev', out₁), e₁, (i₁, x₁, y₁)) = step mx my s ev i h.0 in
    let (s₂, out₂, e₂, i₂, x₂, y₂) = pointer_conserves mx my s₁ evs i₁ h.1 in
    (
      s₂,
      out₁ ++ out₂,
      run-cons (modify emit) ev evs e₁ e₂,
      i₂,
      rw (travel-append 1 rel_x (ev ∷ []) evs, travel-append (suc mx) rel_x out₁ out₂)
          (omega (int_laws, parts_of_eq _ _ x₁, parts_of_eq _ _ x₂)),
      rw (travel-append 1 rel_y (ev ∷ []) evs, travel-append (suc my) rel_y out₁ out₂)
          (omega (int_laws, parts_of_eq _ _ y₁, parts_of_eq _ _ y₂)),
    )
