-- ===== src/Filters/Rel2Scroll/Conserve.antt =====
-- What src/filters/rel2scroll.c keeps of a movement while its button is held.
use libevfilter.Base.{
  ℕ, suc, ◌/◌, ◌≤◌, ◌<◌, ◌≡◌, refl, sym, subst, inl, inr, Bool, true, false, ◌&&◌, ◌||◌, Option,
  none, some, List, [], ◌∷◌, ◌++◌, arith, ◌==◌, select, Bool-cases, select-append, All,
}
use libevfilter.Base.Int.{
  ℤ, pos, negsuc, ◌+ℤ◌, ◌==ℤ◌, abs, div_trunc, rem_trunc, div_trunc-rem_trunc, mul_one, parts_of_eq,
  to_int_fits, int_laws,
}
use libevfilter.Event.{
  Event, ev_syn, ev_key, ev_rel, rel_x, rel_y, rel_hwheel, rel_wheel, nonzero, Modify, emit, run,
  run-cons,
}
use libevfilter.Filters.Travel.{
  travel, travel-append, small, InInt-+ℤ, units, abs-rem_trunc, pos_ne_zero,
}
use libevfilter.Filters.Rel2Scroll.{Rel2Scroll, turn, send_turn, scroll, modify, store_x, store_y}

le_of_div_zero : (t m : ℕ) → t / suc m ≡ 0 → t ≤ m
le_of_div_zero t m h = grind arith

-- A quotient of 0 leaves a rest below the divisor.
small_of_no_turn : (t : ℤ) (m : ℕ) → nonzero (div_trunc t (pos (suc m))) ≡ false → abs t ≤ m
unfolding div_trunc
small_of_no_turn (pos t) m h = le_of_div_zero t m (ground arith)
small_of_no_turn (negsuc t) m h = le_of_div_zero (suc t) m (ground arith)

turn_lem :
    (m : ℕ) (x v : ℤ)
    → m < small
    → abs x ≤ m
    → abs v ≤ small
    → (t : ℤ) × (q : Option ℤ) × (turn (pos (suc m)) x v ≡ some (t, q))
      × (abs t ≤ m)
      × (units (suc m) q +ℤ t ≡ x +ℤ v)
unfolding turn
turn_lem m x v hm hx hv =
    rw (to_int_fits (x +ℤ v) (InInt-+ℤ x v (omega arith) hv), pos_ne_zero m)
      (elim (Bool-cases (nonzero (div_trunc (x +ℤ v) (pos (suc m))))) [
        | inr less ↦ (x +ℤ v, none, rw less, small_of_no_turn _ m less, omega int_laws)
        | inl more ↦ (
          rem_trunc (x +ℤ v) (pos (suc m)),
          some (div_trunc (x +ℤ v) (pos (suc m))),
          rw more,
          abs-rem_trunc (x +ℤ v) m,
          div_trunc-rem_trunc (x +ℤ v) m,
        )
      ])

-- The button is held, both divisors are positive and at most 2 ^ 30, and each rest is below its
-- divisor.
pub record IsScrolling (mx my : ℕ) (s : Rel2Scroll) : Type 0 where
  pub on : s.trigger_on ≡ true
  pub xmod_eq : s.xmod ≡ pos (suc mx)
  pub ymod_eq : s.ymod ≡ pos (suc my)
  pub xmod_small : mx < small
  pub ymod_small : my < small
  pub x_small : abs s.x ≤ mx
  pub y_small : abs s.y ≤ my

-- A pointer: movements of at most 2 ^ 30, no wheels, and no event of the button.
pub record IsPointer (trigger : ℤ) (ev : Event) : Type 0 where
  pub bounded : abs ev.value ≤ small
  pub no_wheel : (ev.type == ev_rel) && ((ev.code == rel_hwheel) || (ev.code == rel_wheel)) ≡ false
  pub no_trigger : (ev.type == ev_key) && (pos ev.code ==ℤ trigger) ≡ false

abbrev pub is_move : Event → Bool
is_move ev = (ev.type == ev_rel) && ((ev.code == rel_x) || (ev.code == rel_y))

-- One event: what goes in and what was kept is what goes out and what is kept, and the pointer
-- does not move.
abbrev Kept : ℕ → ℕ → Rel2Scroll → Event → Rel2Scroll × Event × List Event → Type 0
Kept mx my s ev (s', ev', out) =
    IsScrolling mx my s'
    × (s'.trigger_btn ≡ s.trigger_btn)
    × (select is_move out ≡ [])
    × (travel 1 rel_x (ev ∷ []) +ℤ s.x ≡ travel (suc mx) rel_hwheel out +ℤ s'.x)
    × (travel 1 rel_y (ev ∷ []) +ℤ s.y ≡ travel (suc my) rel_wheel out +ℤ s'.y)

abbrev Steps : Modify Rel2Scroll (List Event) → ℕ → ℕ → Rel2Scroll → Event → Type 0
Steps m mx my s ev =
    (r : Rel2Scroll × Event × List Event) × (m s ev [] ≡ some r) × Kept mx my s ev r

abbrev turned : Rel2Scroll → ℕ → Event → Option ℤ → Rel2Scroll × Event × List Event
turned s wheel ev none = (record s { eat_next_sync = true }, ev, [])
turned s wheel ev (some v) = let ev' = record ev { code = wheel; value = v } in (s, ev', ev' ∷ [])

module _ (mx my : ℕ) (s : Rel2Scroll) (ev : Event) (i : IsScrolling mx my s)
    (rel : ev.type ≡ ev_rel) where
  -- A movement along x, at the outcome of `turn`.
  turn_x :
      (t : ℤ) (q : Option ℤ)
      → ev.code ≡ rel_x
      → turn s.xmod s.x ev.value ≡ some (t, q)
      → abs t ≤ mx
      → units (suc mx) q +ℤ t ≡ s.x +ℤ ev.value
      → Steps (scroll emit) mx my s ev
  unfolding scroll send_turn
  turn_x t none c e small_t sum = (
    turned (store_x s t) rel_hwheel ev none,
    ground arith,
    (
      ground arith,
      refl,
      refl,
      rw (rel, c, mul_one) (omega (int_laws, parts_of_eq _ _ sum)),
      rw (rel, c) refl,
    ),
  )
  turn_x t (some q) c e small_t sum = (
    turned (store_x s t) rel_hwheel ev (some q),
    ground arith,
    (
      ground arith,
      refl,
      rw rel refl,
      rw (rel, c, mul_one) (omega (int_laws, parts_of_eq _ _ sum)),
      rw (rel, c) refl,
    ),
  )

  -- A movement along y.
  turn_y :
      (t : ℤ) (q : Option ℤ)
      → ev.code ≡ rel_y
      → turn s.ymod s.y ev.value ≡ some (t, q)
      → abs t ≤ my
      → units (suc my) q +ℤ t ≡ s.y +ℤ ev.value
      → Steps (scroll emit) mx my s ev
  unfolding scroll send_turn
  turn_y t none c e small_t sum = (
    turned (store_y s t) rel_wheel ev none,
    ground arith,
    (
      ground arith,
      refl,
      refl,
      rw (rel, c) refl,
      rw (rel, c, mul_one) (omega (int_laws, parts_of_eq _ _ sum)),
    ),
  )
  turn_y t (some q) c e small_t sum = (
    turned (store_y s t) rel_wheel ev (some q),
    ground arith,
    (
      ground arith,
      refl,
      rw rel refl,
      rw (rel, c) refl,
      rw (rel, c, mul_one) (omega (int_laws, parts_of_eq _ _ sum)),
    ),
  )

module _ (mx my : ℕ) (s : Rel2Scroll) (ev : Event) (i : IsScrolling mx my s)
    (p : IsPointer s.trigger_btn ev) where
  -- Any other event is sent as it is.
  no_turn : is_move ev ≡ false → Steps (scroll emit) mx my s ev
  unfolding scroll
  no_turn h = ((s, ev, ev ∷ []), ground arith, (i, refl, ground arith, ground arith, ground arith))

  scroll_step : Steps (scroll emit) mx my s ev
  scroll_step = elim (Bool-cases (ev.type == ev_rel)) [
    | inr other ↦ no_turn (ground arith)
    | inl rel ↦ elim (Bool-cases (ev.code == rel_x)) [
      | inl is_x ↦
          let (t, q, e, less, sum) = turn_lem mx s.x ev.value i.xmod_small i.x_small p.bounded in
          turn_x mx my s ev i (ground arith) t q (ground arith) (rw i.xmod_eq e) less sum
      | inr not_x ↦ elim (Bool-cases (ev.code == rel_y)) [
        | inl is_y ↦
            let (t, q, e, less, sum) = turn_lem my s.y ev.value i.ymod_small i.y_small p.bounded in
            turn_y mx my s ev i (ground arith) t q (ground arith) (rw i.ymod_eq e) less sum
        | inr not_y ↦ no_turn (ground arith)
      ]
    ]
  ]

step :
    (mx my : ℕ) (s : Rel2Scroll) (ev : Event)
    → IsScrolling mx my s
    → IsPointer s.trigger_btn ev
    → Steps (modify emit) mx my s ev
unfolding modify
step mx my s ev i p = elim (Bool-cases ((ev.type == ev_syn) && s.eat_next_sync)) [
  | inl eat ↦ (
    (record s { eat_next_sync = false }, ev, []),
    rw eat,
    (ground arith, refl, refl, ground arith, ground arith),
  )
  | inr keep ↦ rw keep (scroll_step mx my (record s { eat_next_sync = false }) ev (ground arith) p)
]

-- While the button is held, over any stream of movements of at most 2 ^ 30 that holds no event of
-- the button and none of a wheel, with positive divisors of at most 2 ^ 30 and rests below them at
-- the start, the filter does not fail, the pointer does not move, and no movement is lost: what
-- came in along an axis and the rest at the start make up the turns that were sent to that axis's
-- wheel, each counted with its divisor, and the rest at the end, which is below the divisor.
pub scroll_conserves :
    (mx my : ℕ) (s : Rel2Scroll) (evs : List Event)
    → IsScrolling mx my s
    → All (IsPointer s.trigger_btn) evs
    → (s' : Rel2Scroll) × (out : List Event) × (run (modify emit) s evs ≡ some (s', out))
      × IsScrolling mx my s'
      × (select is_move out ≡ [])
      × (travel 1 rel_x evs +ℤ s.x ≡ travel (suc mx) rel_hwheel out +ℤ s'.x)
      × (travel 1 rel_y evs +ℤ s.y ≡ travel (suc my) rel_wheel out +ℤ s'.y)
unfolding run
scroll_conserves mx my s [] i h = (s, [], refl, i, refl, refl, refl)
scroll_conserves mx my s (ev ∷ evs) i h =
    let ((s₁, ev', out₁), e₁, (i₁, b₁, m₁, x₁, y₁)) = step mx my s ev i h.0 in
    let same = subst (λ b. All (IsPointer b) evs) (sym b₁) h.1 in
    let (s₂, out₂, e₂, i₂, m₂, x₂, y₂) = scroll_conserves mx my s₁ evs i₁ same in
    (
      s₂,
      out₁ ++ out₂,
      run-cons (modify emit) ev evs e₁ e₂,
      i₂,
      rw (select-append is_move out₁ out₂, m₁) m₂,
      rw (travel-append 1 rel_x (ev ∷ []) evs, travel-append (suc mx) rel_hwheel out₁ out₂)
          (omega (int_laws, parts_of_eq _ _ x₁, parts_of_eq _ _ x₂)),
      rw (travel-append 1 rel_y (ev ∷ []) evs, travel-append (suc my) rel_wheel out₁ out₂)
          (omega (int_laws, parts_of_eq _ _ y₁, parts_of_eq _ _ y₂)),
    )
