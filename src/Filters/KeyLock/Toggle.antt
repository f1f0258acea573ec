-- ===== src/Filters/KeyLock/Toggle.antt =====
-- What src/filters/key_lock.c makes of the presses of its key.
use libevfilter.Base.{
  ◌≡◌, refl, subst, ◌∙◌, inl, inr, Bool, ◌&&◌, ◌||◌, some, List, [], ◌∷◌, ◌++◌, arith, ◌==◌, select,
  Bool-cases, select-append,
}
use libevfilter.Base.Int.{ℤ, pos, ◌==ℤ◌, ==ℤ→eq}
use libevfilter.Event.{Event, ev_key, nonzero, Modify, emit, run, run-cons}
use libevfilter.Filters.KeyLock.{KeyLock, lock, modify, is_sync}
use libevfilter.Filters.Alternates.{Alternates, Alternates-append}

-- A press or a release of the key; other values are repeats.
abbrev pub is_switch : ℤ → Event → Bool
is_switch key ev =
    (ev.type == ev_key) && (pos ev.code ==ℤ key) && ((ev.value ==ℤ pos 0) || (ev.value ==ℤ pos 1))

abbrev Steps : Modify KeyLock (List Event) → KeyLock → Event → Type 0
Steps m s ev =
    (r : KeyLock × Event × List Event) × (m s ev [] ≡ some r)
    × (r.0.key ≡ s.key)
    × Alternates (nonzero s.state) (select (is_switch s.key) r.2) (nonzero r.0.state)

lock_step : (s : KeyLock) (ev : Event) → Steps (lock emit) s ev
unfolding lock
lock_step s ev = elim (Bool-cases ((ev.type == ev_key) && (pos ev.code ==ℤ s.key))) [
  | inr other ↦ ((s, ev, ev ∷ []), rw other, refl, ground arith)
  | inl ours ↦ elim (Bool-cases (ev.value ==ℤ pos 0)) [
    | inl up ↦ ((record s { eat_next_sync = pos 1 }, ev, []), rw (ours, up), refl, refl)
    | inr not_up ↦ elim (Bool-cases (ev.value ==ℤ pos 1)) [
      | inr again ↦ ((s, ev, ev ∷ []), rw (ours, not_up, again), refl, ground arith)
      | inl down ↦ elim (Bool-cases (s.state ==ℤ pos 0)) [
        | inl unlocked ↦ (
          (record s { state = pos 1 }, ev, ev ∷ []),
          rw (ours, not_up, down, unlocked),
          refl,
          ground (arith, ==ℤ→eq ev.value (pos 1) down),
        )
        | inr locked ↦
            let ev' = record ev { value = pos 0 } in
            (
              (record s { state = pos 0 }, ev', ev' ∷ []),
              rw (ours, not_up, down, locked),
              refl,
              ground arith,
            )
      ]
    ]
  ]
]

step : (s : KeyLock) (ev : Event) → Steps (modify emit) s ev
unfolding modify
step s ev = elim (Bool-cases (nonzero s.eat_next_sync)) [
  | inr keep ↦ rw keep (lock_step s ev)
  | inl eat ↦ elim (Bool-cases (is_sync ev)) [
    | inl sync ↦ ((record s { eat_next_sync = pos 0 }, ev, []), rw (eat, sync), refl, refl)
    | inr other ↦ rw (eat, other) (lock_step (record s { eat_next_sync = pos 0 }) ev)
  ]
]

-- Over any stream the filter does not fail, and what it sends of its key's presses and releases
-- alternates between press (1) and release (0), from its state to the one in which it is left; its
-- key stays the same.
pub lock-Alternates :
    (s : KeyLock) (evs : List Event)
    → (s' : KeyLock) × (out : List Event) × (run (modify emit) s evs ≡ some (s', out))
      × (s'.key ≡ s.key)
      × Alternates (nonzero s.state) (select (is_switch s.key) out) (nonzero s'.state)
unfolding run
lock-Alternates s [] = (s, [], refl, refl, refl)
lock-Alternates s (ev ∷ evs) =
    let ((s₁, ev', out₁), e₁, k₁, a₁) = step s ev in
    let (s₂, out₂, e₂, k₂, a₂) = lock-Alternates s₁ evs in
    (
      s₂,
      out₁ ++ out₂,
      run-cons (modify emit) ev evs e₁ e₂,
      k₂ ∙ k₁,
      rw (select-append (is_switch s.key) out₁ out₂) (
          Alternates-append _ _ _ _ _ a₁ (
            subst
              (λ k. Alternates (nonzero s₁.state) (select (is_switch k) out₂) (nonzero s₂.state)) k₁
              a₂)),
    )
