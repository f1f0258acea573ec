-- ===== src/Filters/Kalman/Unread.antt =====
-- What src/filters/kalman.c has in its memory at first is not read.
use libevfilter.Base.{
  ◌≡◌, refl, sym, subst, ap, ◌∙◌, arith, true, false, some, List, [], ◌∷◌, ◌==◌, Bool-cases, inl,
  inr,
}
use libevfilter.Base.Int.{ℤ, pos, ◌==ℤ◌}
use libevfilter.Event.{Event, ev_abs, abs_x, abs_y, abs_pressure, nonzero, emit, run, run-cons}
use libevfilter.Filters.Kalman.{Floats, Track, Kalman, follow, forget, change, modify, alloc}

-- Two axes that are alike but for an estimate that is reset before it is read.
record Alike {F : Type 0} (t u : Track F) : Type 0 where
  same_velocity : t.velocity ≡ u.velocity
  same_reset : t.reset ≡ u.reset
  same_at : nonzero t.reset ≡ false → t.at ≡ u.at

Alike-refl : {F : Type 0} (t : Track F) → Alike t t
Alike-refl t = record { same_velocity = refl; same_reset = refl; same_at = λ h. refl }

-- Without a reset they are equal.
Alike-eq : {F : Type 0} (t u : Track F) → Alike t u → nonzero t.reset ≡ false → t ≡ u
Alike-eq t u a old =
    ap (λ z. record t { at = z }) (a.same_at old)
    ∙ ap (λ z. record { at = u.at; velocity = z; reset = t.reset }) a.same_velocity
    ∙ ap (λ z. record { at = u.at; velocity = u.velocity; reset = z }) a.same_reset

abbrev AlikeOut : {F : Type 0} → Track F × ℤ → Track F × ℤ → Type 0
AlikeOut p q = Alike p.0 q.0 × (p.1 ≡ q.1)

-- Two filters with the same gains and such axes.
record AlikeFilter {F : Type 0} (s r : Kalman F) : Type 0 where
  same_kx : s.kx ≡ r.kx
  same_ky : s.ky ≡ r.ky
  alike_x : Alike s.x r.x
  alike_y : Alike s.y r.y

module _ {F : Type 0} (fl : Floats F) where
  follow-fresh :
      (k : F) (t : Track F) (value : ℤ)
      → nonzero t.reset ≡ true
      → follow fl k t value ≡ (record t { at = fl.of_int value; reset = pos 0 }, value)
  unfolding follow
  follow-fresh k t value h = rw h refl

  follow-Alike :
      (k k' : F) (t u : Track F) (value : ℤ)
      → k ≡ k'
      → Alike t u
      → AlikeOut (follow fl k t value) (follow fl k' u value)
  follow-Alike k k' t u value e a = elim (Bool-cases (nonzero t.reset)) [
    | inl fresh ↦
        subst (λ p. AlikeOut p (follow fl k' u value)) (sym (follow-fresh k t value fresh))
          (subst (λ q. AlikeOut (record t { at = fl.of_int value; reset = pos 0 }, value) q)
            (sym (follow-fresh k' u value (ap nonzero (sym a.same_reset) ∙ fresh)))
            (
              record { same_velocity = a.same_velocity; same_reset = refl; same_at = λ h. refl },
              refl,
            ))
    | inr old ↦
        subst (λ q. AlikeOut (follow fl k t value) (follow fl q u value)) e
          (subst (λ q. AlikeOut (follow fl k t value) (follow fl k q value)) (Alike-eq t u a old)
            (Alike-refl (follow fl k t value).0, refl))
  ]

  forget-Alike : (t u : Track F) → Alike (forget fl t) (forget fl u)
  forget-Alike t u = record {
    same_velocity = refl;
    same_reset = refl;
    same_at = λ h. ground (arith, h);
  }

  change-Alike :
      (s r : Kalman F) (ev : Event)
      → AlikeFilter s r
      → AlikeFilter (change fl s ev).0 (change fl r ev).0
        × ((change fl s ev).1 ≡ (change fl r ev).1)
  unfolding change
  change-Alike s r ev a =
      let (on_x, same_x) = follow-Alike s.kx r.kx s.x r.x ev.value a.same_kx a.alike_x in
      let (on_y, same_y) = follow-Alike s.ky r.ky s.y r.y ev.value a.same_ky a.alike_y in
      elim (Bool-cases (ev.type == ev_abs)) [
        | inr other ↦ rw other (a, refl)
        | inl is_abs ↦ elim (Bool-cases (ev.code == abs_x)) [
          | inl at_x ↦
              rw (is_abs, at_x)
                (
                  record {
                    same_kx = a.same_kx;
                    same_ky = a.same_ky;
                    alike_x = on_x;
                    alike_y = a.alike_y;
                  },
                  ap (λ v. record ev { value = v }) same_x,
                )
          | inr not_x ↦ elim (Bool-cases (ev.code == abs_y)) [
            | inl at_y ↦
                rw (is_abs, not_x, at_y)
                  (
                    record {
                      same_kx = a.same_kx;
                      same_ky = a.same_ky;
                      alike_x = a.alike_x;
                      alike_y = on_y;
                    },
                    ap (λ v. record ev { value = v }) same_y,
                  )
            | inr not_y ↦ elim (Bool-cases (ev.code == abs_pressure)) [
              | inr not_p ↦ rw (is_abs, not_x, not_y, not_p) (a, refl)
              | inl at_p ↦ elim (Bool-cases (ev.value ==ℤ pos 0)) [
                | inl up ↦
                    rw (is_abs, not_x, not_y, at_p, up)
                      (
                        record {
                          same_kx = a.same_kx;
                          same_ky = a.same_ky;
                          alike_x = forget-Alike s.x r.x;
                          alike_y = forget-Alike s.y r.y;
                        },
                        refl,
                      )
                | inr down ↦ rw (is_abs, not_x, not_y, at_p, down) (a, refl)
              ]
            ]
          ]
        ]
      ]

  modify-emit :
      (s : Kalman F) (ev : Event)
      → modify fl emit s ev []
        ≡ some ((change fl s ev).0, (change fl s ev).1, (change fl s ev).1 ∷ [])
  unfolding modify
  modify-emit s ev = refl

  run-AlikeFilter :
      (evs : List Event) (s r : Kalman F)
      → AlikeFilter s r
      → (s' r' : Kalman F) × (out : List Event) × (run (modify fl emit) s evs ≡ some (s', out))
        × (run (modify fl emit) r evs ≡ some (r', out))
  unfolding run
  run-AlikeFilter [] s r a = (s, r, [], refl, refl)
  run-AlikeFilter (ev ∷ evs) s r a =
      let (b, same) = change-Alike s r ev a in
      let (s', r', out, runs, runs') =
        run-AlikeFilter evs (change fl s ev).0 (change fl r ev).0 b in
      (
        s',
        r',
        (change fl s ev).1 ∷ out,
        run-cons (modify fl emit) ev evs (modify-emit s ev) runs,
        run-cons (modify fl emit) ev evs (modify-emit r ev) runs'
            ∙ ap (λ e. some (r', e ∷ out)) (sym same),
      )

  -- Whatever the memory of two Kalman filters with the same gains holds at first, over any stream
  -- both do not fail and send the same events: the estimates that `evf_kalman_alloc` leaves unset
  -- are not read before they are set.
  pub junk_unread :
      (kx ky : F) (junk junk' : Kalman F) (evs : List Event)
      → (s r s' r' : Kalman F) × (out : List Event) × (alloc fl true junk kx ky ≡ some s)
        × (alloc fl true junk' kx ky ≡ some r)
        × (run (modify fl emit) s evs ≡ some (s', out))
        × (run (modify fl emit) r evs ≡ some (r', out))
  unfolding alloc
  junk_unread kx ky junk junk' evs =
      let start : Kalman F → Kalman F =
        λ j. record { kx = kx; ky = ky; x = forget fl j.x; y = forget fl j.y } in
      let (s', r', out, runs, runs') = run-AlikeFilter evs (start junk) (start junk') (record {
        same_kx = refl;
        same_ky = refl;
        alike_x = forget-Alike junk.x junk'.x;
        alike_y = forget-Alike junk.y junk'.y;
      }) in
      (start junk, start junk', s', r', out, refl, refl, runs, runs')
