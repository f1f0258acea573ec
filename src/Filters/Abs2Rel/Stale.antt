-- ===== src/Filters/Abs2Rel/Stale.antt =====
-- What src/filters/abs2rel.c sends, with its faults.
use libevfilter.Base.{
  ℕ, ◌≡◌, refl, ◌≢◌, inl, inr, ◌&&◌, some, List, [], ◌∷◌, ◌++◌, arith, ◌==◌, if◌then◌else◌,
  Bool-cases, All, All-append,
}
use libevfilter.Base.Int.{ℤ, pos, ◌+ℤ◌, ◌-ℤ◌, ◌==ℤ◌, ◌≤ℤ◌, to_int}
use libevfilter.Event.{
  Event, ev_syn, ev_rel, ev_abs, rel_x, rel_y, abs_x, abs_y, abs_pressure, emit, run, run-cons,
}
use libevfilter.Filters.Abs2Rel.{Abs2Rel, incif, flush_axis, flush, track, modify}

-- The counters of samples stay between 0 and 2.
pub record IsValid (s : Abs2Rel) : Type 0 where
  pub x_low : pos 0 ≤ℤ s.xstate
  pub x_high : s.xstate ≤ℤ pos 2
  pub y_low : pos 0 ≤ℤ s.ystate
  pub y_high : s.ystate ≤ℤ pos 2

-- The events that are sent at a sync event: the movement of each axis that has two samples, then
-- the sync event. All have the type of the sync event.
abbrev pub moves : Abs2Rel → Event → List Event
moves s ev =
    (if s.xstate ==ℤ pos 2 then record ev { code = rel_x; value = s.relx } ∷ [] else [])
    ++ (if s.ystate ==ℤ pos 2 then record ev { code = rel_y; value = s.rely } ∷ [] else [])

-- The code that the last of them leaves in the event.
abbrev pub code_after : Abs2Rel → Event → ℕ
code_after s ev =
    if s.ystate ==ℤ pos 2 then rel_y else if s.xstate ==ℤ pos 2 then rel_x else ev.code

-- At a sync event the filter does not change its data, so that the next sync event sends the same
-- movement again; it sends the movements under the type of the sync event, and then the sync event
-- twice, with the code of the last movement.
pub modify-syn :
    (s : Abs2Rel) (ev : Event)
    → ev.type ≡ ev_syn
    → let end = record ev { type = ev_syn; code = code_after s ev; value = pos 0 } in
      modify emit s ev [] ≡ some (s, end, moves s ev ++ end ∷ end ∷ [])
unfolding modify flush flush_axis track
modify-syn s ev h = ground arith

incif_valid : (x : ℤ) → pos 0 ≤ℤ x → x ≤ℤ pos 2 → (pos 0 ≤ℤ incif x) × (incif x ≤ℤ pos 2)
unfolding incif ◌+ℤ◌
incif_valid x h k = ground arith

-- An event that is not a relative one.
abbrev pub IsQuiet : Event → Type 0
IsQuiet ev = ev.type ≢ ev_rel

abbrev Steps : Abs2Rel → Event → Type 0
Steps s ev =
    (r : Abs2Rel × Event × List Event) × (modify emit s ev [] ≡ some r)
    × (IsValid r.0 × All IsQuiet r.2)

moves-All : (s : Abs2Rel) (ev : Event) → IsQuiet ev → All IsQuiet (moves s ev)
moves-All s ev h = elim (Bool-cases (s.xstate ==ℤ pos 2)) [
  | inl x ↦ rw x (h, y_part)
  | inr not_x ↦ rw not_x y_part
]
  where
    y_part :
        All IsQuiet
          (if s.ystate ==ℤ pos 2 then record ev { code = rel_y; value = s.rely } ∷ [] else [])
    y_part = elim (Bool-cases (s.ystate ==ℤ pos 2)) [
      | inl y ↦ rw y (h, tt)
      | inr not_y ↦ rw not_y tt
    ]

-- The data that an absolute event leaves.
abbrev tracked : Abs2Rel → Event → Abs2Rel
tracked s ev =
    if ev.code == abs_x
    then record s {
      relx = to_int (ev.value -ℤ s.last_absx);
      last_absx = ev.value;
      xstate = incif s.xstate;
    }
    else if ev.code == abs_y
    then record s {
      rely = to_int (ev.value -ℤ s.last_absy);
      last_absy = ev.value;
      ystate = incif s.ystate;
    }
    else if (ev.code == abs_pressure) && (ev.value ==ℤ pos 0)
    then record s { xstate = pos 0; ystate = pos 0 }
    else s

tracked-IsValid : (s : Abs2Rel) (ev : Event) → IsValid s → IsValid (tracked s ev)
tracked-IsValid s ev v =
    ground (arith, incif_valid s.xstate v.x_low v.x_high, incif_valid s.ystate v.y_low v.y_high)

step : (s : Abs2Rel) (ev : Event) → IsValid s → IsQuiet ev → Steps s ev
step s ev v q = elim (Bool-cases (ev.type == ev_syn)) [
  | inl syn ↦
      let end = record ev { type = ev_syn; code = code_after s ev; value = pos 0 } in
      (
        (s, end, moves s ev ++ end ∷ end ∷ []),
        modify-syn s ev (ground arith),
        (v, All-append IsQuiet (moves s ev) (end ∷ end ∷ []) (moves-All s ev q) (omega arith)),
      )
  | inr other ↦
      unfold modify track in
      elim (Bool-cases (ev.type == ev_abs)) [
        | inl is_abs ↦ (
          (tracked s ev, ev, []),
          rw (other, is_abs) (ground arith),
          (tracked-IsValid s ev v, tt),
        )
        | inr passed ↦ ((s, ev, ev ∷ []), rw (other, passed), (v, (q, tt)))
      ]
]

-- Over any stream that has no relative events, from valid counters, the filter does not fail, is
-- left with valid counters, and sends no relative event at all: the movements that it computes
-- never leave it as events of type EV_REL.
pub run-IsQuiet :
    (s : Abs2Rel) (evs : List Event)
    → IsValid s
    → All IsQuiet evs
    → (s' : Abs2Rel) × (out : List Event) × (run (modify emit) s evs ≡ some (s', out))
      × IsValid s'
      × All IsQuiet out
unfolding run
run-IsQuiet s [] v h = (s, [], refl, v, tt)
run-IsQuiet s (ev ∷ evs) v h =
    let ((s₁, ev', out₁), e₁, (v₁, q₁)) = step s ev v h.0 in
    let (s₂, out₂, e₂, v₂, q₂) = run-IsQuiet s₁ evs v₁ h.1 in
    (s₂, out₁ ++ out₂, run-cons (modify emit) ev evs e₁ e₂, v₂, All-append IsQuiet out₁ out₂ q₁ q₂)
