-- ===== src/Filters/Mirror/Twice.antt =====
-- src/filters/mirror.c mirror_twice in a line.
use libevfilter.Base.{ℕ, zero, suc, ◌≤◌, ◌≡◌, ◌≢◌, inl, inr, arith, ◌==◌, Bool-cases, ap}
use libevfilter.Base.Int.{ℤ, pos, negsuc, ◌-ℤ◌, ◌*ℤ◌, ◌≤ℤ◌, to_int, int_max, InInt}
use libevfilter.Event.{Event, ev_abs, Next, pass, behind}
use libevfilter.Filters.Mirror.{Mirror, mirror_rel, mirror_abs, modify}

-- A coordinate that `scale_abs` has normalised, or a movement whose opposite is an `int`.
abbrev pub IsNormal : Event → Type 0
IsNormal ev = (ev.type ≡ ev_abs → pos 0 ≤ℤ ev.value) × InInt ev.value × (ev.value ≢ negsuc int_max)

mirror_value :
    (v : ℤ) → InInt v → v ≢ negsuc int_max → to_int (to_int (v *ℤ negsuc 0) *ℤ negsuc 0) ≡ v
unfolding to_int ◌*ℤ◌
mirror_value (pos zero) h k = ground arith
mirror_value (pos (suc n)) h k = ground arith
mirror_value (negsuc n) h k = ground arith

reflect_value :
    (n : ℕ) → n ≤ int_max → to_int (pos int_max -ℤ to_int (pos int_max -ℤ pos n)) ≡ pos n
unfolding to_int ◌-ℤ◌
reflect_value n h = ground arith

mirror_rel_twice : (m : Mirror) (ev : Event) → IsNormal ev → mirror_rel m (mirror_rel m ev) ≡ ev
unfolding mirror_rel
mirror_rel_twice m ev n = ground (arith, mirror_value ev.value n.1 n.2)

reflect_lem : (v : ℤ) → pos 0 ≤ℤ v → InInt v → to_int (pos int_max -ℤ to_int (pos int_max -ℤ v)) ≡ v
reflect_lem (pos n) h k = reflect_value n k
reflect_lem (negsuc n) h k = absurd (omega arith)

mirror_abs_twice : (m : Mirror) (ev : Event) → IsNormal ev → mirror_abs m (mirror_abs m ev) ≡ ev
unfolding mirror_abs
mirror_abs_twice m ev n = elim (Bool-cases (ev.type == ev_abs)) [
  | inl is_abs ↦ ground (arith, reflect_lem ev.value (n.0 (ground arith)) n.1)
  | inr other ↦ rw (other, other)
]

-- The two parts work on events of two types, so they can change places.
parts_comm :
    (m : Mirror) (ev : Event) → mirror_rel m (mirror_abs m ev) ≡ mirror_abs m (mirror_rel m ev)
unfolding mirror_rel mirror_abs
parts_comm m ev = ground arith

-- Two mirrors with the same settings, one behind the other, send a normalised event as it came.
pub mirror_twice :
    {D : Type 0} (next : Next D) (m : Mirror) (ev : Event) (d : D)
    → IsNormal ev
    → modify (behind (modify next)) m ev (m, d) ≡ pass (behind (pass next)) m ev (m, d)
unfolding modify
mirror_twice next m ev d n =
    let M = λ (e : Event). mirror_abs m (mirror_rel m e) in
    let back : M (M ev) ≡ ev =
      rw (parts_comm m (mirror_rel m ev), mirror_rel_twice m ev n) (mirror_abs_twice m ev n) in
    ap (λ e. pass (behind (pass next)) m e (m, d)) back
