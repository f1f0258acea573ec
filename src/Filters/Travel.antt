-- ===== src/Filters/Travel.antt =====
-- How far a stream of relative events moves, and the arithmetic of dividing a movement: shared by
-- the filters that divide, src/filters/speed_mod_rel.c and src/filters/rel2scroll.c.
use libevfilter.Base.{
  ℕ, suc, ◌^◌, ◌≤◌, ◌<◌, ◌≡◌, inl, inr, false, ◌&&◌, Option, none, some, List, [], ◌∷◌, ◌++◌, arith,
  ◌==◌, if◌then◌else◌, Bool-cases,
}
use libevfilter.Base.Int.{ℤ, pos, negsuc, ◌+ℤ◌, ◌*ℤ◌, ◌==ℤ◌, abs, rem_trunc, InInt, int_laws}
use libevfilter.Event.{Event, ev_rel}

-- The movement along an axis that a stream holds, each step counted `k` times.
abbrev pub travel : ℕ → ℕ → List Event → ℤ
travel k axis [] = pos 0
travel k axis (ev ∷ evs) =
    if (ev.type == ev_rel) && (ev.code == axis)
    then ev.value *ℤ pos k +ℤ travel k axis evs
    else travel k axis evs

pub travel-append :
    (k axis : ℕ) (xs ys : List Event)
    → travel k axis (xs ++ ys) ≡ travel k axis xs +ℤ travel k axis ys
travel-append k axis [] ys = omega int_laws
travel-append k axis (x ∷ xs) ys = elim (Bool-cases ((x.type == ev_rel) && (x.code == axis))) [
  | inl h ↦ rw (h, travel-append k axis xs ys) (omega int_laws)
  | inr h ↦ rw h (travel-append k axis xs ys)
]

abbrev pub small : ℕ
small = 2 ^ 30

pub InInt-+ℤ : (a b : ℤ) → abs a < small → abs b ≤ small → InInt (a +ℤ b)
unfolding ◌+ℤ◌
InInt-+ℤ (pos a) (pos b) h k = ground arith
InInt-+ℤ (pos a) (negsuc b) h k = ground arith
InInt-+ℤ (negsuc a) (pos b) h k = ground arith
InInt-+ℤ (negsuc a) (negsuc b) h k = ground arith

-- What is sent for one movement, in units of the device.
abbrev pub units : ℕ → Option ℤ → ℤ
units m none = pos 0
units m (some q) = q *ℤ pos m

pub abs-rem_trunc : (t : ℤ) (m : ℕ) → abs (rem_trunc t (pos (suc m))) ≤ m
unfolding rem_trunc
abs-rem_trunc (pos t) m = ground arith
abs-rem_trunc (negsuc t) m = ground arith

pub pos_ne_zero : (m : ℕ) → (pos (suc m) ==ℤ pos 0) ≡ false
pos_ne_zero m = ground arith
