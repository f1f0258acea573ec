-- ===== src/Filters/WeightedAverage/Junk.antt =====
-- What src/filters/weighted_average_abs.c makes of a first sample.
use libevfilter.Base.{
  ℕ, zero, suc, ◌+◌, ◌-◌, ◌%◌, ◌<◌, ◌≤◌, ◌≡◌, refl, ap, ◌∙◌, arith, true, false, some, List, [],
  ◌∷◌, ltb, length, get_elem?, set, length-set,
}
use native.Mathlib.Nat.{mod-eq_of_lt, mod_self}
use libevfilter.Base.Int.{
  ℤ, pos, ◌+ℤ◌, ◌-ℤ◌, ◌==ℤ◌, ltb_ℤ, to_int, to_int_fits, rem_trunc, int_laws, abs,
}
use libevfilter.Filters.WeightedAverage.{
  Floats, Axis, next_place, coord_at, go_on, calculate_from, calculate, drop_tail, store, add,
  sample,
}

next_int : (i : ℕ) → i < 1000 → to_int (pos i +ℤ pos 1) ≡ pos (i + 1)
next_int i h =
    let sum : pos i +ℤ pos 1 ≡ pos (i + 1) = omega int_laws in
    ap to_int sum ∙ to_int_fits (pos (i + 1)) (omega (arith, h))

-- The next place of a ring.
pub next_place-up : (n i : ℕ) → n < 1000 → i + 1 < n → next_place n (pos i) ≡ some (pos (i + 1))
unfolding next_place rem_trunc
next_place-up zero i h k = absurd (omega arith)
next_place-up (suc n) i h k =
    ap (λ z. some (rem_trunc z (pos (suc n)))) (next_int i (omega arith))
    ∙ ap (λ m. some (pos m)) (mod-eq_of_lt k)

pub next_place-wrap : (n i : ℕ) → n < 1000 → i + 1 ≡ n → next_place n (pos i) ≡ some (pos 0)
unfolding next_place rem_trunc
next_place-wrap zero i h k = absurd (omega arith)
next_place-wrap (suc n) i h k =
    ap (λ z. some (rem_trunc z (pos (suc n)))) (next_int i (omega arith))
    ∙ ap (λ m. some (pos (m % suc n))) k
    ∙ ap (λ m. some (pos m)) (mod_self (suc n))

pub get_elem?-lt : (xs : List ℤ) (i : ℕ) → i < length xs → (v : ℤ) × (get_elem? xs i ≡ some v)
get_elem?-lt [] i h = absurd (omega arith)
get_elem?-lt (x ∷ xs) zero h = (x, refl)
get_elem?-lt (x ∷ xs) (suc i) h = get_elem?-lt xs i (omega arith)

module _ {F : Type 0} (fl : Floats F) (n : ℕ) (small : n < 1000) (head : ℤ) (cs : List ℤ)
    (full : length cs ≡ n) where
  abbrev ring : Axis
  ring = record { head = head; tail = pos 0; coord = cs }

  -- One round of the loop.
  calculate_from-step :
      (fuel k i : ℕ) (i' v : ℤ) (r : F)
      → 0 < i
      → get_elem? cs i ≡ some v
      → next_place n (pos i) ≡ some i'
      → calculate_from fl (suc fuel) n ring k (pos i) r
        ≡ calculate_from fl fuel n ring (suc k) i' (fl.share k v)
  unfolding calculate_from coord_at
  calculate_from-step fuel k i i' v r h e f =
      let off : (pos i ==ℤ pos 0) ≡ false = ground arith in rw (off, e, f) refl

  calculate_from-end : (fuel k : ℕ) (r : F) → calculate_from fl fuel n ring k (pos 0) r ≡ some r
  unfolding calculate_from
  calculate_from-end zero k r = refl
  calculate_from-end (suc fuel) k r = refl

  -- From a place in front of the last one the loop goes up to the end of the ring.
  calculate_from-up :
      (d fuel k i : ℕ) (v : ℤ) (r : F)
      → 0 < i
      → i + suc d ≡ n
      → d < fuel
      → get_elem? cs (i + d) ≡ some v
      → calculate_from fl fuel n ring k (pos i) r ≡ some (fl.share (k + d) v)
  calculate_from-up d zero k i v r h e f at = absurd (omega arith)
  calculate_from-up zero (suc fuel) k i v r h e f at =
      calculate_from-step fuel k i (pos 0) v r h (ground (arith, at))
        (next_place-wrap n i small (omega arith))
      ∙ calculate_from-end fuel (suc k) (fl.share k v)
      ∙ ap (λ m. some (fl.share m v)) (omega arith)
  calculate_from-up (suc d) (suc fuel) k i v r h e f at =
      let (u, there) = get_elem?-lt cs i (omega (arith, full)) in
      calculate_from-step fuel k i (pos (i + 1)) u r h there (next_place-up n i small (omega arith))
      ∙ calculate_from-up d fuel (suc k) (i + 1) v (fl.share k u) (omega arith) (omega arith)
          (omega arith) (ap (get_elem? cs) (omega arith) ∙ at)
      ∙ ap (λ m. some (fl.share m v)) (omega arith)

get_elem?-set : (xs : List ℤ) (i j : ℕ) (w : ℤ) → i < j → get_elem? (set xs i w) j ≡ get_elem? xs j
get_elem?-set [] i j w h = refl
get_elem?-set (x ∷ xs) i zero w h = absurd (omega arith)
get_elem?-set (x ∷ xs) zero (suc j) w h = refl
get_elem?-set (x ∷ xs) (suc i) (suc j) w h = get_elem?-set xs i j w (omega arith)

no_distance : to_int (pos (abs (to_int (pos 0 -ℤ pos 0)))) ≡ pos 0
unfolding to_int ◌-ℤ◌
no_distance = refl

has_room :
    (n : ℕ) → 3 ≤ n → ltb_ℤ (to_int (pos (abs (to_int (pos 0 -ℤ pos 0))))) (pos n -ℤ pos 1) ≡ true
has_room n low =
    let most : pos n -ℤ pos 1 ≡ pos (n - 1) = omega int_laws in
    let more : ltb_ℤ (pos 0) (pos (n - 1)) ≡ true = ground arith in
    ap (λ z. ltb_ℤ z (pos n -ℤ pos 1)) no_distance ∙ ap (ltb_ℤ (pos 0)) most ∙ more

-- The first sample of an empty ring.
add-empty :
    (n : ℕ) (cs : List ℤ) (val : ℤ)
    → 3 ≤ n
    → n < 1000
    → length cs ≡ n
    → add n (record { head = pos 0; tail = pos 0; coord = cs }) val
      ≡ some (record { head = pos 1; tail = pos 0; coord = set cs 1 val })
unfolding add drop_tail store
add-empty n cs val low high full =
    let room : ltb_ℤ (to_int (pos (abs (to_int (pos 0 -ℤ pos 0))))) (pos n -ℤ pos 1) ≡ true =
      has_room n low in
    let inside : ltb 1 (length cs) ≡ true = ground arith in
    rw (room, next_place-up n 0 high (omega arith), inside) refl

-- Of a ring of three to ten places that is empty, the first sample is not used: the event gets the
-- share of what the ring's last place holds, which nothing has written before.
pub first_sample :
    {F : Type 0} (fl : Floats F) (n : ℕ) (cs : List ℤ) (val junk : ℤ)
    → 3 ≤ n
    → n ≤ 10
    → length cs ≡ n
    → get_elem? cs (n - 1) ≡ some junk
    → sample fl n (record { head = pos 0; tail = pos 0; coord = cs }) val
      ≡ some (
        record { head = pos 1; tail = pos 0; coord = set cs 1 val },
        fl.int_of (fl.share (n - 1) junk),
      )
unfolding sample calculate
first_sample fl n cs val junk low high full at =
    let a : Axis = record { head = pos 1; tail = pos 0; coord = set cs 1 val } in
    ap (λ m. go_on m (λ b. go_on (calculate fl n b) (λ v. some (b, v))))
      (add-empty n cs val low (omega arith) full)
    ∙ ap (λ m. go_on (go_on m (λ r. some (fl.int_of r))) (λ v. some (a, v)))
        (calculate_from-up fl n (omega arith) (pos 1) (set cs 1 val) (length-set cs 1 val ∙ full)
          (n - 2) n 1 1 junk fl.zero_float (omega arith) (omega arith) (omega arith)
          (get_elem?-set cs 1 (1 + (n - 2)) val (omega arith)
            ∙ ap (get_elem? cs) (omega arith)
            ∙ at))
    ∙ ap (λ m. some (a, fl.int_of (fl.share m junk))) (omega arith)
