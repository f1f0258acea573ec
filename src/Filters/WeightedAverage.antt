-- ===== src/Filters/WeightedAverage.antt =====
-- src/filters/weighted_average_abs.c: the average of the last absolute coordinates.
pub mod Junk
pub mod Ring
use libevfilter.Base.{
  ℕ, zero, suc, Bool, true, false, not, ◌&&◌, Option, none, some, List, [], ◌∷◌, ltb, ◌==◌,
  if◌then◌else◌, length, get_elem?, set,
}
use libevfilter.Base.Int.{ℤ, pos, negsuc, ◌+ℤ◌, ◌-ℤ◌, ◌==ℤ◌, ltb_ℤ, abs, to_int, rem_trunc}
use libevfilter.Base.Text.{Text, codes}
use libevfilter.Event.{Event, ev_abs, abs_x, abs_y, abs_pressure, Next, Modify, pass}
use libevfilter.Param.Defs.{
  ParamType, LimInt, Param, row, last_row, Result, fault, ◌>>=◌, Value, Env,
}
use libevfilter.Param.Load.{load_params, or_errno}

-- The arithmetic on `float`: 0, the quotient `1.00 / n * v`, and the conversion to `int`.
pub record Floats (F : Type 0) : Type 0 where
  pub zero_float : F
  pub share : ℕ → ℤ → F
  pub int_of : F → ℤ

-- What `struct average` has for one of the three values: its ring of `n` places.
pub record Axis : Type 0 where
  pub head : ℤ
  pub tail : ℤ
  pub coord : List ℤ

-- `struct average`.
pub record Average : Type 0 where
  pub n : ℕ
  pub x : Axis
  pub y : Axis
  pub p : Axis

-- `++i, i %= n`; without places the division faults.
unfoldable pub next_place : ℕ → ℤ → Option ℤ
next_place zero i = none
next_place (suc n) i = some (rem_trunc (to_int (i +ℤ pos 1)) (pos (suc n)))

-- A place of the ring; `none` is one outside of it.
unfoldable pub coord_at : List ℤ → ℤ → Option ℤ
coord_at cs (pos i) = get_elem? cs i
coord_at cs (negsuc i) = none

abbrev go_on : {A B : Type 0} → Option A → (A → Option B) → Option B
go_on none f = none
go_on (some a) f = f a

-- The loop of `calculate` from the place `i` on, with the sample's number `k`; `none` is also the
-- end of the fuel.
unfoldable pub calculate_from : {F : Type 0} → Floats F → ℕ → ℕ → Axis → ℕ → ℤ → F → Option F
unfolding next_place coord_at
calculate_from fl zero n a k i result = if i ==ℤ a.tail then some result else none
calculate_from fl (suc fuel) n a k i result =
    if i ==ℤ a.tail
    then some result
    else go_on (coord_at a.coord i)
        (λ v. go_on (next_place n i) (λ i'. calculate_from fl fuel n a (suc k) i' (fl.share k v)))

-- `calculate`, with fuel for a round for each place.
unfoldable pub calculate : {F : Type 0} → Floats F → ℕ → Axis → Option ℤ
unfolding calculate_from
calculate fl n a = go_on (calculate_from fl n n a 1 a.head fl.zero_float) (λ r. some (fl.int_of r))

-- The sample at the tail is thrown away if the ring counts as full.
unfoldable pub drop_tail : ℕ → Axis → Option Axis
unfolding next_place
drop_tail n a =
    if ltb_ℤ (to_int (pos (abs (to_int (a.head -ℤ a.tail))))) (pos n -ℤ pos 1)
    then some a
    else go_on (next_place n a.tail) (λ t. some (record a { tail = t }))

-- A write to a place of the ring.
unfoldable pub store : List ℤ → ℤ → ℤ → Option (List ℤ)
store cs (pos i) v = if ltb i (length cs) then some (set cs i v) else none
store cs (negsuc i) v = none

-- `add`.
unfoldable pub add : ℕ → Axis → ℤ → Option Axis
unfolding drop_tail store
add n a val = go_on (drop_tail n a) (λ b.
    go_on (next_place n b.head)
      (λ h. go_on (store b.coord h val) (λ cs. some (record b { head = h; coord = cs }))))

-- `add` and `calculate`: the ring, and the value that the event gets.
unfoldable pub sample : {F : Type 0} → Floats F → ℕ → Axis → ℤ → Option (Axis × ℤ)
unfolding add calculate
sample fl n a val = go_on (add n a val) (λ b. go_on (calculate fl n b) (λ v. some (b, v)))

-- The pen is up.
abbrev pub emptied : Axis → Axis
emptied a = record a { head = pos 0; tail = pos 0 }

-- The `switch` of `modify`.
unfoldable pub change : {F : Type 0} → Floats F → Average → Event → Option (Average × Event)
unfolding sample
change fl s ev =
    if not (ev.type == ev_abs)
    then some (s, ev)
    else if ev.code == abs_x
    then go_on (sample fl s.n s.x ev.value)
        (λ r. some (record s { x = r.0 }, record ev { value = r.1 }))
    else if ev.code == abs_y
    then go_on (sample fl s.n s.y ev.value)
        (λ r. some (record s { y = r.0 }, record ev { value = r.1 }))
    else if not (ev.code == abs_pressure)
    then some (s, ev)
    else if ev.value ==ℤ pos 0
    then some (record s { x = emptied s.x; y = emptied s.y; p = emptied s.p }, ev)
    else go_on (sample fl s.n s.p ev.value)
        (λ r. some (record s { p = r.0 }, record ev { value = r.1 }))

unfoldable pub modify : {F D : Type 0} → Floats F → Next D → Modify Average D
unfolding change
modify fl next s ev d = go_on (change fl s ev) (λ r. pass next r.0 r.1 d)

-- `evf_weighted_average_abs_alloc`: `junk` is what the memory holds. `tail[1]` and `head[2]` keep
-- it, since `head[1]` and `tail[2]` are set twice.
unfoldable pub alloc : Bool → Average → ℕ → Option Average
alloc has_memory junk n =
    if has_memory
    then some (record junk {
      n = n;
      x = emptied junk.x;
      y = record { head = pos 0; tail = junk.y.tail; coord = junk.y.coord };
      p = record { head = junk.p.head; tail = pos 0; coord = junk.p.coord };
    })
    else none

abbrev pub samples_lim : LimInt
samples_lim = record { min = pos 0; max = pos 10 }

abbrev pub average_params : List Param
average_params = row (codes "samples") ParamType.int (some samples_lim) none ∷ last_row ∷ []

unfoldable pub from_values : {F : Type 0} → Env F → Average → List (Value F) → Result Average
unfolding alloc
from_values env junk (Value.int (pos n) ∷ []) = or_errno env (alloc env.has_memory junk n)
from_values env junk _ = fault

-- `evf_weighted_average_abs_creat`.
unfoldable pub creat : {F : Type 0} → Env F → Average → Text → Result Average
unfolding from_values
creat env junk params = load_params env params average_params >>= from_values env junk
