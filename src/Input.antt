-- ===== src/Input.antt =====
-- src/evf_input.c: the names of types, codes and values of events.
pub mod Print
pub mod Device
use mathlib.Core.Option
use mathlib.Core.Option.{some-injective}
use libevfilter.Base.{
  ℕ, zero, suc, ◌<◌, ◌≤◌, ◌≡◌, ◌≢◌, ◌↔◌, refl, ap, arith, true, false, Option, none, some, List, [],
  ◌∷◌, ltb, ◌==◌, if◌then◌else◌, get_elem?, length, Bool-cases, inl, inr,
}
use libevfilter.Base.Int.{ℤ, pos, negsuc, ltb_ℤ}
use libevfilter.Base.Text.{Text, codes}
use libevfilter.Event.{Event, ev_syn, ev_key, ev_rel, ev_abs}

abbrev pub key_values : List Text
key_values = codes "KEY_UP" ∷ codes "KEY_DOWN" ∷ codes "KEY_REPEAT" ∷ []

abbrev pub ev_key_cnt : ℕ
ev_key_cnt = 3

abbrev pub rel_names : List Text
rel_names =
    codes "REL_X"
    ∷ codes "REL_Y"
    ∷ codes "REL_Z"
    ∷ codes "REL_RX"
    ∷ codes "REL_RY"
    ∷ codes "REL_RZ"
    ∷ codes "REL_HWHEEL"
    ∷ codes "REL_DIAL"
    ∷ codes "REL_WHEEL"
    ∷ codes "REL_MISC"
    ∷ []

abbrev pub ev_rel_cnt : ℕ
ev_rel_cnt = 10

abbrev unknown : Text
unknown = codes "UNKNOWN"

abbrev pub abs_names : List Text
abs_names =
    codes "ABS_X"
    ∷ codes "ABS_Y"
    ∷ codes "ABS_Z"
    ∷ codes "ABS_RX"
    ∷ codes "ABS_RY"
    ∷ codes "ABS_RZ"
    ∷ codes "ABS_THROTTLE"
    ∷ codes "ABS_RUDDER"
    ∷ codes "ABS_WHEEL"
    ∷ codes "ABS_GAS"
    ∷ codes "ABS_BRAKE"
    ∷ unknown
    ∷ unknown
    ∷ unknown
    ∷ unknown
    ∷ unknown
    ∷ codes "ABS_HAT0X"
    ∷ codes "ABS_HAT0Y"
    ∷ codes "ABS_HAT1X"
    ∷ codes "ABS_HAT1Y"
    ∷ codes "ABS_HAT2X"
    ∷ codes "ABS_HAT2Y"
    ∷ codes "ABS_HAT3X"
    ∷ codes "ABS_HAT3Y"
    ∷ codes "ABS_PRESSURE"
    ∷ codes "ABS_DISTANCE"
    ∷ codes "ABS_TILT_X"
    ∷ codes "ABS_TILT_Y"
    ∷ codes "ABS_TOOL_WIDTH"
    ∷ unknown
    ∷ unknown
    ∷ unknown
    ∷ codes "ABS_VOLUME"
    ∷ unknown
    ∷ unknown
    ∷ unknown
    ∷ unknown
    ∷ unknown
    ∷ unknown
    ∷ unknown
    ∷ unknown
    ∷ codes "ABS_MISC"
    ∷ []

abbrev pub ev_abs_cnt : ℕ
ev_abs_cnt = 42

-- `ev_type`, and the number that its index is compared with.
abbrev pub type_names : List Text
type_names =
    codes "EV_SYN"
    ∷ codes "EV_KEY"
    ∷ codes "EV_REL"
    ∷ codes "EV_ABS"
    ∷ codes "EV_MSC"
    ∷ codes "EV_SW"
    ∷ codes "EV_LED"
    ∷ codes "EV_SND"
    ∷ codes "EV_REP"
    ∷ codes "EV_FF"
    ∷ codes "EV_PWR"
    ∷ codes "EV_FF_STAT"
    ∷ []

-- A name, if the index is below the bound that it is compared with; `none` is a read outside of the
-- table.
unfoldable pub name_in : ℕ → List Text → ℕ → Option Text
name_in bound names n = if ltb n bound then get_elem? names n else some unknown

-- `evf_input_type`.
unfoldable pub input_type : Event → Option Text
unfolding name_in
input_type ev = name_in 13 type_names ev.type

-- `evf_input_code`, with `keyparser_getname`, which gives NULL for a code that is not in the table
-- of keys; the inner `none` is NULL, the outer one a read outside of a table.
unfoldable pub input_code : (ℕ → Option Text) → Event → Option (Option Text)
unfolding name_in
input_code getname ev =
    if ev.type == ev_syn
    then some (some (codes "0"))
    else if ev.type == ev_key
    then some (getname ev.code)
    else if ev.type == ev_rel
    then Option.map some (name_in ev_rel_cnt rel_names ev.code)
    else if ev.type == ev_abs
    then Option.map some (name_in ev_abs_cnt abs_names ev.code)
    else some (some unknown)

-- The name of a key's value.
unfoldable pub key_value : ℤ → Option Text
unfolding name_in
key_value (pos n) = name_in ev_key_cnt key_values n
key_value (negsuc n) = none

-- `evf_input_value`; the inner `none` is NULL.
unfoldable pub input_value : Event → Option (Option Text)
unfolding key_value
input_value ev =
    if ev.type == ev_key
    then elim (key_value ev.value) [ none ↦ none | some t ↦ some (some t) ]
    else if ev.type == ev_syn
    then some (some (codes "0"))
    else some none

get_elem?-none : (xs : List Text) (n : ℕ) → length xs ≤ n → get_elem? xs n ≡ none
get_elem?-none [] n h = refl
get_elem?-none (x ∷ xs) zero h = absurd (omega arith)
get_elem?-none (x ∷ xs) (suc n) h = get_elem?-none xs n (omega arith)

pub get_elem?-some : (xs : List Text) (n : ℕ) → n < length xs → get_elem? xs n ≢ none
get_elem?-some [] n h e = absurd (omega arith)
get_elem?-some (x ∷ xs) zero h e = ground (arith, e)
get_elem?-some (x ∷ xs) (suc n) h e = get_elem?-some xs n (omega arith) e

pub name_in-known :
    (bound : ℕ) (names : List Text) (n : ℕ) → bound ≤ length names → name_in bound names n ≢ none
unfolding name_in
name_in-known bound names n h e = elim (Bool-cases (ltb n bound)) [
  | inl low ↦ get_elem?-some names n (ground (arith, low, h)) (ground (arith, low, e))
  | inr high ↦ ground (arith, high, e)
]

-- A name that is found is no NULL.
map-found :
    (o : Option Text) → o ≢ none → (Option.map some o ≢ none) × (Option.map some o ≢ some none)
map-found none known = absurd (known refl)
map-found (some t) known = ((λ e. cc), (λ e. ground (arith, e)))

-- No table is left, and NULL is given exactly for a key that has no name.
abbrev IsKnown : (ℕ → Option Text) → Event → Option (Option Text) → Type 0
IsKnown getname ev o = (o ≢ none) × (o ≡ some none ↔ (ev.type ≡ ev_key) × (getname ev.code ≡ none))

no_key-IsKnown :
    (getname : ℕ → Option Text) (ev : Event) (o : Option (Option Text))
    → (ev.type == ev_key) ≡ false
    → (o ≢ none) × (o ≢ some none)
    → IsKnown getname ev o
no_key-IsKnown getname ev o other (known, named) =
    (known, ((λ e. absurd (named e)), λ h. ground (arith, other, h.0)))

input_code-IsKnown :
    (getname : ℕ → Option Text) (ev : Event) → IsKnown getname ev (input_code getname ev)
unfolding input_code
input_code-IsKnown getname ev = elim (Bool-cases (ev.type == ev_syn)) [
  | inl syn ↦
      rw syn
        (no_key-IsKnown getname ev _ (ground (arith, syn)) (map-found (some (codes "0")) (λ e. cc)))
  | inr a ↦ elim (Bool-cases (ev.type == ev_key)) [
    | inl key ↦
        rw (a, key)
          ((λ e. cc), ((λ e. (ground (arith, key), some-injective _ _ e)), λ h. ap some h.1))
    | inr b ↦ elim (Bool-cases (ev.type == ev_rel)) [
      | inl rel ↦
          rw (a, b, rel)
            (no_key-IsKnown getname ev _ b
              (map-found _ (name_in-known ev_rel_cnt rel_names ev.code (omega arith))))
      | inr c ↦ elim (Bool-cases (ev.type == ev_abs)) [
        | inl abs ↦
            rw (a, b, c, abs)
              (no_key-IsKnown getname ev _ b
                (map-found _ (name_in-known ev_abs_cnt abs_names ev.code (omega arith))))
        | inr d ↦
            rw (a, b, c, d) (no_key-IsKnown getname ev _ b (map-found (some unknown) (λ e. cc)))
      ]
    ]
  ]
]

type_outside : (n : ℕ) → name_in 13 type_names n ≡ none ↔ n ≡ 12
unfolding name_in
type_outside n = (outside, λ e. rw e refl)
  where
    outside : name_in 13 type_names n ≡ none → n ≡ 12
    outside e = elim (Bool-cases (ltb n 12)) [
      | inl low ↦
          absurd (get_elem?-some type_names n (ground (arith, low)) (ground (arith, low, e)))
      | inr high ↦ ground (arith, high, e)
    ]

value_outside : (v : ℤ) → key_value v ≡ none ↔ ltb_ℤ v (pos 0) ≡ true
unfolding key_value
value_outside (pos n) =
    ((λ e. absurd (name_in-known ev_key_cnt key_values n (omega arith) e)), λ e. ground (arith, e))
value_outside (negsuc n) = ((λ e. ground arith), λ e. refl)

-- The name of a code is never looked for outside of a table, and is NULL exactly for a key for
-- whose code `keyparser_getname` gives NULL. The name of a type lies outside of its table exactly
-- for the type 12, and that of a value exactly for a key with a negative value.
pub names_outside :
    (getname : ℕ → Option Text) (ev : Event)
    → (input_code getname ev ≢ none)
      × (input_code getname ev ≡ some none ↔ (ev.type ≡ ev_key) × (getname ev.code ≡ none))
      × (input_type ev ≡ none ↔ ev.type ≡ 12)
      × (input_value ev ≡ none ↔ (ev.type ≡ ev_key) × (ltb_ℤ ev.value (pos 0) ≡ true))
unfolding input_type input_value
names_outside getname ev =
    let (known, null) = input_code-IsKnown getname ev in
    (known, null, type_outside ev.type, (outside, inside))
  where
    outside : input_value ev ≡ none → (ev.type ≡ ev_key) × (ltb_ℤ ev.value (pos 0) ≡ true)
    outside e = elim (Bool-cases (ev.type == ev_key)) [
      | inl key ↦ (ground (arith, key), (value_outside ev.value).0 (ground (arith, key, e)))
      | inr other ↦ elim (Bool-cases (ev.type == ev_syn)) [
        | inl syn ↦ ground (arith, other, syn, e)
        | inr c ↦ ground (arith, other, c, e)
      ]
    ]

    inside : (ev.type ≡ ev_key) × (ltb_ℤ ev.value (pos 0) ≡ true) → input_value ev ≡ none
    inside (key, low) = ground (arith, key, (value_outside ev.value).1 low)
