-- ===== src/Filters/PressureToKey/Alternate.antt =====
-- The key events that src/filters/pressure_to_key.c generates over a stream.
use libevfilter.Base.{
  ◌≡◌, ◌↔◌, refl, ◌≢◌, ◌⊎◌, Bool, true, ◌&&◌, some, List, [], ◌∷◌, ◌++◌, arith, ◌==◌, if◌then◌else◌,
  select, select-append, All,
}
use libevfilter.Base.Int.{ℤ, pos, ◌+ℤ◌, ◌≤ℤ◌}
use libevfilter.Event.{Event, ev_key, ev_abs, abs_pressure, nonzero, emit, run, run-cons}
use libevfilter.Filters.PressureToKey.{Pressure, check_treshold, key_event, generate, modify}
use libevfilter.Filters.Alternates.{Alternates, Alternates-append}

abbrev pub is_key : Event → Bool
is_key ev = ev.type == ev_key

-- The state in which the filter is left by an event that nothing behind it writes to.
abbrev pub pressed_after : Pressure → Event → Bool
pressed_after p ev =
    if (ev.type == ev_abs) && (ev.code == abs_pressure)
    then check_treshold ev.value p.treshold
    else nonzero p.pressed

abbrev flag : Bool → ℤ
flag b = if b then pos 1 else pos 0

-- The key events that one event brings about, and the state that it leaves.
abbrev keys_sent : Pressure → Event → List Event
keys_sent p ev =
    if nonzero p.pressed
    then (if pressed_after p ev then [] else key_event p (pos 0) ev ∷ [])
    else (if pressed_after p ev then key_event p (pos 1) ev ∷ [] else [])

abbrev state_after : Pressure → Event → Pressure
state_after p ev =
    if nonzero p.pressed
    then (if pressed_after p ev then p else record p { pressed = pos 0 })
    else (if pressed_after p ev then record p { pressed = pos 1 } else p)

abbrev event_after : Pressure → Event → Event
event_after p ev =
    if nonzero p.pressed
    then (if pressed_after p ev then ev else key_event p (pos 0) ev)
    else (if pressed_after p ev then key_event p (pos 1) ev else ev)

modify_lem :
    (p : Pressure) (ev : Event)
    → modify emit p ev [] ≡ some (state_after p ev, event_after p ev, ev ∷ keys_sent p ev)
unfolding modify generate
modify_lem p ev = ground arith

keys_sent-Alternates :
    (p : Pressure) (ev : Event)
    → ev.type ≢ ev_key
    → Alternates
        (nonzero p.pressed)
        (select is_key (ev ∷ keys_sent p ev))
        (nonzero (state_after p ev).pressed)
keys_sent-Alternates p ev h = ground arith

-- Over any stream that holds no key events of its own, the filter does not fail, and the key
-- events that it generates alternate between press (1) and release (0), from its state to the one
-- in which it is left.
pub pressure-Alternates :
    (p : Pressure) (evs : List Event)
    → All (λ ev. ev.type ≢ ev_key) evs
    → (p' : Pressure) × (out : List Event) × (run (modify emit) p evs ≡ some (p', out))
      × Alternates (nonzero p.pressed) (select is_key out) (nonzero p'.pressed)
unfolding run
pressure-Alternates p [] h = (p, [], refl, refl)
pressure-Alternates p (ev ∷ evs) h =
    let (p', out, e, a) = pressure-Alternates (state_after p ev) evs h.1 in
    let sent = ev ∷ keys_sent p ev in
    (
      p',
      sent ++ out,
      run-cons (modify emit) ev evs (modify_lem p ev) e,
      rw (select-append is_key sent out)
          (Alternates-append _ _ _ _ _ (keys_sent-Alternates p ev h.0) a),
    )

-- With a treshold that is not negative, the pen counts as pressed exactly above it; with a negative
-- one exactly strictly between 0 and its absolute value, or below 0.
pub check_treshold_iff :
    (value treshold : ℤ)
    → (check_treshold value treshold ≡ true) ↔ (
        (pos 0 ≤ℤ treshold) × (treshold +ℤ pos 1 ≤ℤ value)
        ⊎ (treshold +ℤ pos 1 ≤ℤ pos 0) × (value ≢ pos 0) × (value +ℤ treshold +ℤ pos 1 ≤ℤ pos 0))
unfolding check_treshold ◌+ℤ◌
check_treshold_iff value treshold = (λ h. ground arith, λ h. ground arith)
