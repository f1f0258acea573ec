-- ===== src/Filters/KeySubstitute/Replaced.antt =====
-- What src/filters/key_substitute.c leaves of the key that it replaces.
use libevfilter.Base.{
  ℕ, ◌+◌, ◌≡◌, refl, ◌≢◌, ◌⊎◌, inl, inr, Bool, true, false, ◌&&◌, some, List, [], ◌∷◌, arith, ◌==◌,
  if◌then◌else◌, length, map, select, Bool-cases, ap,
}
use libevfilter.Base.Int.{ℤ, pos, ◌==ℤ◌, to_u16, ==ℤ→eq, ==ℤ_refl, ==ℤ_ne}
use libevfilter.Event.{Event, ev_key, emit, run, run-cons}
use libevfilter.Filters.KeySubstitute.{KeySubstitute, modify}

abbrev pub is_press_of : ℤ → Event → Bool
is_press_of key ev = (ev.type == ev_key) && (pos ev.code ==ℤ key)

abbrev pub count : (Event → Bool) → List Event → ℕ
count p evs = length (select p evs)

-- The events of one key, as events of the other.
abbrev pub replaced : KeySubstitute → Event → Event
replaced s ev = if is_press_of s.key_from ev then record ev { code = to_u16 s.key_to } else ev

step :
    (s : KeySubstitute) (ev : Event)
    → modify emit s ev [] ≡ some (s, replaced s ev, replaced s ev ∷ [])
unfolding modify
step s ev = ground arith

none_left :
    (s : KeySubstitute) (ev : Event)
    → pos (to_u16 s.key_to) ≢ s.key_from
    → is_press_of s.key_from (replaced s ev) ≡ false
none_left s ev h = ground (arith, ==ℤ_ne (pos (to_u16 s.key_to)) s.key_from h)

counted :
    (s : KeySubstitute) (ev : Event)
    → pos (to_u16 s.key_to) ≢ s.key_from
    → let new = is_press_of (pos (to_u16 s.key_to)) in
      (is_press_of s.key_from ev ≡ true) × (new (replaced s ev) ≡ true) × (new ev ≡ false)
      ⊎ (is_press_of s.key_from ev ≡ false) × (new (replaced s ev) ≡ new ev)
counted s ev h = elim (Bool-cases (is_press_of s.key_from ev)) [
  | inl old ↦ inl (
    old,
    ground (arith, ==ℤ_refl (pos (to_u16 s.key_to))),
    ground (arith, ==ℤ→eq (pos ev.code) s.key_from, ==ℤ_ne (pos ev.code) (pos (to_u16 s.key_to))),
  )
  | inr other ↦ inr (other, ground arith)
]

-- If the new code is another one than the old key's, then over any stream the filter does not fail
-- and sends exactly the events of the stream, in their order, each as it is, but for those of the
-- old key, of which the code alone is replaced by the new one: no event of the old key is sent, and
-- the events of the new code are those of the two keys together.
pub run_replaces :
    (s : KeySubstitute) (evs : List Event)
    → pos (to_u16 s.key_to) ≢ s.key_from
    → (out : List Event) × (run (modify emit) s evs ≡ some (s, out))
      × (select (is_press_of s.key_from) out ≡ [])
      × (out ≡ map (replaced s) evs)
      × (count (is_press_of (pos (to_u16 s.key_to))) out
          ≡ count (is_press_of s.key_from) evs + count (is_press_of (pos (to_u16 s.key_to))) evs)
unfolding run
run_replaces s [] h = ([], refl, refl, refl, refl)
run_replaces s (ev ∷ evs) h =
    let (out, e, gone, len, n) = run_replaces s evs h in
    (
      replaced s ev ∷ out,
      run-cons (modify emit) ev evs (step s ev) e,
      rw (none_left s ev h) gone,
      ap (λ t. replaced s ev ∷ t) len,
      elim (counted s ev h) [
        | inl (old, new, ne) ↦ rw (new, old, ne) (omega arith)
        | inr (other, same) ↦ rw (same, other) (ground arith)
      ],
    )
