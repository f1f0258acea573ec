-- ===== src/Filters/Stages.antt =====
-- What filters of src/filters do that send some events on and no more.
pub mod Lines
use libevfilter.Base.{
  ◌≡◌, refl, sym, ap, ◌∙◌, append-nil, append_assoc, Bool, true, false, not, ◌&&◌, ◌||◌, Option,
  none, some, List, [], ◌∷◌, ◌++◌, ◌==◌, if◌then◌else◌, map,
}
use libevfilter.Base.Int.{ℤ, pos, ◌-ℤ◌, ◌==ℤ◌, to_int, to_u16}
use libevfilter.Event.{
  Event, Next, Modify, ev_key, ev_abs, abs_x, abs_y, nonzero, pass, swallow, emit,
}
use libevfilter.Event.Compose.{
  Step, Stage, States, settled, with_data, send_all, bind, line_of, in_turn, settled_line,
  line_in_turn,
}
use libevfilter.Filters.NoRepeat
use libevfilter.Filters.Mirror
use libevfilter.Filters.Rotate
use libevfilter.Filters.KeySubstitute
use libevfilter.Filters.KeyLock
use libevfilter.Filters.ScaleAbs

-- A call of `modify` that does no more than send the events of a step.
abbrev pub IsSent : {S D : Type 0} → Next D → D → Option (S × Event × D) → S × List Event → Type 0
IsSent next d o r = settled o ≡ with_data r.0 (send_all next r.1 d)

IsSent-if :
    {S D : Type 0} (next : Next D) (d : D) (b : Bool) (x y : Option (S × Event × D))
    (r q : S × List Event)
    → IsSent next d x r
    → IsSent next d y q
    → IsSent next d (if b then x else y) (if b then r else q)
IsSent-if next d true x y r q h k = h
IsSent-if next d false x y r q h k = k

after_pass :
    {S D : Type 0} (s : S) (o : Option (Event × D))
    → settled (elim o [ none ↦ none | some (ev', d') ↦ some (s, ev', d') ])
      ≡ with_data s (bind o (λ r. some r.1))
after_pass s none = refl
after_pass s (some (ev', d')) = refl

pass-IsSent :
    {S D : Type 0} (next : Next D) (s : S) (ev : Event) (d : D)
    → IsSent next d (pass next s ev d) (s, ev ∷ [])
unfolding send_all
pass-IsSent next s ev d = after_pass s (next ev d)

swallow-IsSent :
    {S D : Type 0} (next : Next D) (s : S) (ev : Event) (d : D)
    → IsSent next d (swallow s ev d) (s, [])
unfolding send_all
swallow-IsSent next s ev d = refl

-- What each of them sends.
abbrev pub no_repeat_step : Step NoRepeat.NoRepeat
no_repeat_step s ev =
    if not (ev.type == ev_key) || not (ev.value ==ℤ pos 2) then (s, ev ∷ []) else (s, [])

abbrev pub mirror_step : Step Mirror.Mirror
mirror_step s ev = (s, Mirror.mirror_abs s (Mirror.mirror_rel s ev) ∷ [])

abbrev pub rotate_step : Step Rotate.Rotate
rotate_step s ev = (s, Rotate.rotate_abs s (Rotate.rotate_rel s ev) ∷ [])

abbrev pub key_substitute_step : Step KeySubstitute.KeySubstitute
key_substitute_step s ev =
    if (ev.type == ev_key) && (pos ev.code ==ℤ s.key_from)
    then (s, record ev { code = to_u16 s.key_to } ∷ [])
    else (s, ev ∷ [])

abbrev lock_step : Step KeyLock.KeyLock
lock_step s ev =
    if (ev.type == ev_key) && (pos ev.code ==ℤ s.key)
    then (if ev.value ==ℤ pos 0
        then (record s { eat_next_sync = pos 1 }, [])
        else if ev.value ==ℤ pos 1
        then (if s.state ==ℤ pos 0
            then (record s { state = pos 1 }, ev ∷ [])
            else (record s { state = pos 0 }, record ev { value = pos 0 } ∷ []))
        else (s, ev ∷ []))
    else (s, ev ∷ [])

abbrev pub key_lock_step : Step KeyLock.KeyLock
key_lock_step s ev =
    if nonzero s.eat_next_sync
    then (if KeyLock.is_sync ev
        then (record s { eat_next_sync = pos 0 }, [])
        else lock_step (record s { eat_next_sync = pos 0 }) ev)
    else lock_step s ev

abbrev pub scale_abs_step : (ℤ → ℤ → ℤ) → Step ScaleAbs.Scale
scale_abs_step scaled s ev =
    if not (ev.type == ev_abs)
    then (s, ev ∷ [])
    else if ev.code == abs_x
    then (s, record ev { value = scaled (to_int (ev.value -ℤ s.minx)) s.maxx } ∷ [])
    else if ev.code == abs_y
    then (s, record ev { value = scaled (to_int (ev.value -ℤ s.miny)) s.maxy } ∷ [])
    else (s, ev ∷ [])

module _ {D : Type 0} (next : Next D) where
  pub no_repeat-IsSent :
      (s : NoRepeat.NoRepeat) (ev : Event) (d : D)
      → IsSent next d (NoRepeat.modify next s ev d) (no_repeat_step s ev)
  unfolding NoRepeat.modify
  no_repeat-IsSent s ev d =
      IsSent-if next d _ _ _ _ _ (pass-IsSent next s ev d) (swallow-IsSent next s ev d)

  pub key_substitute-IsSent :
      (s : KeySubstitute.KeySubstitute) (ev : Event) (d : D)
      → IsSent next d (KeySubstitute.modify next s ev d) (key_substitute_step s ev)
  unfolding KeySubstitute.modify
  key_substitute-IsSent s ev d =
      IsSent-if next d _ _ _ _ _ (pass-IsSent next s (record ev { code = to_u16 s.key_to }) d)
        (pass-IsSent next s ev d)

  lock-IsSent :
      (s : KeyLock.KeyLock) (ev : Event) (d : D)
      → IsSent next d (KeyLock.lock next s ev d) (lock_step s ev)
  unfolding KeyLock.lock
  lock-IsSent s ev d =
      IsSent-if next d _ _ _ _ _
        (IsSent-if next d (ev.value ==ℤ pos 0) _ _ _ _
          (swallow-IsSent next (record s { eat_next_sync = pos 1 }) ev d)
          (IsSent-if next d (ev.value ==ℤ pos 1) _ _ _ _
            (IsSent-if next d (s.state ==ℤ pos 0) _ _ _ _
              (pass-IsSent next (record s { state = pos 1 }) ev d)
              (pass-IsSent next (record s { state = pos 0 }) (record ev { value = pos 0 }) d))
            (pass-IsSent next s ev d)))
        (pass-IsSent next s ev d)

  pub key_lock-IsSent :
      (s : KeyLock.KeyLock) (ev : Event) (d : D)
      → IsSent next d (KeyLock.modify next s ev d) (key_lock_step s ev)
  unfolding KeyLock.modify
  key_lock-IsSent s ev d =
      IsSent-if next d (nonzero s.eat_next_sync) _ _ _ _
        (IsSent-if next d (KeyLock.is_sync ev) _ _ _ _
          (swallow-IsSent next (record s { eat_next_sync = pos 0 }) ev d)
          (lock-IsSent (record s { eat_next_sync = pos 0 }) ev d))
        (lock-IsSent s ev d)

  pub scale_abs-IsSent :
      (scaled : ℤ → ℤ → ℤ) (s : ScaleAbs.Scale) (ev : Event) (d : D)
      → IsSent next d (ScaleAbs.modify scaled next s ev d) (scale_abs_step scaled s ev)
  unfolding ScaleAbs.modify
  scale_abs-IsSent scaled s ev d = IsSent-if next d _ _ _ _ _ (pass-IsSent next s ev d) (
      IsSent-if next d (ev.code == abs_x) _ _ _ _ (pass-IsSent next s _ d) (
        IsSent-if next d (ev.code == abs_y) _ _ _ _ (pass-IsSent next s _ d)
          (pass-IsSent next s ev d)))

  pub mirror-IsSent :
      (s : Mirror.Mirror) (ev : Event) (d : D)
      → IsSent next d (Mirror.modify next s ev d) (mirror_step s ev)
  unfolding Mirror.modify
  mirror-IsSent s ev d = pass-IsSent next s (Mirror.mirror_abs s (Mirror.mirror_rel s ev)) d

  pub rotate-IsSent :
      (s : Rotate.Rotate) (ev : Event) (d : D)
      → IsSent next d (Rotate.modify next s ev d) (rotate_step s ev)
  unfolding Rotate.modify
  rotate-IsSent s ev d = pass-IsSent next s (Rotate.rotate_abs s (Rotate.rotate_rel s ev)) d
