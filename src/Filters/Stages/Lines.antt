-- ===== src/Filters/Stages/Lines.antt =====
-- Lines that are made up of filters of src/filters, each as what stands behind another one.
use libevfilter.Base.{◌≡◌, sym, ap, ◌∙◌, append-nil, append_assoc, some, List, [], ◌∷◌, ◌++◌}
use libevfilter.Base.Int.{ℤ}
use libevfilter.Event.{Event, emit}
use libevfilter.Event.Compose.{Stage, States, with_data, send_all, line_of, in_turn, line_in_turn}
use libevfilter.Filters.NoRepeat
use libevfilter.Filters.Mirror
use libevfilter.Filters.Rotate
use libevfilter.Filters.KeySubstitute
use libevfilter.Filters.KeyLock
use libevfilter.Filters.ScaleAbs
use libevfilter.Filters.Stages.{
  no_repeat_step, mirror_step, rotate_step, key_substitute_step, key_lock_step, scale_abs_step,
  no_repeat-IsSent, mirror-IsSent, rotate-IsSent, key_substitute-IsSent, key_lock-IsSent,
  scale_abs-IsSent,
}

-- The filters that are taken here; `scaled` is the arithmetic of scale_abs.
pub data Kind : Type 0 where
  no_repeat mirror rotate key_substitute key_lock : Kind
  scale_abs : (ℤ → ℤ → ℤ) → Kind

-- The filters with their `modify` functions.
abbrev pub stage_of : Kind → Stage
stage_of no_repeat = record {
  own = NoRepeat.NoRepeat;
  modify = NoRepeat.modify;
  step = no_repeat_step;
  sends = no_repeat-IsSent;
}
stage_of mirror = record {
  own = Mirror.Mirror;
  modify = Mirror.modify;
  step = mirror_step;
  sends = mirror-IsSent;
}
stage_of rotate = record {
  own = Rotate.Rotate;
  modify = Rotate.modify;
  step = rotate_step;
  sends = rotate-IsSent;
}
stage_of key_substitute = record {
  own = KeySubstitute.KeySubstitute;
  modify = KeySubstitute.modify;
  step = key_substitute_step;
  sends = key_substitute-IsSent;
}
stage_of key_lock = record {
  own = KeyLock.KeyLock;
  modify = KeyLock.modify;
  step = key_lock_step;
  sends = key_lock-IsSent;
}
stage_of (scale_abs scaled) = record {
  own = ScaleAbs.Scale;
  modify = ScaleAbs.modify scaled;
  step = scale_abs_step scaled;
  sends = λ next. scale_abs-IsSent next scaled;
}

abbrev pub stages_of : List Kind → List Stage
stages_of [] = []
stages_of (k ∷ ks) = stage_of k ∷ stages_of ks

send_all-emit : (evs out : List Event) → send_all emit evs out ≡ some (out ++ evs)
unfolding send_all
send_all-emit [] out = ap some (sym (append-nil out))
send_all-emit (ev ∷ evs) out =
    send_all-emit evs (out ++ (ev ∷ [])) ∙ ap some (append_assoc out (ev ∷ []) evs)

-- A line of the filters no_repeat, mirror, rotate, key_substitute, key_lock and scale_abs, each as
-- often as wanted and in any order, does not fail on any stream: it sends what is left when each
-- filter has been run alone over the whole stream that the filter in front of it has sent, and
-- leaves each filter with the data that it has then.
pub line_streams :
    (ks : List Kind) (evs out : List Event) (t : States (stages_of ks))
    → send_all (line_of (stages_of ks) emit) evs (t, out)
      ≡ some ((in_turn (stages_of ks) t evs).0, out ++ (in_turn (stages_of ks) t evs).1)
line_streams ks evs out t =
    let (t', sent) = in_turn (stages_of ks) t evs in
    line_in_turn emit (stages_of ks) evs t out ∙ ap (with_data t') (send_all-emit sent out)
