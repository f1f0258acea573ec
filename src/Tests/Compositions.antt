-- ===== src/Tests/Compositions.antt =====
-- A line of three filters of src/filters.
use libevfilter.Base.{◌≡◌, some, List, [], ◌∷◌}
use libevfilter.Base.Int.{pos, negsuc, to_u16, to_int, ◌*ℤ◌}
use libevfilter.Event.{Event, ev_key, ev_rel, rel_x, emit}
use libevfilter.Event.Compose.{States, send_all, line_of, in_turn}
use libevfilter.Filters.Mirror
use libevfilter.Filters.Stages.Lines.{
  Kind, key_substitute, no_repeat, mirror, stages_of, line_streams,
}
use libevfilter.Tests.FilterRuns.{event, syn}

abbrev kinds : List Kind
kinds = key_substitute ∷ no_repeat ∷ mirror ∷ []

-- The key 30 becomes the key 48, and movements along x are mirrored.
abbrev filters : States (stages_of kinds)
filters = (
  record { key_from = pos 30; key_to = pos 48 },
  (tt, (record { abs_x = pos 0; abs_y = pos 0; rel_x = pos 1; rel_y = pos 0 }, tt)),
)

abbrev stream : List Event
stream = event ev_key 30 (pos 1) ∷ event ev_key 30 (pos 2) ∷ event ev_rel rel_x (pos 7) ∷ syn ∷ []

abbrev sent : List Event
sent = event ev_key 48 (pos 1) ∷ event ev_rel rel_x (negsuc 6) ∷ syn ∷ []

line_streams_example :
    send_all (line_of (stages_of kinds) emit) stream (filters, []) ≡ some (filters, sent)
unfolding in_turn Mirror.mirror_rel Mirror.mirror_abs to_u16 to_int ◌*ℤ◌
line_streams_example = line_streams kinds stream [] filters
