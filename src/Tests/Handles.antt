-- ===== src/Tests/Handles.antt =====
-- Handles for src/evf_handle.c.
use libevfilter.Base.{true, select, ◌≡◌, refl, arith, none, some, List, [], ◌∷◌}
use libevfilter.Base.Text.{codes}
use libevfilter.Event.{Event}
use libevfilter.Handle.{Store, handle_send, handle_lookup}
use libevfilter.Filters.AtHandle.{Outs, to_line, feed}
use libevfilter.Filters.CopyToHandle.{CopyToHandle}
use libevfilter.Filters.CopyToHandle
use libevfilter.Filters.CopyToHandle.Meet.{arrive, met, get_then_copy}
use libevfilter.Filters.GetFromHandle.{GetFromHandle}
use libevfilter.Filters.GetFromHandle
use libevfilter.Filters.FilterToHandle.{FilterToHandle}
use libevfilter.Filters.FilterToHandle
use libevfilter.Filters.FilterToHandle.Parted.{send, busy, feed_parts}
use libevfilter.Base.Int.{pos}

abbrev no_handles : Store
no_handles = record { cell = λ a. none; handles = [] }

-- A line that leaves its events at another place.
abbrev moved : Event → Event
moved ev = record ev { value = pos 3 }

get_then_copy_example :
    (g : GetFromHandle) × (c : CopyToHandle) × (s₁ s₂ : Store) × (GetFromHandle.alloc
        (some 7)
        (some 500)
        1
        (codes "pen")
        no_handles
      ≡ some (some g, s₁))
    × (CopyToHandle.alloc true none (codes "pen") s₁ ≡ some (some c, s₂))
    × ((evs : List Event) (o : Outs)
        → feed (CopyToHandle.modify (handle_send (arrive 7 1 g moved) s₂) to_line) c evs o
          ≡ some (c, met moved evs o))
unfolding handle_lookup
get_then_copy_example = get_then_copy 500 none (codes "pen") 7 1 no_handles moved refl (omega arith)

-- The pressure of a pen goes to a handle, its position stays.
abbrev pen_filter : FilterToHandle
pen_filter = record {
  type = pos 3;
  code = pos 24;
  sync_flag = pos 0;
  ev_flag = pos 9;
  handle = 500;
}

abbrev position : Event
position = record { time = 1; type = 3; code = 0; value = pos 700 }

abbrev pressure : Event
pressure = record { time = 1; type = 3; code = 24; value = pos 50 }

abbrev sync_event : Event
sync_event = record { time = 1; type = 0; code = 0; value = pos 0 }

abbrev nothing_out : Outs
nothing_out = record { line = []; handle = [] }

abbrev pen_events : List Event
pen_events = position ∷ pressure ∷ sync_event ∷ []

feed_parts_example :
    (p' : FilterToHandle) × (o' : Outs) × (feed
        (FilterToHandle.modify send to_line)
        pen_filter
        pen_events
        nothing_out
      ≡ some (p', o'))
    × (select busy o'.line ≡ position ∷ [])
    × (select busy o'.handle ≡ pressure ∷ [])
feed_parts_example = feed_parts pen_events pen_filter nothing_out
