-- ===== src/Tests/FilterSteps.antt =====
-- Single events for the filters of src/filters.

use libevfilter.Base.Int.{pos}
use libevfilter.Event.{Event, ev_abs, abs_x}
use libevfilter.Tests.FilterRuns.{event}

abbrev touch : Event
touch = event ev_abs abs_x (pos 300)
