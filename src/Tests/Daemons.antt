-- ===== src/Tests/Daemons.antt =====
-- A device that goes away for src/evfd/evfd.c.
use libevfilter.Base.{ℕ, ◌≡◌, refl, true, Bool, Option, none, some, [], ◌∷◌, if◌then◌else◌, ◌==◌}
use libevfilter.Base.Int.{pos}
use libevfilter.Base.Text.{codes}
use libevfilter.Event.{Event, Next}
use libevfilter.FilterList.{Ptr, Node, free_from, filter_free, filters_free}
use libevfilter.FilterList.Attach.{Line}
use libevfilter.Line.{gone, free, destroy}
use libevfilter.IoQueue.{Memb, IoQueue, wait_from}
use libevfilter.Daemon.{Daemon}
use libevfilter.Daemon.Gone.{host, gone_faults}

-- A line at 4 with a commit filter at 6, whose descriptor 3 is watched.
abbrev cells : Ptr → Option Node
cells p = if p == 6 then some (record { free = some (some 9); next = none }) else none

abbrev line : Line
line = record { begin = some 6; last = none; fd = 3; input_device = codes "/dev/input/event0" }

abbrev daemon : Daemon ℕ
daemon = record {
  lines = λ l. (if l == 4 then some line else none);
  world = record { memory = record { cell = cells; freed = [] }; closed = [] };
  destroyed = [];
  out = 0;
}

abbrev memb : Memb
memb = record { addr = 1000; fd = 3; read = 1; priv = 4 }

abbrev queue : IoQueue
queue = record { cnt = 1; rfds = λ i. (i == 3); root = memb ∷ [] }

abbrev no_filters : Line → Next ℕ
no_filters l ev n = some (ev, n)

abbrev any_event : Event
any_event = record { time = 0; type = 0; code = 0; value = pos 0 }

abbrev selects : ℕ → (ℕ → Bool) → Option (Daemon ℕ) → Bool × (ℕ → Bool)
selects bound watched d = (true, watched)

gone_faults_example :
    wait_from (host 1 (λ fd. gone) no_filters any_event selects) 5 (memb ∷ []) queue (some daemon)
    ≡ none
unfolding destroy filters_free free_from filter_free free
gone_faults_example =
    gone_faults 1 (λ fd. gone) no_filters any_event selects 5 [] memb [] queue line daemon _ _ refl
      (refl, tt) refl refl refl refl refl
