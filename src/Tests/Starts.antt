-- ===== src/Tests/Starts.antt =====
-- A daemon that starts and ends, for src/evfd/evfd.c.
use libevfilter.Base.{
  ℕ, ◌≡◌, refl, arith, true, false, Option, none, some, List, [], ◌∷◌, ◌==◌, if◌then◌else◌,
}
use libevfilter.Base.Text.{Text, codes}
use libevfilter.FilterList.{Ptr, Node}
use libevfilter.FilterList.Attach.{Line}
use libevfilter.Config.Load.{loaded}
use libevfilter.IoQueue.{IoQueue, new, add}
use libevfilter.Msg.{initial}
use libevfilter.Lock.{Os, written, try_lock}
use libevfilter.Hotplug.{Statics, is_event_name, hotplug_init}
use libevfilter.Daemon.{Daemon}
use libevfilter.Daemon.Main.{
  Devices, Running, evfd_host, evfd_queue, Queue, Start, State, exits, state_of, start,
}
use libevfilter.Daemon.Second.{second_starts}
use libevfilter.Daemon.Errno.{errno_ends}
use libevfilter.Daemon.CleanUp.{Cleaned, leave}
use libevfilter.Daemon.CleanUp.Slots.{Slot, directory, with_line, membs_of}
use libevfilter.Daemon.CleanUp.Lines.{leave_cleans}

-- The number of a process is written as one byte, and every process that was asked for has ended.
abbrev os : Os
os = record {
  scan = λ t. elim t [ [] ↦ none | n ∷ _ ↦ some n ];
  print = λ n. n ∷ [];
  running = λ pid. false;
}

-- No device can be opened, and then `errno` is 13.
abbrev devices : Devices
devices = record {
  probe = λ dev. none;
  uinput = λ dev. none;
  setup = λ dev. record {
    opened = none;
    is_input = false;
    errno = 13;
    profile = loaded [];
    line_memory = none;
    commit_memory = none;
    barrier_memory = none;
    junk = none;
  };
  memory = λ dev. none;
}

abbrev statics : Statics
statics = record { dev_plug = none; dev_unplug = none; select_fd = 0; closed = [] }

abbrev daemon : Daemon ℕ
daemon = record {
  lines = λ l. none;
  world = record { memory = record { cell = λ p. none; freed = [] }; closed = [] };
  destroyed = [];
  out = 0;
}

abbrev no_queue : IoQueue
no_queue = record { cnt = 0; rfds = λ i. false; root = [] }

abbrev before : State (Running ℕ)
before = record {
  pid = 0;
  lock = none;
  msg = initial;
  statics = statics;
  rest = record { both = some (no_queue, daemon); errno = 0; released = none };
}

abbrev starts_in : List Text → Start
starts_in names = record {
  options = b'v' ∷ [];
  os = os;
  pid = 8;
  save = written;
  queue_memory = true;
  dir = some (record { names = names; error = none });
  inotify = some 4;
  watched = true;
  memb_memory = some 1000;
  forked = some 9;
}

abbrev no_errno : Text → ℕ
no_errno dev = 0

abbrev refused_errno : Text → ℕ
refused_errno dev = 13

abbrev queue : Queue (Running ℕ)
queue = evfd_queue 2

-- There is no device: the daemon comes to its loop as the process 9, and the process 8 ends.
abbrev running : State (Running ℕ)
running = state_of (start (evfd_host 9 devices 1 no_errno) queue 7 (starts_in []) before)

second_starts_example :
    (running.pid ≡ 9) × (try_lock os 11 written running.lock ≡ (true, some (11 ∷ [])))
unfolding start evfd_queue hotplug_init evfd_host try_lock new add
second_starts_example =
    second_starts (evfd_host 9 devices 1 no_errno) queue (starts_in []) 7 9 _ before running _ refl
      refl refl refl os 11 refl (omega arith) refl

errno_ends_example :
    (s' : State (Running ℕ)) × (start
        (evfd_host 9 devices 1 refused_errno)
        queue
        7
        (starts_in (codes "event0" ∷ codes "mice" ∷ []))
        before
      ≡ exits 1 s')
    × (s'.lock ≡ some (8 ∷ []))
unfolding start evfd_queue is_event_name try_lock new
errno_ends_example =
    errno_ends 9 devices 1 refused_errno queue 7 (starts_in (codes "event0" ∷ codes "mice" ∷ []))
      true 9 12 _ before _ _ [] (codes "mice" ∷ []) (codes "event0") refl refl refl refl refl refl
      refl refl

-- A queue with the directory and a line at 4, whose filters are at 2 and 6.
abbrev cells : Ptr → Option Node
cells p =
    if p == 2
    then some (record { free = none; next = some 6 })
    else if p == 6
    then some (record { free = some (some 9); next = none })
    else none

abbrev line : Line
line = record { begin = some 2; last = some 2; fd = 3; input_device = codes "/dev/input/event0" }

abbrev loaded_daemon : Cleaned ℕ
loaded_daemon = record {
  daemon = record {
    lines = λ l. (if l == 4 then some line else none);
    world = record { memory = record { cell = cells; freed = [] }; closed = [] };
    destroyed = [];
    out = 0;
  };
  ungrabbed = [];
}

abbrev slots : List Slot
slots =
    with_line (record { addr = 1000; fd = 3; read = 1; priv = 4 }) line (2 ∷ []) 6 (some 9)
    ∷ directory (record { addr = 1001; fd = 1; read = 2; priv = 0 })
    ∷ []

leave_cleans_example :
    (s' : Cleaned ℕ) × (leave (λ l. 2) true (membs_of slots) loaded_daemon (some (8 ∷ []))
      ≡ some (s', none))
    × (s'.daemon.world.memory.freed ≡ 2 ∷ 6 ∷ 4 ∷ [])
    × (s'.daemon.world.closed ≡ 3 ∷ [])
    × (s'.daemon.destroyed ≡ 9 ∷ [])
    × (s'.ungrabbed ≡ 3 ∷ [])
leave_cleans_example =
    leave_cleans (λ l. 2) true slots loaded_daemon (some (8 ∷ []))
      ((refl, refl, (refl, (_, refl, (refl, (_, refl, refl)))), refl, refl), (refl, tt))
      (refl, (refl, (refl, tt)))
