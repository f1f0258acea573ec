-- ===== src/Daemon/Main.antt =====
-- `main` of src/evfd/evfd.c up to its loop, with `hotplug_data`: what the daemon starts with.
use libevfilter.Base.{ℕ, Bool, true, false, Option, none, some, List, [], ◌∷◌, ◌==◌, if◌then◌else◌}
use libevfilter.Base.Int.{ℤ, pos, negsuc}
use libevfilter.Base.Text.{Text, codes}
use libevfilter.Msg.{
  Msg, evf_stderr, evf_syslog, evf_debug, evf_warn, msg_init, verbosity_set, msg_output,
}
use libevfilter.Lock.{Os, Save, try_lock}
use libevfilter.IoQueue.{IoQueue, Released, new, add, destroy}
use libevfilter.Line.{Setup}
use libevfilter.Hotplug.{Statics, Host, Dir, Inotify, hotplug_init, rescan}
use libevfilter.Daemon.{Daemon, device_plugged}

-- What the loop on `getopt` gives: an exit, or whether to go into the background, and the
-- messages.
pub data Chosen : Type 0 where
  leaves : ℕ → Msg → Chosen
  goes : Bool → Msg → Chosen

-- The loop, over the characters that `getopt` returns.
unfoldable pub choose : List ℕ → Bool → Msg → Chosen
choose [] daemonize m = goes daemonize m
choose (c ∷ cs) daemonize m =
    if c == b'h'
    then leaves 0 m
    else if c == b'v'
    then choose cs daemonize (verbosity_set evf_debug m)
    else if c == b'q'
    then choose cs daemonize (verbosity_set evf_warn m)
    else if c == b'd'
    then choose cs false m
    else leaves 1 m

-- What the kernel does for each device: the name it tells, the uinput device, what creating the
-- line asks for, and the memory of a member of the queue.
pub record Devices : Type 0 where
  pub probe : Text → Option Text
  pub uinput : Text → Option ℕ
  pub setup : Text → Setup
  pub memory : Text → Option ℕ

-- The queue and the lines, with `errno` and what destroying the queue has released; `none` is an
-- access to freed memory.
pub record Running (D : Type 0) : Type 0 where
  pub both : Option (IoQueue × Daemon D)
  pub errno : ℕ
  pub released : Option Released

-- What `main` uses of src/evf_io_queue.c: whether there is a queue, a member for the descriptor of
-- the directory, and the end of the queue.
pub record Queue (W : Type 0) : Type 0 where
  pub make : Bool → W → Option W
  pub add_hotplug : ℕ → Option ℕ → W → W × Bool
  pub finish : W → W

module _ {D : Type 0} (fuel : ℕ) (devices : Devices) (on_line : ℕ) (leaves_errno : Text → ℕ) where
  -- `device_plugged` as it is called for a device, when no fault came before.
  unfoldable pub plugged : Text → Option (IoQueue × Daemon D) → Option (IoQueue × Daemon D)
  unfolding device_plugged
  plugged dev none = none
  plugged dev (some (q, d)) =
      device_plugged fuel (devices.probe dev) (devices.uinput dev) (devices.setup dev)
        (devices.memory dev) on_line dev q d

  -- The program behind src/evf_hotplug.c, whose only callback is `device_plugged`; `leaves_errno`
  -- is what stands in `errno` behind it.
  unfoldable pub evfd_host : Host (Running D)
  unfolding plugged
  evfd_host = record {
    call = λ f dev w. record w { both = plugged dev w.both; errno = leaves_errno dev };
    errno = λ w. w.errno;
    set_errno = λ e w. record w { errno = e };
  }

-- `hotplug_data`, whose result is EVF_IO_QUEUE_OK; `none` is a fault in `evf_hotplug_rescan`.
unfoldable pub hotplug_data :
    {W : Type 0} → Host W → Inotify → ℕ → Statics → Option (List ℕ) → W → Option (ℕ × W)
hotplug_data h k fuel s got w = elim (rescan h k fuel s got w) [
  | none ↦ none
  | some (_, w') ↦ some (0, w')
]

-- The calls of `main` on its surroundings: the process, its lock file, memory for the queue and
-- for the member of the hotplug descriptor, what src/evf_hotplug.c gets, and the process that
-- `daemon` goes on in, if it does.
pub record Start : Type 0 where
  pub options : List ℕ
  pub os : Os
  pub pid : ℕ
  pub save : Save
  pub queue_memory : Bool
  pub dir : Option Dir
  pub inotify : Option ℕ
  pub watched : Bool
  pub memb_memory : Option ℕ
  pub forked : Option ℕ

-- What `main` has: the process, the lock file, the messages, the statics of src/evf_hotplug.c, and
-- the rest.
pub record State (W : Type 0) : Type 0 where
  pub pid : ℕ
  pub lock : Option Text
  pub msg : Msg
  pub statics : Statics
  pub rest : W

-- An exit with a code, or the loop.
pub data Outcome (W : Type 0) : Type 0 where
  exits : ℕ → State W → Outcome W
  loops : State W → Outcome W

abbrev pub state_of : {W : Type 0} → Outcome W → State W
state_of (exits code s) = s
state_of (loops s) = s

module _ {W : Type 0} (h : Host W) (queue : Queue W) where
  -- `daemon(0, 0)`: the caller ends and another process goes on.
  unfoldable pub background : Option ℕ → State W → Outcome W
  background none s = exits 1 (record s { msg = msg_output evf_syslog true s.msg })
  background (some child) s = loops (record s {
    pid = child;
    msg = msg_output evf_stderr false (msg_output evf_syslog true s.msg);
  })

  -- Behind `evf_io_queue_add`.
  unfoldable pub added : Start → Bool → State W → W × Bool → Outcome W
  unfolding background
  added c daemonize s (w, false) = exits 1 (record s { rest = queue.finish w })
  added c daemonize s (w, true) =
      if daemonize
      then background c.forked (record s { rest = w })
      else loops (record s { rest = w })

  -- Behind `evf_hotplug_init`.
  unfoldable pub watched : Start → Bool → State W → (ℤ × Statics) × W → Outcome W
  unfolding added
  watched c daemonize s ((negsuc _, statics), w) =
      exits 1 (record s { statics = statics; rest = queue.finish w })
  watched c daemonize s ((pos fd, statics), w) =
      added c daemonize (record s { statics = statics }) (queue.add_hotplug fd c.memb_memory w)

  -- Behind `evf_io_queue_new`; `callback` stands for `device_plugged`.
  unfoldable pub queued : ℕ → Start → Bool → State W → Option W → Outcome W
  unfolding watched
  queued callback c daemonize s none = exits 1 s
  queued callback c daemonize s (some w) =
      watched c daemonize s
        (hotplug_init h (some callback) none c.dir c.inotify c.watched s.statics w)

  -- Behind `evfd_try_lock`.
  unfoldable pub on_lock : ℕ → Start → Bool → State W → Bool × Option Text → Outcome W
  unfolding queued
  on_lock callback c daemonize s (false, file) = exits 1 (record s { lock = file })
  on_lock callback c daemonize s (true, file) =
      queued callback c daemonize (record s { lock = file }) (queue.make c.queue_memory s.rest)

  -- Behind the options.
  unfoldable pub chosen : ℕ → Start → State W → Chosen → Outcome W
  unfolding on_lock
  chosen callback c s (leaves code m) = exits code (record s { msg = m })
  chosen callback c s (goes daemonize m) =
      on_lock callback c daemonize (record s { pid = c.pid; msg = m })
        (try_lock c.os c.pid c.save s.lock)

  -- `main`, up to its loop.
  unfoldable pub start : ℕ → Start → State W → Outcome W
  unfolding choose chosen
  start callback c s = chosen callback c s (choose c.options true (msg_init (codes "evfd") s.msg))

-- The daemon's queue; the member for the directory has no private pointer.
unfoldable pub evfd_queue : {D : Type 0} → (on_hotplug : ℕ) → Queue (Running D)
evfd_queue on_hotplug = record {
  make = λ memory w. elim (new memory) [
    | none ↦ none
    | some q ↦ elim w.both [ none ↦ some w | some (_, d) ↦ some (record w { both = some (q, d) }) ]
  ];
  add_hotplug = λ fd memory w. elim w.both [
    | none ↦ (w, false)
    | some (q, d) ↦
        let (q', is_added) = add q memory fd on_hotplug 0 in
        (record w { both = some (q', d) }, is_added)
  ];
  finish = λ w. elim w.both [ none ↦ w | some (q, d) ↦ record w { released = some (destroy q 0) } ];
}
