-- ===== src/Daemon/Second.antt =====
-- How the lock of src/evfd/evfd_lock.c and `main` of src/evfd/evfd.c go together.
use libevfilter.Base.{
  ℕ, ◌<◌, ◌≡◌, refl, sym, ap, subst, ◌∙◌, ◌^◌, arith, Bool, true, false, Option, none, some,
}
use libevfilter.Base.Int.{ℤ, pos, negsuc}
use libevfilter.Base.Text.{Text, codes}
use libevfilter.Msg.{Msg, msg_init}
use libevfilter.Lock.{Os, written, try_lock, try_lock-true, try_lock-ended}
use libevfilter.Hotplug.{Statics, Host}
use libevfilter.Daemon.Main.{
  goes, choose, Start, State, Outcome, exits, loops, Queue, background, added, watched, queued,
  on_lock, chosen, start,
}

-- A daemon that comes to its loop does so as a process, with a lock file.
abbrev RunsAs : {W : Type 0} → ℕ → Option Text → Outcome W → Type 0
RunsAs pid file (exits code s) = s.lock ≡ file
RunsAs pid file (loops s) = (s.pid ≡ pid) × (s.lock ≡ file)

-- The process that goes on.
abbrev pub GoesOnAs : Bool → Start → ℕ → Type 0
GoesOnAs true c pid = c.forked ≡ some pid
GoesOnAs false c pid = c.pid ≡ pid

module _ {W : Type 0} (h : Host W) (queue : Queue W) (c : Start) where
  background-RunsAs :
      (forked : Option ℕ) (pid : ℕ) (s : State W)
      → forked ≡ some pid
      → RunsAs pid s.lock (background h queue forked s)
  unfolding background
  background-RunsAs none pid s e = refl
  background-RunsAs (some child) pid s e = (ground (arith, e), refl)

  added-RunsAs :
      (daemonize : Bool) (pid : ℕ) (s : State W) (r : W × Bool)
      → GoesOnAs daemonize c pid
      → s.pid ≡ c.pid
      → RunsAs pid s.lock (added h queue c daemonize s r)
  unfolding added
  added-RunsAs daemonize pid s (w, false) e same = refl
  added-RunsAs false pid s (w, true) e same = (same ∙ e, refl)
  added-RunsAs true pid s (w, true) e same =
      background-RunsAs c.forked pid (record s { rest = w }) e

  watched-RunsAs :
      (daemonize : Bool) (pid : ℕ) (s : State W) (r : (ℤ × Statics) × W)
      → GoesOnAs daemonize c pid
      → s.pid ≡ c.pid
      → RunsAs pid s.lock (watched h queue c daemonize s r)
  unfolding watched
  watched-RunsAs daemonize pid s ((negsuc _, statics), w) e same = refl
  watched-RunsAs daemonize pid s ((pos fd, statics), w) e same =
      added-RunsAs daemonize pid (record s { statics = statics })
        (queue.add_hotplug fd c.memb_memory w) e same

  queued-RunsAs :
      (callback : ℕ) (daemonize : Bool) (pid : ℕ) (s : State W) (o : Option W)
      → GoesOnAs daemonize c pid
      → s.pid ≡ c.pid
      → RunsAs pid s.lock (queued h queue callback c daemonize s o)
  unfolding queued
  queued-RunsAs callback daemonize pid s none e same = refl
  queued-RunsAs callback daemonize pid s (some w) e same = watched-RunsAs daemonize pid s _ e same

  start-RunsAs :
      (callback : ℕ) (daemonize : Bool) (pid : ℕ) (m : Msg) (s : State W) (file : Option Text)
      → choose c.options true (msg_init (codes "evfd") s.msg) ≡ goes daemonize m
      → try_lock c.os c.pid c.save s.lock ≡ (true, file)
      → GoesOnAs daemonize c pid
      → RunsAs pid (some (c.os.print c.pid)) (start h queue callback c s)
  unfolding start chosen on_lock
  start-RunsAs callback daemonize pid m s file chose took e =
      subst (λ o. RunsAs pid (some (c.os.print c.pid)) (chosen h queue callback c s o)) (sym chose)
        (subst
          (λ r.
            RunsAs pid (some (c.os.print c.pid))
              (on_lock h queue callback c daemonize (record s { pid = c.pid; msg = m }) r))
          (sym took)
          (subst
            (λ f. RunsAs pid f (
              queued h queue callback c daemonize (record s { pid = c.pid; msg = m; lock = file })
                (queue.make c.queue_memory s.rest)))
            (try_lock-true c.os c.pid c.save s.lock file took)
            (queued-RunsAs callback daemonize pid (record s { pid = c.pid; msg = m; lock = file }) _
              e refl)))

  -- Whatever comes behind the lock, a daemon that has taken it leaves its number in the file when
  -- it exits before its loop.
  pub exits-lock :
      (callback code : ℕ) (daemonize : Bool) (pid : ℕ) (m : Msg) (s s' : State W)
      (file : Option Text)
      → choose c.options true (msg_init (codes "evfd") s.msg) ≡ goes daemonize m
      → try_lock c.os c.pid c.save s.lock ≡ (true, file)
      → GoesOnAs daemonize c pid
      → start h queue callback c s ≡ exits code s'
      → s'.lock ≡ some (c.os.print c.pid)
  exits-lock callback code daemonize pid m s s' file chose took e left =
      subst (RunsAs pid (some (c.os.print c.pid))) left
        (start-RunsAs callback daemonize pid m s file chose took e)

  -- A daemon that was started without the option -d and has come to its loop runs as another
  -- process than the one whose number is in the lock file. When that one has ended, and its number
  -- is read as it was written, any process takes the lock, though the daemon runs.
  pub second_starts :
      (callback child : ℕ) (m : Msg) (s s' : State W) (file : Option Text)
      → choose c.options true (msg_init (codes "evfd") s.msg) ≡ goes true m
      → try_lock c.os c.pid c.save s.lock ≡ (true, file)
      → c.forked ≡ some child
      → start h queue callback c s ≡ loops s'
      → (os : Os) (pid' : ℕ) → os.scan (c.os.print c.pid) ≡ some c.pid
      → c.pid < 2 ^ 31
      → os.running (pos c.pid) ≡ false
      → (s'.pid ≡ child) × (try_lock os pid' written s'.lock ≡ (true, some (os.print pid')))
  second_starts callback child m s s' file chose took e runs os pid' back fits ended =
      let (as_child, same) =
        subst (RunsAs child (some (c.os.print c.pid))) runs
          (start-RunsAs callback true child m s file chose took e) in
      (
        as_child,
        ap (try_lock os pid' written) same
            ∙ try_lock-ended os c.pid pid' (c.os.print c.pid) back fits ended,
      )
