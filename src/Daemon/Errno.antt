-- ===== src/Daemon/Errno.antt =====
-- How `walk` of src/evf_hotplug.c and `device_plugged` of src/evfd/evfd.c go together.
use libevfilter.Base.{
  ℕ, suc, ◌≡◌, refl, ap, ◌∙◌, Bool, true, Option, none, some, List, [], ◌∷◌, ◌++◌, map, select,
  select-append, if◌then◌else◌,
}
use libevfilter.Base.Text.{Text, codes}
use libevfilter.Msg.{Msg, msg_init}
use libevfilter.Lock.{try_lock}
use libevfilter.Hotplug.{Host, is_event_name, dev_of, hotplug_init}
use libevfilter.Hotplug.Walk.{make_calls, reported, errno_refuses}
use libevfilter.Daemon.Main.{
  goes, choose, Devices, Running, evfd_host, Queue, Start, State, exits, queued, watched, on_lock,
  chosen, start,
}
use libevfilter.Daemon.Second.{GoesOnAs, exits-lock}

map-append : {A B : Type 0} (f : A → B) (xs ys : List A) → map f (xs ++ ys) ≡ map f xs ++ map f ys
map-append f [] ys = refl
map-append f (x ∷ xs) ys = ap (λ t. f x ∷ t) (map-append f xs ys)

reported_end :
    (f : ℕ) (names : List Text) (name : Text) (others : List Text)
    → is_event_name name ≡ true
    → select is_event_name others ≡ []
    → reported (some f) (names ++ (name ∷ others))
      ≡ reported (some f) names ++ ((f, dev_of name) ∷ [])
reported_end f names name others event rest =
    let chosen : select is_event_name (names ++ (name ∷ others))
        ≡ select is_event_name names ++ (name ∷ []) =
      select-append is_event_name names (name ∷ others)
      ∙ ap (λ t. select is_event_name names ++ t)
          (ap (λ b. if b then name ∷ select is_event_name others else select is_event_name others)
              event
            ∙ ap (λ t. name ∷ t) rest) in
    ap (map (λ n. (f, dev_of n))) chosen
    ∙ map-append (λ n. (f, dev_of n)) (select is_event_name names) (name ∷ [])

module _ {D : Type 0} (fuel : ℕ) (devices : Devices) (on_line : ℕ) (leaves_errno : Text → ℕ) where
  abbrev host : Host (Running D)
  host = evfd_host fuel devices on_line leaves_errno

  calls_end :
      (cs : List (ℕ × Text)) (f : ℕ) (dev : Text) (w : Running D)
      → host.errno (make_calls host (cs ++ ((f, dev) ∷ [])) w) ≡ leaves_errno dev
  unfolding evfd_host
  calls_end [] f dev w = refl
  calls_end ((g, other) ∷ cs) f dev w = calls_end cs f dev (host.call g other w)

  -- If what `device_plugged` does for the last of the devices in the directory leaves an error
  -- number in `errno`, then the daemon exits with 1 before its loop, though the directory was read
  -- to its end, and its number stays in the lock file.
  pub errno_ends :
      (queue : Queue (Running D)) (callback : ℕ) (c : Start) (daemonize : Bool) (pid e : ℕ)
      (m : Msg) (s : State (Running D)) (file : Option Text) (w : Running D)
      (names others : List Text) (name : Text)
      → choose c.options true (msg_init (codes "evfd") s.msg) ≡ goes daemonize m
      → try_lock c.os c.pid c.save s.lock ≡ (true, file)
      → GoesOnAs daemonize c pid
      → queue.make c.queue_memory s.rest ≡ some w
      → c.dir ≡ some (record { names = names ++ (name ∷ others); error = none })
      → is_event_name name ≡ true
      → select is_event_name others ≡ []
      → leaves_errno (dev_of name) ≡ suc e
      → (s' : State (Running D)) × (start host queue callback c s ≡ exits 1 s')
        × (s'.lock ≡ some (c.os.print c.pid))
  unfolding start chosen on_lock queued watched evfd_host
  errno_ends queue callback c daemonize pid e m s file w names others name chose took same made dir
        event rest left =
      let s₁ : State (Running D) = record s { pid = c.pid; msg = m } in
      let s₂ : State (Running D) = record s₁ { lock = file } in
      let all = names ++ (name ∷ others) in
      let statics = record s.statics { dev_plug = some callback; dev_unplug = none } in
      let w' = make_calls host (reported (some callback) all) (record w { errno = 0 }) in
      let errno : host.errno w' ≡ suc e =
        ap (λ cs. host.errno (make_calls host cs (record w { errno = 0 })))
          (reported_end callback names name others event rest)
        ∙ calls_end (reported (some callback) names) callback (dev_of name) (record w { errno = 0 })
        ∙ left in
      let run : start host queue callback c s
          ≡ exits 1 (record s₂ { statics = statics; rest = queue.finish w' }) =
        ap (chosen host queue callback c s) chose
        ∙ ap (on_lock host queue callback c daemonize s₁) took
        ∙ ap (queued host queue callback c daemonize s₂) made
        ∙ ap
            (λ d.
              watched host queue c daemonize s₂
                (hotplug_init host (some callback) none d c.inotify c.watched s.statics w))
            dir
        ∙ ap (watched host queue c daemonize s₂)
            (errno_refuses host (some callback) none all c.inotify c.watched s.statics e w errno) in
      (_, run, exits-lock host queue c callback 1 daemonize pid m s _ file chose took same run)
