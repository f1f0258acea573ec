-- ===== src/Daemon/Gone.antt =====
-- A device that goes away: src/evfd/evfd.c and src/evf_io_queue.c.
use libevfilter.Base.{ℕ, ◌≡◌, refl, ap, ◌∙◌, true, false, Bool, Option, none, some, List, ◌∷◌, ◌++◌}
use libevfilter.Event.{Event, Next}
use libevfilter.FilterList.{Ptr}
use libevfilter.FilterList.Attach.{Line}
use libevfilter.Line.{World, Read, gone, process, destroy}
use libevfilter.IoQueue.{Memb, IoQueue, Host, wait_from}
use libevfilter.IoQueue.Wait.{AreApart}
use libevfilter.IoQueue.Invariant.{has_fd}
use libevfilter.IoQueue.Removal.{removal_faults}
use libevfilter.Daemon.{Daemon, set_line, drop_line, settle_line, line_data, with_rem}

module _ {D : Type 0} (fuel : ℕ) (reads : ℕ → Read) (filters : Line → Next D) (junk : Event) where
  -- The daemon as the host of its queue, with nothing left after a fault of a callback.
  abbrev called : Option (ℕ × Daemon D) → IoQueue → ℕ × IoQueue × Option (Daemon D)
  called none q = (0, q, none)
  called (some (ret, d)) q = (ret, q, some d)

  abbrev call_line : Memb → IoQueue → Option (Daemon D) → ℕ × IoQueue × Option (Daemon D)
  call_line m q none = (0, q, none)
  call_line m q (some d) = called (line_data fuel reads filters junk m d) q

  -- The queue sees no flag to close or free, and `select` is a parameter.
  abbrev pub host :
      (ℕ → (ℕ → Bool) → Option (Daemon D) → Bool × (ℕ → Bool)) → Host (Option (Daemon D))
  host select = record { call = call_line; select = select; close = λ fd w. w; free = λ p w. w }

  drop_line-some :
      (l : Ptr) (line : Line) (d : Daemon D) (priv : Option Ptr) (w : World)
      → destroy fuel l line d.world ≡ some (priv, w)
      → drop_line fuel l line d ≡ some (record d { world = w; lines = set_line l none d.lines })
  unfolding drop_line
  drop_line-some l line d priv w e = simp (drop_line, e)

  settle_line-gone :
      (l : Ptr) (line : Line) (d : Daemon D) (priv : Option Ptr) (w : World) (r : Read)
      → r ≡ gone
      → destroy fuel l line d.world ≡ some (priv, w)
      → settle_line fuel l line d (process (filters line) junk r d.out)
        ≡ some (1, record d { world = w; lines = set_line l none d.lines })
  unfolding settle_line process
  settle_line-gone l line d priv w r off ends =
      ap (λ x. settle_line fuel l line d (process (filters line) junk x d.out)) off
      ∙ ap with_rem (drop_line-some l line d priv w ends)

  line_data-gone :
      (m : Memb) (line : Line) (d : Daemon D) (priv : Option Ptr) (w : World)
      → d.lines m.priv ≡ some line
      → reads line.fd ≡ gone
      → destroy fuel m.priv line d.world ≡ some (priv, w)
      → line_data fuel reads filters junk m d
        ≡ some (1, record d { world = w; lines = set_line m.priv none d.lines })
  unfolding line_data
  line_data-gone m line d priv w at off ends =
      let e = settle_line-gone m.priv line d priv w (reads line.fd) off ends in
      simp (line_data, at, e)

  -- When the device of a line is gone and its descriptor is ready, `line_data` destroys the line
  -- and has its member removed, and the round of the daemon's queue then reads the member that was
  -- freed: the round ends in a fault, whatever the fuel.
  pub gone_faults :
      (select : ℕ → (ℕ → Bool) → Option (Daemon D) → Bool × (ℕ → Bool)) (rounds : ℕ)
      (pre : List Memb) (m : Memb) (rest : List Memb) (q : IoQueue) (line : Line) (d : Daemon D)
      (priv : Option Ptr) (w : World)
      → q.root ≡ pre ++ m ∷ rest
      → AreApart q.root
      → has_fd m.fd pre ≡ false
      → q.rfds m.fd ≡ true
      → d.lines m.priv ≡ some line
      → reads line.fd ≡ gone
      → destroy fuel m.priv line d.world ≡ some (priv, w)
      → wait_from (host select) rounds (m ∷ rest) q (some d) ≡ none
  gone_faults select rounds pre m rest q line d priv w e apart first ready at off ends =
      let d' = record d { world = w; lines = set_line m.priv none d.lines } in
      removal_faults (host select) rounds 1 pre m rest q (some d) (some d') e apart first ready
        (ap (λ r. called r q) (line_data-gone m line d priv w at off ends)) refl
