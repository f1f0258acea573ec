-- ===== src/Daemon/CleanUp.antt =====
-- The end of `main` of src/evfd/evfd.c: every line of the queue is destroyed.
pub mod Slots
pub mod Lines
use libevfilter.Base.{
  ℕ, zero, suc, ◌≡◌, refl, sym, ap, subst, ◌∙◌, arith, Bool, true, false, Option, none, some, List,
  [], ◌∷◌, ◌++◌, ◌==◌, if◌then◌else◌, length, append_assoc, append-nil, Bool-cases, inl, inr,
}
use libevfilter.Base.Text.{Text}
use libevfilter.FilterList.{Ptr, Node, Memory, put, free_from}
use libevfilter.FilterList.Chain.{IsChain, is_in, AreApart}
use libevfilter.FilterList.Freed.{free_from-value, free_from-outside}
use libevfilter.FilterList.Attach.{Line}
use libevfilter.Line.{World, close, free, destroy}
use libevfilter.Line.Create.{commit_node}
use libevfilter.Line.Destroy.{destroy-some}
use libevfilter.IoQueue.{Memb, IoQueue, Host, wait}
use libevfilter.Lock.{release_lock}
use libevfilter.Daemon.{Daemon, set_line}

-- The daemon, and the descriptors that were ungrabbed.
pub record Cleaned (D : Type 0) : Type 0 where
  pub daemon : Daemon D
  pub ungrabbed : List ℕ

-- `(int)` of a pointer.
abbrev pub number_of : Option Ptr → ℕ
number_of none = 0
number_of (some n) = n

module _ {D : Type 0} where
  -- `evf_uinput_destroy` behind `evf_line_destroy`, with the result of that.
  unfoldable pub undone : Ptr → Line → Cleaned D → Option (Option Ptr × World) → Option (Cleaned D)
  undone l line s none = none
  undone l line s (some (priv, w)) = some (record {
    daemon = record {
      lines = set_line l none s.daemon.lines;
      world = w;
      destroyed = s.daemon.destroyed ++ (number_of priv ∷ []);
      out = s.daemon.out;
    };
    ungrabbed = s.ungrabbed ++ (line.fd ∷ []);
  })

  -- The line of a private pointer.
  unfoldable pub clean_line : ℕ → Ptr → Cleaned D → Option Line → Option (Cleaned D)
  unfolding undone
  clean_line fuel l s none = none
  clean_line fuel l s (some line) = undone l line s (destroy fuel l line s.daemon.world)

  -- The body of the loop; the daemon's queue holds a member without a private pointer.
  unfoldable pub clean_memb : ℕ → Memb → Cleaned D → Option (Cleaned D)
  unfolding clean_line
  clean_memb fuel i s =
      if i.priv == 0 then some s else clean_line fuel i.priv s (s.daemon.lines i.priv)

  -- The loop over the queue; `rounds` has a round for each filter of a line.
  unfoldable pub clean_up : (rounds : Ptr → ℕ) → List Memb → Cleaned D → Option (Cleaned D)
  clean_up rounds [] s = some s
  clean_up rounds (i ∷ rest) s = elim (clean_memb (rounds i.priv) i s) [
    | none ↦ none
    | some s' ↦ clean_up rounds rest s'
  ]

-- The loop of `main`: a round of the queue for each element, until a signal clears `looping`.
unfoldable pub serve : {W : Type 0} → ℕ → List (Host W) → IoQueue → W → Option (IoQueue × W)
serve fuel [] q w = some (q, w)
serve fuel (h ∷ hs) q w = elim (wait h fuel q w) [
  | none ↦ none
  | some (q', w', fine) ↦ serve fuel hs q' w'
]

-- What `main` does behind its loop, with the lock file: can it be removed?
unfoldable pub leave :
    {D : Type 0}
    → (rounds : Ptr → ℕ) (can_unlink : Bool) → List Memb
    → Cleaned D
    → Option Text
    → Option (Cleaned D × Option Text)
unfolding release_lock
leave rounds can_unlink membs s file = elim (clean_up rounds membs s) [
  | none ↦ none
  | some s' ↦ some (s', release_lock can_unlink file)
]
