-- ===== src/Daemon/CleanUp/Lines.antt =====
-- What the end of `main` of src/evfd/evfd.c leaves of the lines.
use libevfilter.Base.{
  ℕ, ◌≡◌, refl, sym, ap, ◌∙◌, arith, Bool, false, Option, none, some, List, [], ◌∷◌, ◌++◌, ◌==◌,
  if◌then◌else◌, length, append_assoc, append-nil,
}
use libevfilter.Base.Text.{Text}
use libevfilter.FilterList.{Ptr, Node}
use libevfilter.FilterList.Chain.{is_in, AreApart}
use libevfilter.FilterList.Freed.{free_from-value, free_from-outside}
use libevfilter.FilterList.Attach.{Line}
use libevfilter.Line.{World, close, free, destroy}
use libevfilter.Line.Create.{commit_node}
use libevfilter.Line.Destroy.{destroy-some}
use libevfilter.IoQueue.{Memb}
use libevfilter.Daemon.CleanUp.{Cleaned, number_of, undone, clean_line, clean_memb, clean_up, leave}
use libevfilter.Daemon.CleanUp.Slots.{
  Slot, directory, with_line, memb_of, membs_of, owned_by, owned, fd_of, fds_of, uinput_of,
  uinputs_of, IsSlot, AreSlots, AreSlots-Agree, apart_out, AreApart-left, AreApart-right, out_of,
}

joined :
    {A : Type 0} (xs us vs : List A) {ys zs : List A}
    → ys ≡ xs ++ us
    → zs ≡ ys ++ vs
    → zs ≡ xs ++ (us ++ vs)
joined xs us vs e f = f ∙ ap (λ t. t ++ vs) e ∙ append_assoc xs us vs

module _ {D : Type 0} (rounds : Ptr → ℕ) where
  abbrev lines_of : Cleaned D → Ptr → Option Line
  lines_of s = s.daemon.lines

  abbrev cell_of : Cleaned D → Ptr → Option Node
  cell_of s = s.daemon.world.memory.cell

  -- What is done for some members, of which these are freed, closed, destroyed and ungrabbed.
  record Done (ps : List Ptr) (fds uinputs : List ℕ) (s s' : Cleaned D) : Type 0 where
    frees : s'.daemon.world.memory.freed ≡ s.daemon.world.memory.freed ++ ps
    closes : s'.daemon.world.closed ≡ s.daemon.world.closed ++ fds
    destroys : s'.daemon.destroyed ≡ s.daemon.destroyed ++ uinputs
    ungrabs : s'.ungrabbed ≡ s.ungrabbed ++ fds
    outside :
        (a : Ptr)
        → is_in a ps ≡ false
        → (lines_of s' a ≡ lines_of s a) × (cell_of s' a ≡ cell_of s a)

  Done-nil : (s : Cleaned D) → Done [] [] [] s s
  Done-nil s = record {
    frees = sym (append-nil s.daemon.world.memory.freed);
    closes = sym (append-nil s.daemon.world.closed);
    destroys = sym (append-nil s.daemon.destroyed);
    ungrabs = sym (append-nil s.ungrabbed);
    outside = λ a out. (refl, refl);
  }

  Done-append :
      (ps ps' : List Ptr) (fds fds' uinputs uinputs' : List ℕ) (s s₁ s₂ : Cleaned D)
      → Done ps fds uinputs s s₁
      → Done ps' fds' uinputs' s₁ s₂
      → Done (ps ++ ps') (fds ++ fds') (uinputs ++ uinputs') s s₂
  Done-append ps ps' fds fds' uinputs uinputs' s s₁ s₂ d e = record {
    frees = joined s.daemon.world.memory.freed ps ps' d.frees e.frees;
    closes = joined s.daemon.world.closed fds fds' d.closes e.closes;
    destroys = joined s.daemon.destroyed uinputs uinputs' d.destroys e.destroys;
    ungrabs = joined s.ungrabbed fds fds' d.ungrabs e.ungrabs;
    outside = λ a out.
        let (in_first, in_second) = out_of a ps ps' out in
        let (lines₁, cell₁) = d.outside a in_first in
        let (lines₂, cell₂) = e.outside a in_second in (lines₂ ∙ lines₁, cell₂ ∙ cell₁);
  }

  clean_memb-line :
      (i : Memb) (line : Line) (front : List Ptr) (c : Ptr) (priv : Option Ptr) (s : Cleaned D)
      → IsSlot rounds (lines_of s) (cell_of s) (with_line i line front c priv)
      → AreApart (owned_by (with_line i line front c priv))
      → (s' : Cleaned D) × (clean_memb (rounds i.priv) i s ≡ some s')
        × Done (owned_by (with_line i line front c priv)) (line.fd ∷ []) (number_of priv ∷ []) s s'
  unfolding clean_memb clean_line undone free
  clean_memb-line i line front c priv s (there, at, chain, ends, enough) apart =
      let own = front ++ (c ∷ []) in
      let m = s.daemon.world.memory in
      let apart' = AreApart-left own (i.priv ∷ []) apart in
      let (m', run, log) =
        free_from-value front c line.begin none m (commit_node priv) priv chain apart' ends refl in
      let w' : World = close line.fd (record s.daemon.world { memory = free (some i.priv) m' }) in
      let destroyed : destroy (rounds i.priv) i.priv line s.daemon.world ≡ some (priv, w') =
        ap (λ n. destroy n i.priv line s.daemon.world) enough
        ∙ destroy-some (length own) i.priv line s.daemon.world priv m' run in
      let cleaned : clean_memb (rounds i.priv) i s ≡ undone i.priv line s (some (priv, w')) =
        ap (λ b. if b then some s else clean_line (rounds i.priv) i.priv s (lines_of s i.priv))
          there
        ∙ ap (clean_line (rounds i.priv) i.priv s) at
        ∙ ap (undone i.priv line s) destroyed in
      (
        _,
        cleaned,
        record {
          frees = ap (λ f. f ++ (i.priv ∷ [])) log ∙ append_assoc m.freed own (i.priv ∷ []);
          closes = refl;
          destroys = refl;
          ungrabs = refl;
          outside = λ a out.
              let (away, apart₁) = out_of a own (i.priv ∷ []) out in
              let other : (a == i.priv) ≡ false = ground (arith, apart₁) in
              (
                ap (λ b. if b then none else lines_of s a) other,
                ap (λ b. if b then none else m'.cell a) other
                    ∙ free_from-outside own line.begin none (some priv) m m' a chain apart' run
                        away,
              );
        },
      )

  clean_memb-Done :
      (slot : Slot) (s : Cleaned D)
      → IsSlot rounds (lines_of s) (cell_of s) slot
      → AreApart (owned_by slot)
      → (s' : Cleaned D) × (clean_memb (rounds (memb_of slot).priv) (memb_of slot) s ≡ some s')
        × Done (owned_by slot) (fd_of slot) (uinput_of slot) s s'
  unfolding clean_memb
  clean_memb-Done (directory i) s no_line apart = (s, rw no_line refl, Done-nil s)
  clean_memb-Done (with_line i line front c priv) s h apart =
      clean_memb-line i line front c priv s h apart

  clean_up-Done :
      (ss : List Slot) (s : Cleaned D)
      → AreSlots rounds (lines_of s) (cell_of s) ss
      → AreApart (owned ss)
      → (s' : Cleaned D) × (clean_up rounds (membs_of ss) s ≡ some s')
        × Done (owned ss) (fds_of ss) (uinputs_of ss) s s'
  unfolding clean_up
  clean_up-Done [] s h apart = (s, refl, Done-nil s)
  clean_up-Done (slot ∷ ss) s (h, k) apart =
      let (s₁, run, d) =
        clean_memb-Done slot s h (AreApart-left (owned_by slot) (owned ss) apart) in
      let k' =
        AreSlots-Agree rounds (lines_of s) (lines_of s₁) (cell_of s) (cell_of s₁) ss
          (λ a i. d.outside a (apart_out a (owned_by slot) (owned ss) apart i)) k in
      let (s₂, run', e) =
        clean_up-Done ss s₁ k' (AreApart-right (owned_by slot) (owned ss) apart) in
      (
        s₂,
        ap (λ o. elim o [ none ↦ none | some s' ↦ clean_up rounds (membs_of ss) s' ]) run ∙ run',
        Done-append _ _ _ _ _ _ s s₁ s₂ d e,
      )

-- If each member of the queue is that of the directory or that of a line as the daemon has made it,
-- and no two lines share a filter, then what `main` does behind its loop ends without a fault:
-- every filter of every line and every line are freed once each, in the order of the queue, every
-- descriptor of a line is ungrabbed and closed once, every uinput device is destroyed once, and
-- there is no lock file any more if it can be removed.
pub leave_cleans :
    {D : Type 0} (rounds : Ptr → ℕ) (can_unlink : Bool) (ss : List Slot) (s : Cleaned D)
    (file : Option Text)
    → AreSlots rounds s.daemon.lines s.daemon.world.memory.cell ss
    → AreApart (owned ss)
    → (s' : Cleaned D) × (leave rounds can_unlink (membs_of ss) s file
        ≡ some (s', (if can_unlink then none else file)))
      × (s'.daemon.world.memory.freed ≡ s.daemon.world.memory.freed ++ owned ss)
      × (s'.daemon.world.closed ≡ s.daemon.world.closed ++ fds_of ss)
      × (s'.daemon.destroyed ≡ s.daemon.destroyed ++ uinputs_of ss)
      × (s'.ungrabbed ≡ s.ungrabbed ++ fds_of ss)
unfolding leave
leave_cleans rounds can_unlink ss s file h apart =
    let (s', run, d) = clean_up-Done rounds ss s h apart in
    (
      s',
      ap (λ o. elim o [ none ↦ none | some s' ↦ some (s', (if can_unlink then none else file)) ])
          run,
      d.frees,
      d.closes,
      d.destroys,
      d.ungrabs,
    )
