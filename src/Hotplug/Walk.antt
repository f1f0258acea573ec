-- ===== src/Hotplug/Walk.antt =====
-- What src/evf_hotplug.c reports at the start, and when it fails.
use libevfilter.Base.{
  ℕ, suc, ◌≡◌, refl, ap, ◌∙◌, Bool, true, Option, none, some, List, [], ◌∷◌, map, select,
  Bool-cases, inl, inr,
}
use libevfilter.Base.Int.{pos, negsuc}
use libevfilter.Base.Text.{Text}
use libevfilter.Hotplug.{
  Statics, Host, is_event_name, dev_of, walk_names, walk, watch_dir, after_walk, hotplug_init,
  if_errno,
}

-- The calls of a callback for the names of a directory.
abbrev pub reported : Option ℕ → List Text → List (ℕ × Text)
reported none names = []
reported (some f) names = map (λ name. (f, dev_of name)) (select is_event_name names)

module _ {W : Type 0} (h : Host W) where
  abbrev pub make_calls : List (ℕ × Text) → W → W
  make_calls [] w = w
  make_calls ((f, dev) ∷ cs) w = make_calls cs (h.call f dev w)

  walk_names_lem :
      (plug : Option ℕ) (names : List Text) (w : W)
      → walk_names h names plug w ≡ make_calls (reported plug names) w
  unfolding walk_names
  walk_names_lem none [] w = refl
  walk_names_lem none (name ∷ names) w = walk_names_lem none names w
  walk_names_lem (some f) [] w = refl
  walk_names_lem (some f) (name ∷ names) w = elim (Bool-cases (is_event_name name)) [
    | inl event ↦ rw event (walk_names_lem (some f) names (h.call f (dev_of name) w))
    | inr other ↦ rw other (walk_names_lem (some f) names w)
  ]

  make_calls-errno :
      ((f : ℕ) (dev : Text) (w : W) → h.errno (h.call f dev w) ≡ h.errno w)
      → (cs : List (ℕ × Text)) (w : W) → h.errno (make_calls cs w) ≡ h.errno w
  make_calls-errno keep [] w = refl
  make_calls-errno keep ((f, dev) ∷ cs) w = make_calls-errno keep cs (h.call f dev w) ∙ keep f dev w

  walk-zero :
      (plug : Option ℕ) (names : List Text) (w : W)
      → h.errno (make_calls (reported plug names) (h.set_errno 0 w)) ≡ 0
      → walk h (some (record { names = names; error = none })) plug w
        ≡ (0, make_calls (reported plug names) (h.set_errno 0 w))
  unfolding walk
  walk-zero plug names w calm =
      ap (λ v. (if_errno (h.errno v), v)) (walk_names_lem plug names (h.set_errno 0 w))
      ∙ ap (λ e. (if_errno e, make_calls (reported plug names) (h.set_errno 0 w))) calm

  walk-suc :
      (plug : Option ℕ) (names : List Text) (e : ℕ) (w : W)
      → h.errno (make_calls (reported plug names) (h.set_errno 0 w)) ≡ suc e
      → walk h (some (record { names = names; error = none })) plug w
        ≡ (1, make_calls (reported plug names) (h.set_errno 0 w))
  unfolding walk
  walk-suc plug names e w left =
      ap (λ v. (if_errno (h.errno v), v)) (walk_names_lem plug names (h.set_errno 0 w))
      ∙ ap (λ e. (if_errno e, make_calls (reported plug names) (h.set_errno 0 w))) left

-- If the directory is read without an error, no callback leaves another `errno` than it finds, and
-- the kernel gives a descriptor and watches the directory, then `evf_hotplug_init` returns the
-- descriptor and keeps it and both callbacks, and it has called the first, if there is one, exactly
-- for the names that begin with "event", in their order, each with its path.
pub init-reported :
    {W : Type 0} (h : Host W) (plug unplug : Option ℕ) (names : List Text) (fd : ℕ) (s : Statics)
    (w : W)
    → ((f : ℕ) (dev : Text) (w : W) → h.errno (h.call f dev w) ≡ h.errno w)
    → ((e : ℕ) (w : W) → h.errno (h.set_errno e w) ≡ e)
    → hotplug_init h plug unplug (some (record { names = names; error = none })) (some fd) true s w
      ≡ (
        (
          pos fd,
          record { dev_plug = plug; dev_unplug = unplug; select_fd = fd; closed = s.closed },
        ),
        make_calls h (reported plug names) (h.set_errno 0 w),
      )
unfolding hotplug_init after_walk watch_dir
init-reported h plug unplug names fd s w keep sets =
    ap (after_walk (some fd) true (record s { dev_plug = plug; dev_unplug = unplug })) (
      walk-zero h plug names w
        (make_calls-errno h keep (reported plug names) (h.set_errno 0 w) ∙ sets 0 w))

-- If an error number stands in `errno` when the callbacks for the names have all been made, then
-- `evf_hotplug_init` fails without asking the kernel for a descriptor, though the directory was
-- read to its end.
pub errno_refuses :
    {W : Type 0} (h : Host W) (plug unplug : Option ℕ) (names : List Text) (inotify : Option ℕ)
    (watched : Bool) (s : Statics) (e : ℕ) (w : W)
    → h.errno (make_calls h (reported plug names) (h.set_errno 0 w)) ≡ suc e
    → hotplug_init h plug unplug (some (record { names = names; error = none })) inotify watched s w
      ≡ (
        (negsuc 0, record s { dev_plug = plug; dev_unplug = unplug }),
        make_calls h (reported plug names) (h.set_errno 0 w),
      )
unfolding hotplug_init after_walk
errno_refuses h plug unplug names inotify watched s e w left =
    ap (after_walk inotify watched (record s { dev_plug = plug; dev_unplug = unplug }))
      (walk-suc h plug names e w left)
