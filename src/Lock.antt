-- ===== src/Lock.antt =====
-- src/evfd/evfd_lock.c: the lock file by which only one daemon runs.
pub mod Race
use libevfilter.Base.{
  ℕ, ◌<◌, ◌≡◌, refl, sym, subst, ap, ◌∙◌, ◌^◌, inl, inr, Bool-cases, arith, Bool, true, false,
  Option, none, some, if◌then◌else◌,
}
use libevfilter.Base.Int.{ℤ, pos, ◌==ℤ◌, to_int, to_int_fits}
use libevfilter.Base.Text.{Text}

-- The C library and the kernel: `scan` is `fscanf` of `%llu`, `print` what `fprintf` writes for a
-- process, and `running` says whether /proc has the process.
pub record Os : Type 0 where
  pub scan : Text → Option ℕ
  pub print : ℕ → Text
  pub running : ℤ → Bool

-- What comes of writing the file: it cannot be opened, writing or closing fails with that text in
-- the file, or all is written.
pub data Save : Type 0 where
  no_file : Save
  partly : Text → Save
  written : Save

-- `pid_save`: its result, and the lock file.
unfoldable pub pid_save : Os → ℕ → Save → Option Text → Bool × Option Text
pid_save os pid no_file file = (false, file)
pid_save os pid (partly t) file = (false, some t)
pid_save os pid written file = (true, some (os.print pid))

-- `load_pid`; `none` is a file that cannot be read.
unfoldable pub load_pid : Os → Option Text → ℤ
load_pid os none = pos 0
load_pid os (some t) = elim (os.scan t) [ none ↦ pos 0 | some i ↦ to_int (pos i) ]

-- May the lock be taken, with this process in the file?
unfoldable pub is_free : Os → ℤ → Bool
is_free os pid = if pid ==ℤ pos 0 then true else if os.running pid then false else true

-- `evfd_try_lock` of the process `pid`.
unfoldable pub try_lock : Os → ℕ → Save → Option Text → Bool × Option Text
unfolding pid_save load_pid is_free
try_lock os pid save file =
    if is_free os (load_pid os file) then pid_save os pid save file else (false, file)

-- `evfd_release_lock`, with what `unlink` does.
unfoldable pub release_lock : Bool → Option Text → Option Text
release_lock can_unlink file = if can_unlink then none else file

-- What a lock that was taken leaves in the file.
pid_save-true :
    (os : Os) (pid : ℕ) (save : Save) (file file' : Option Text)
    → pid_save os pid save file ≡ (true, file')
    → file' ≡ some (os.print pid)
unfolding pid_save
pid_save-true os pid no_file file file' e = ground (arith, e)
pid_save-true os pid (partly t) file file' e = ground (arith, e)
pid_save-true os pid written file file' e = sym (ap (λ p. p.1) e)

pub try_lock-true :
    (os : Os) (pid : ℕ) (save : Save) (file file' : Option Text)
    → try_lock os pid save file ≡ (true, file')
    → file' ≡ some (os.print pid)
unfolding try_lock
try_lock-true os pid save file file' e = elim (Bool-cases (is_free os (load_pid os file))) [
  | inl free ↦ pid_save-true os pid save file file' (sym (rw free refl) ∙ e)
  | inr busy ↦ ground (arith, busy, e)
]

pub load_pid-scan :
    (os : Os) (pid : ℕ) (t : Text)
    → os.scan t ≡ some pid
    → pid < 2 ^ 31
    → load_pid os (some t) ≡ pos pid
unfolding load_pid
load_pid-scan os pid t back fits =
    simp (load_pid, back, to_int_fits (pos pid) (omega (arith, fits)))

is_free-ended : (os : Os) (pid : ℤ) → os.running pid ≡ false → is_free os pid ≡ true
unfolding is_free
is_free-ended os pid ended = elim (Bool-cases (pid ==ℤ pos 0)) [
  | inl no_pid ↦ rw no_pid refl
  | inr other ↦ rw (other, ended) refl
]

-- A lock that names a process which has ended is taken.
pub try_lock-ended :
    (os : Os) (pid pid' : ℕ) (t : Text)
    → os.scan t ≡ some pid
    → pid < 2 ^ 31
    → os.running (pos pid) ≡ false
    → try_lock os pid' written (some t) ≡ (true, some (os.print pid'))
unfolding try_lock pid_save
try_lock-ended os pid pid' t back fits ended =
    let free : is_free os (load_pid os (some t)) ≡ true =
      ap (is_free os) (load_pid-scan os pid t back fits) ∙ is_free-ended os (pos pid) ended in
    rw free refl

is_free-running :
    (os : Os) (pid : ℕ) → os.running (pos pid) ≡ true → 0 < pid → is_free os (pos pid) ≡ false
unfolding is_free
is_free-running os pid alive positive =
    let other : (pos pid ==ℤ pos 0) ≡ false = ground arith in rw (other, alive) refl

try_lock-busy :
    (os : Os) (pid : ℕ) (save : Save) (file : Option Text)
    → is_free os (load_pid os file) ≡ false
    → try_lock os pid save file ≡ (false, file)
unfolding try_lock
try_lock-busy os pid save file busy = rw busy refl

-- The lock of a process that is running is not taken.
pub try_lock-held :
    (os : Os) (pid pid' : ℕ) (save : Save)
    → os.scan (os.print pid) ≡ some pid
    → os.running (pos pid) ≡ true
    → 0 < pid
    → pid < 2 ^ 31
    → try_lock os pid' save (some (os.print pid)) ≡ (false, some (os.print pid))
try_lock-held os pid pid' save back alive positive fits =
    try_lock-busy os pid' save (some (os.print pid)) (
      ap (is_free os) (load_pid-scan os pid (os.print pid) back fits)
      ∙ is_free-running os pid alive positive)

-- If a process has taken the lock, and is running, and its number is read as it was written, then
-- no process takes the lock, whatever writing does, and the file stays as it is.
pub lock_excludes :
    (os : Os) (pid pid' : ℕ) (save save' : Save) (file file' : Option Text)
    → try_lock os pid save file ≡ (true, file')
    → os.scan (os.print pid) ≡ some pid
    → os.running (pos pid) ≡ true
    → 0 < pid
    → pid < 2 ^ 31
    → try_lock os pid' save' file' ≡ (false, file')
lock_excludes os pid pid' save save' file file' e back alive positive fits =
    let same = try_lock-true os pid save file file' e in
    subst (λ f. try_lock os pid' save' f ≡ (false, f)) (sym same)
      (try_lock-held os pid pid' save' back alive positive fits)
