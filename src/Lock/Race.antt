-- ===== src/Lock/Race.antt =====
-- Several daemons that start: the lock of src/evfd/evfd_lock.c taken at once, and in its two steps.
use libevfilter.Base.{
  ℕ, ◌<◌, ◌≡◌, ◌≢◌, inl, inr, refl, sym, ap, subst, ◌∙◌, ◌^◌, arith, Bool, true, false, Option,
  some, ◌==◌, if◌then◌else◌, Bool-cases,
}
use mathlib.Core.Option.{some-injective}
use libevfilter.Base.Int.{pos}
use libevfilter.Base.Text.{Text}
use libevfilter.Lock.{
  Os, Save, written, pid_save, load_pid, is_free, try_lock, release_lock, try_lock-true,
  try_lock-held,
}

-- How far a process is with the lock.
pub data Phase : Type 0 where
  idle looked holds refused : Phase

-- The lock file, and the processes by their numbers.
pub record Race : Type 0 where
  pub file : Option Text
  pub phase : ℕ → Phase

abbrev pub set_phase : ℕ → Phase → (ℕ → Phase) → ℕ → Phase
set_phase p x phase q = if q == p then x else phase q

-- The outcome of a process that has tried.
abbrev pub tried : ℕ → Bool × Option Text → Race → Race
tried p r s = record { file = r.1; phase = set_phase p (if r.0 then holds else refused) s.phase }

-- A process that is running, whose number is read as it was written.
pub record IsProcess (os : Os) (p : ℕ) : Type 0 where
  pub positive : 0 < p
  pub fits : p < 2 ^ 31
  pub back : os.scan (os.print p) ≡ some p
  pub alive : os.running (pos p) ≡ true

module _ (os : Os) where
  -- `evfd_try_lock` and `evfd_release_lock`, each at once.
  pub data Turn : Race → Race → Type 0 where
    take :
        (s : Race) (p : ℕ) (v : Save) → IsProcess os p → Turn s (tried p (try_lock os p v s.file) s)
    give :
        (s : Race) (p : ℕ) (can_unlink : Bool)
        → s.phase p ≡ holds
        → Turn s
            (record { file = release_lock can_unlink s.file; phase = set_phase p idle s.phase })

  -- The code's own steps: the file is read, and then it is written.
  pub data Step : Race → Race → Type 0 where
    read_pid :
        (s : Race) (p : ℕ)
        → Step s (record s {
          phase = set_phase p (if is_free os (load_pid os s.file) then looked else refused) s.phase;
        })
    write_pid :
        (s : Race) (p : ℕ) (v : Save)
        → s.phase p ≡ looked
        → Step s (tried p (pid_save os p v s.file) s)

-- What a relation reaches.
pub data Reach (R : Race → Race → Type 0) (s : Race) : Race → Type 0 where
  here : Reach R s s
  next : {t u : Race} → Reach R s t → R t u → Reach R s u

-- A process that holds the lock is named in the file.
abbrev pub IsNamed : Os → Race → Type 0
IsNamed os s = (p : ℕ) → s.phase p ≡ holds → (s.file ≡ some (os.print p)) × IsProcess os p

module _ (os : Os) where
  -- Two processes that are named in the file are the same.
  same_process :
      (p q : ℕ) (file : Option Text)
      → file ≡ some (os.print p)
      → file ≡ some (os.print q)
      → IsProcess os p
      → IsProcess os q
      → p ≡ q
  same_process p q file e f is is' =
      some-injective _ _ (sym is.back ∙ ap os.scan (some-injective _ _ (sym e ∙ f)) ∙ is'.back)

  tried-holds :
      (r : Bool × Option Text) (p : ℕ) (v : Save) (file : Option Text)
      → try_lock os p v file ≡ r
      → (if r.0 then holds else refused) ≡ holds
      → r.1 ≡ some (os.print p)
  tried-holds (true, file') p v file e h = try_lock-true os p v file file' e
  tried-holds (false, file') p v file e h = ground (arith, h)

  Turn-IsNamed : {s t : Race} → Turn os s t → IsNamed os s → IsNamed os t
  Turn-IsNamed (take s p v is) named q held =
      let r = try_lock os p v s.file in
      elim (Bool-cases (q == p)) [
        | inl same ↦
            let q_is : q ≡ p = ground (arith, same) in
            let took : (if r.0 then holds else refused) ≡ holds =
              sym (ap (λ b. if b then (if r.0 then holds else refused) else s.phase q) same)
              ∙ held in
            subst (λ x. (r.1 ≡ some (os.print x)) × IsProcess os x) (sym q_is)
              (tried-holds r p v s.file refl took, is)
        | inr other ↦
            let before : s.phase q ≡ holds =
              sym (ap (λ b. if b then (if r.0 then holds else refused) else s.phase q) other)
              ∙ held in
            let (file, is_q) = named q before in
            let busy = try_lock-held os q p v is_q.back is_q.alive is_q.positive is_q.fits in
            (ap (λ f. (try_lock os p v f).1) file ∙ ap (λ x. x.1) busy, is_q)
      ]
  Turn-IsNamed (give s p can_unlink mine) named q held = elim (Bool-cases (q == p)) [
    | inl same ↦
        let gone : idle ≡ holds = sym (ap (λ b. if b then idle else s.phase q) same) ∙ held in
        ground (arith, gone)
    | inr other ↦
        let before : s.phase q ≡ holds =
          sym (ap (λ b. if b then idle else s.phase q) other) ∙ held in
        let (file_p, is_p) = named p mine in
        let (file_q, is_q) = named q before in
        let one : p ≡ q = same_process p q s.file file_p file_q is_p is_q in
        absurd (ground (arith, one, other))
  ]

  Reach-IsNamed : {s t : Race} → IsNamed os s → Reach (Turn os) s t → IsNamed os t
  Reach-IsNamed named here = named
  Reach-IsNamed named (next before turn) = Turn-IsNamed turn (Reach-IsNamed named before)

  -- If each process takes or releases the lock at once, then, from a state in which none holds it,
  -- and whatever writing the file and removing it do, at most one of any number of processes holds
  -- the lock in any state that is reached, and the file names it.
  pub one_holds :
      {s t : Race}
      → ((p : ℕ) → s.phase p ≢ holds)
      → Reach (Turn os) s t
      → (p q : ℕ) → t.phase p ≡ holds
      → t.phase q ≡ holds
      → (p ≡ q) × (t.file ≡ some (os.print p))
  one_holds none_holds run p q h k =
      let named = Reach-IsNamed (λ x e. absurd (none_holds x e)) run in
      let (file, is) = named p h in
      let (file', is') = named q k in (same_process p q _ file file' is is', file)

  -- In the two steps of the code, two processes that both find the lock free both hold it in the
  -- end, and the file names the one that was the last to write.
  pub both_hold :
      (s : Race) (p q : ℕ)
      → p ≢ q
      → is_free os (load_pid os s.file) ≡ true
      → (t : Race) × Reach (Step os) s t
        × (t.phase p ≡ holds)
        × (t.phase q ≡ holds)
        × (t.file ≡ some (os.print q))
  unfolding pid_save
  both_hold s p q differ free =
      let s₁ : Race = record s {
        phase = set_phase p (if is_free os (load_pid os s.file) then looked else refused) s.phase;
      } in
      let s₂ : Race = record s₁ {
        phase = set_phase q (if is_free os (load_pid os s.file) then looked else refused) s₁.phase;
      } in
      let s₃ : Race = tried p (pid_save os p written s₂.file) s₂ in
      let reads : Reach (Step os) s s₂ = next (next here (read_pid s p)) (read_pid s₁ q) in
      let p_looked : s₂.phase p ≡ looked = ground (arith, free, differ) in
      let q_looked : s₃.phase q ≡ looked = ground (arith, free, differ) in
      (
        tried q (pid_save os q written s₃.file) s₃,
        next (next reads (write_pid s₂ p written p_looked)) (write_pid s₃ q written q_looked),
        ground (arith, differ),
        ground arith,
        refl,
      )
