-- ===== src/Config/Blocks.antt =====
-- Which files a profile loads: src/evf_profile.c.
use libevfilter.Base.{
  suc, ◌≡◌, ◌≢◌, inl, inr, refl, sym, ap, ◌∙◌, arith, Bool, true, false, ◌||◌, some, List, [], ◌∷◌,
  ◌++◌, if◌then◌else◌, length, All, Bool-cases,
}
use libevfilter.Base.Int.{ℤ, pos, negsuc, ◌==ℤ◌}
use libevfilter.Base.Text.{Text, case_eq, case_eq_refl}
use libevfilter.Config.Stream.{Io, ended, fault, unfinished, ◌>>=◌}
use libevfilter.Config.Load.{Loaded, loaded, refused}
use libevfilter.Config.Profile.{
  Device, check_for_matching_rule, match_rule, System, merged, load_file, open_profilerc,
  profile_opened, load_profile, profile_file,
}
use libevfilter.Config.Rules.{
  Rule, file_type, print_rules, IsRule, bind_cong, merged_cong, run_rules, profile_from-run,
  profile_from-newline, length-print_rules,
}

-- Rules that are no files, and the files behind them.
pub record Block : Type 0 where
  pub rules : List Rule
  pub files : List Text

abbrev pub file_rules : List Text → List Rule
file_rules [] = []
file_rules (f ∷ fs) = record { type = file_type; value = f } ∷ file_rules fs

abbrev pub profile_rules : List Block → List Rule
profile_rules [] = []
profile_rules (b ∷ bs) = b.rules ++ (file_rules b.files ++ profile_rules bs)

module _ (dev : Device) where
  abbrev pub matches : Rule → Bool
  matches r = check_for_matching_rule dev r.type r.value ==ℤ pos 1

  abbrev pub any_matches : List Rule → Bool
  any_matches [] = false
  any_matches (r ∷ rs) = matches r || any_matches rs

  -- The files of the blocks that have a rule which matches.
  abbrev pub selected : List Block → List Text
  selected [] = []
  selected (b ∷ bs) = if any_matches b.rules then b.files ++ selected bs else selected bs

-- A block has a rule and a file.
pub record IsBlock (b : Block) : Type 0 where
  pub some_rule : b.rules ≢ []
  pub some_file : b.files ≢ []
  pub no_files : All (λ r. case_eq r.type file_type ≡ false) b.rules

module _ {S : Type 0} (sys : System S) (path : Text) (dev : Device) where
  -- The filters of a file come behind those of the files in front of it; the first file that is
  -- refused gives its error, and the filters that were loaded are freed, behind those of that file.
  abbrev pub append_to : (List S → Io (Loaded S)) → List S → Io (Loaded S) → Io (Loaded S)
  append_to more filters (ended (loaded new)) = more (filters ++ new)
  append_to more filters (ended (refused e freed)) = ended (refused e (freed ++ filters))
  append_to more filters fault = fault
  append_to more filters unfinished = unfinished

  append_to-merged :
      (more : List S → Io (Loaded S)) (filters : List S) (m : Io (Loaded S))
      → (m >>= merged sys path dev more filters) ≡ append_to more filters m
  unfolding merged
  append_to-merged more filters (ended (loaded new)) = refl
  append_to-merged more filters (ended (refused e freed)) = refl
  append_to-merged more filters fault = refl
  append_to-merged more filters unfinished = refl

  -- The files one after the other, up to the first that is refused.
  unfoldable pub load_files : List Text → List S → Io (Loaded S)
  load_files [] filters = ended (loaded filters)
  load_files (f ∷ fs) filters = append_to (load_files fs) filters (load_file sys path dev f)

  -- `has_matched` behind some rules: it says whether one of them has matched since it was 0 or -1.
  abbrev flag : Bool → ℤ
  flag b = if b then pos 1 else pos 0

  run_rules-matched :
      (rs : List Rule) (more : List Rule) (filters : List S)
      → All (λ r. case_eq r.type file_type ≡ false) rs
      → run_rules sys path dev (rs ++ more) (pos 1) filters
        ≡ run_rules sys path dev more (pos 1) filters
  unfolding run_rules match_rule
  run_rules-matched [] more filters h = refl
  run_rules-matched (r ∷ rs) more filters h = elim (Bool-cases (matches dev r)) [
    | inl hit ↦ rw (h.0, hit) (run_rules-matched rs more filters h.1)
    | inr miss ↦ rw (h.0, miss) (run_rules-matched rs more filters h.1)
  ]

  run_rules-unmatched :
      (rs : List Rule) (more : List Rule) (filters : List S)
      → All (λ r. case_eq r.type file_type ≡ false) rs
      → run_rules sys path dev (rs ++ more) (pos 0) filters
        ≡ run_rules sys path dev more (flag (any_matches dev rs)) filters
  unfolding run_rules match_rule
  run_rules-unmatched [] more filters h = refl
  run_rules-unmatched (r ∷ rs) more filters h = elim (Bool-cases (matches dev r)) [
    | inl hit ↦ rw (h.0, hit) (run_rules-matched rs more filters h.1)
    | inr miss ↦ rw (h.0, miss) (run_rules-unmatched rs more filters h.1)
  ]

  -- Behind the files of a block the first rule of the next one clears the flag.
  run_rules-cleared :
      (rs : List Rule) (more : List Rule) (filters : List S)
      → rs ≢ []
      → All (λ r. case_eq r.type file_type ≡ false) rs
      → run_rules sys path dev (rs ++ more) (negsuc 0) filters
        ≡ run_rules sys path dev more (flag (any_matches dev rs)) filters
  unfolding run_rules match_rule
  run_rules-cleared [] more filters some_rule h = absurd (some_rule refl)
  run_rules-cleared (r ∷ rs) more filters some_rule h = elim (Bool-cases (matches dev r)) [
    | inl hit ↦ rw (h.0, hit) (run_rules-matched rs more filters h.1)
    | inr miss ↦ rw (h.0, miss) (run_rules-unmatched rs more filters h.1)
  ]

  run_rules-skip :
      (files : List Text) (more : List Rule) (filters : List S)
      → run_rules sys path dev (file_rules files ++ more) (pos 0) filters
        ≡ run_rules sys path dev more (pos 0) filters
  unfolding run_rules
  run_rules-skip [] more filters = refl
  run_rules-skip (f ∷ fs) more filters =
      rw (case_eq_refl file_type) (run_rules-skip fs more filters)

  run_rules-load :
      (files later : List Text) (more : List Rule) (filters : List S)
      → ((fs : List S) → run_rules sys path dev more (negsuc 0) fs ≡ load_files later fs)
      → run_rules sys path dev (file_rules files ++ more) (negsuc 0) filters
        ≡ load_files (files ++ later) filters
  unfolding run_rules load_files
  run_rules-load [] later more filters h = h filters
  run_rules-load (f ∷ fs) later more filters h = rw (case_eq_refl file_type) (
      bind_cong (load_file sys path dev f)
        (merged sys path dev (run_rules sys path dev (file_rules fs ++ more) (negsuc 0)) filters)
        (merged sys path dev (load_files (fs ++ later)) filters)
        (λ l.
          merged_cong sys path dev (run_rules sys path dev (file_rules fs ++ more) (negsuc 0))
            (load_files (fs ++ later)) filters l (λ fs'. run_rules-load fs later more fs' h))
      ∙ append_to-merged (load_files (fs ++ later)) filters (load_file sys path dev f))

  run_rules-first :
      (files : List Text) (more : List Rule) (filters : List S)
      → files ≢ []
      → run_rules sys path dev (file_rules files ++ more) (pos 1) filters
        ≡ run_rules sys path dev (file_rules files ++ more) (negsuc 0) filters
  unfolding run_rules
  run_rules-first [] more filters h = absurd (h refl)
  run_rules-first (f ∷ fs) more filters h = rw (case_eq_refl file_type) refl

  -- The files of a block.
  run_rules-files :
      (b : Bool) (files later : List Text) (more : List Rule) (filters : List S)
      → files ≢ []
      → ((fs : List S) → run_rules sys path dev more (pos 0) fs ≡ load_files later fs)
      → ((fs : List S) → run_rules sys path dev more (negsuc 0) fs ≡ load_files later fs)
      → run_rules sys path dev (file_rules files ++ more) (flag b) filters
        ≡ load_files (if b then files ++ later else later) filters
  run_rules-files true files later more filters h clear marked =
      run_rules-first files more filters h ∙ run_rules-load files later more filters marked
  run_rules-files false files later more filters h clear marked =
      run_rules-skip files more filters ∙ clear filters

  run_rules-blocks :
      (bs : List Block) (filters : List S)
      → All IsBlock bs
      → (run_rules sys path dev (profile_rules bs) (pos 0) filters
          ≡ load_files (selected dev bs) filters)
        × (run_rules sys path dev (profile_rules bs) (negsuc 0) filters
            ≡ load_files (selected dev bs) filters)
  unfolding run_rules load_files
  run_rules-blocks [] filters h = (refl, refl)
  run_rules-blocks (b ∷ bs) filters (v, h) =
      let more = file_rules b.files ++ profile_rules bs in
      let files =
        run_rules-files (any_matches dev b.rules) b.files (selected dev bs) (profile_rules bs)
          filters v.some_file (λ fs. (run_rules-blocks bs fs h).0)
          (λ fs. (run_rules-blocks bs fs h).1) in
      (
        run_rules-unmatched b.rules more filters v.no_files ∙ files,
        run_rules-cleared b.rules more filters v.some_rule v.no_files ∙ files,
      )

  -- A profile that is printed from blocks of rules and files, each with a newline at its end, with
  -- words of at most 255 bytes and values of at most 2047, loads the files of exactly those blocks
  -- of which a rule matches the device, in their order and into one list; the first file that is
  -- refused gives its error, and what was loaded is freed.
  pub load_profile-print :
      (bs : List Block)
      → All IsBlock bs
      → All IsRule (profile_rules bs)
      → sys.has_memory ≡ true
      → sys.fopen (path ++ profile_file) ≡ some (print_rules (profile_rules bs))
      → load_profile sys path dev ≡ load_files (selected dev bs) []
  unfolding load_profile profile_opened
  load_profile-print bs h v memory opened =
      let text = print_rules (profile_rules bs) in
      let found : open_profilerc sys path dev ≡ some text = rw memory opened in
      ap (profile_opened sys path dev) found
      ∙ sym (profile_from-newline sys path dev (length text) (pos 0) [] text)
      ∙ profile_from-run sys path dev (profile_rules bs) (suc (length text)) (pos 0) [] v
          (omega (arith, length-print_rules (profile_rules bs)))
      ∙ (run_rules-blocks bs [] h).0
