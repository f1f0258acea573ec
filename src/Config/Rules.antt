-- ===== src/Config/Rules.antt =====
-- A profile is read as the rules that it was printed from: src/evf_profile.c.
use libevfilter.Base.{
  ℕ, zero, suc, ◌<◌, ◌≤◌, ◌≡◌, inl, inr, refl, ap, ◌∙◌, arith, Bool, true, false, List, [], ◌∷◌,
  ◌++◌, leb, if◌then◌else◌, length, All, Bool-cases, length-append,
}
use libevfilter.Base.Int.{ℤ, negsuc}
use libevfilter.Base.Text.{Text, codes, isspace, case_eq}
use libevfilter.Event.{nonzero}
use libevfilter.Param.Parse.{eat_spaces}
use libevfilter.Config.Stream.{Io, ended, fault, unfinished, ◌>>=◌, feof, until, is_newline}
use libevfilter.Config.Lines.{until_stop, eat_spaces-dark}
use libevfilter.Config.Load.{Loaded, loaded, refused}
use libevfilter.Config.Profile.{
  Device, scan, match_rule, System, merged, load_file, rule_read, type_read, profile_from,
}

-- A line of the profile.
pub record Rule : Type 0 where
  pub type : Text
  pub value : Text

abbrev pub file_type : Text
file_type = codes "File"

abbrev pub print_rules : List Rule → Text
print_rules [] = []
print_rules (r ∷ rs) = r.type ++ (b' ' ∷ (r.value ++ (b'\n' ∷ print_rules rs)))

abbrev IsDark : Text → Type 0
IsDark [] = ⊥
IsDark (c ∷ s) = isspace c ≡ false

-- A rule that can be printed: the type is one word, and the value begins with no white space and
-- has no newline.
pub record IsRule (r : Rule) : Type 0 where
  pub starts : IsDark r.type
  pub word : All (λ b. isspace b ≡ false) r.type
  pub type_short : length r.type < 256
  pub dark : IsDark r.value
  pub flat : All (λ b. is_newline b ≡ false) r.value
  pub value_short : length r.value < 2048

pub bind_cong :
    {A B : Type 0} (m : Io A) (f g : A → Io B) → ((a : A) → f a ≡ g a) → m >>= f ≡ m >>= g
bind_cong (ended a) f g h = h a
bind_cong fault f g h = refl
bind_cong unfinished f g h = refl

scan-newline :
    (stop : ℕ → Bool) (room : ℕ) (s : Text) → scan stop room (b'\n' ∷ s) ≡ scan stop room s
unfolding scan eat_spaces
scan-newline stop room s = refl

scan-blank : (stop : ℕ → Bool) (room : ℕ) (s : Text) → scan stop room (b' ' ∷ s) ≡ scan stop room s
unfolding scan eat_spaces
scan-blank stop room s = refl

abbrev within : ℕ → Text × Text → Io (Text × Text)
within room (word, rest) = if leb room (length word) then fault else ended (word, rest)

scan-word :
    (stop : ℕ → Bool) (room : ℕ) (w : Text) (c : ℕ) (rest : Text)
    → IsDark w
    → All (λ b. stop b ≡ false) w
    → stop c ≡ true
    → length w < room
    → scan stop room (w ++ (c ∷ rest)) ≡ ended (w, c ∷ rest)
unfolding scan
scan-word stop room [] c rest d h e short = absurd d
scan-word stop room (b ∷ w) c rest d h e short =
    let fits : leb room (length (b ∷ w)) ≡ false = ground arith in
    ap (λ t. within room (until stop t)) (eat_spaces-dark (b ∷ (w ++ (c ∷ rest))) d)
    ∙ ap (within room) (until_stop stop (b ∷ w) c rest h e)
    ∙ (rw fits refl)

module _ {S : Type 0} (sys : System S) (path : Text) (dev : Device) where
  -- The rules one after the other.
  unfoldable pub run_rules : List Rule → ℤ → List S → Io (Loaded S)
  run_rules [] matched filters = ended (loaded filters)
  run_rules (r ∷ rs) matched filters =
      let file =
        load_file sys path dev r.value >>= merged sys path dev (run_rules rs (negsuc 0)) filters in
      let rest = run_rules rs matched filters in
      let rest' = run_rules rs (match_rule dev r.type r.value matched) filters in
      if case_eq r.type file_type then (if nonzero matched then file else rest) else rest'

  pub merged_cong :
      (f g : List S → Io (Loaded S)) (filters : List S) (l : Loaded S)
      → ((fs : List S) → f fs ≡ g fs)
      → merged sys path dev f filters l ≡ merged sys path dev g filters l
  unfolding merged
  merged_cong f g filters (loaded fs) h = h (filters ++ fs)
  merged_cong f g filters (refused e freed) h = refl

  rule_read-run :
      (r : Rule) (rs : List Rule) (again : ℤ → List S → Text → Io (Loaded S)) (matched : ℤ)
      (filters : List S) (rest : Text)
      → feof rest ≡ false
      → ((m : ℤ) (fs : List S) → again m fs rest ≡ run_rules rs m fs)
      → rule_read sys path dev again matched filters r.type (r.value, rest)
        ≡ run_rules (r ∷ rs) matched filters
  unfolding rule_read run_rules
  rule_read-run r rs again matched filters rest more h =
      elim (Bool-cases (case_eq r.type file_type)) [
        | inl file ↦ elim (Bool-cases (nonzero matched)) [
          | inl yes_it_is ↦
              rw (more, file, yes_it_is)
                (bind_cong (load_file sys path dev r.value)
                  (merged sys path dev (λ fs. again (negsuc 0) fs rest) filters)
                  (merged sys path dev (run_rules rs (negsuc 0)) filters)
                  (λ l.
                    merged_cong (λ fs. again (negsuc 0) fs rest) (run_rules rs (negsuc 0)) filters l
                      (h (negsuc 0))))
          | inr unmatched ↦ rw (more, file, unmatched) (h matched filters)
        ]
        | inr rule ↦ rw (more, rule) (h (match_rule dev r.type r.value matched) filters)
      ]

  profile_from-nil :
      (fuel : ℕ) (matched : ℤ) (filters : List S)
      → profile_from sys path dev (suc fuel) matched filters (b'\n' ∷ []) ≡ ended (loaded filters)
  unfolding profile_from type_read rule_read scan eat_spaces until
  profile_from-nil fuel matched filters = refl

  pub profile_from-newline :
      (fuel : ℕ) (matched : ℤ) (filters : List S) (s : Text)
      → profile_from sys path dev (suc fuel) matched filters (b'\n' ∷ s)
        ≡ profile_from sys path dev (suc fuel) matched filters s
  unfolding profile_from
  profile_from-newline fuel matched filters s =
      ap (λ m. m >>= type_read sys path dev (profile_from sys path dev fuel) matched filters)
        (scan-newline isspace 256 s)

  pub profile_from-run :
      (rs : List Rule) (fuel : ℕ) (matched : ℤ) (filters : List S)
      → All IsRule rs
      → length rs < fuel
      → profile_from sys path dev fuel matched filters (b'\n' ∷ print_rules rs)
        ≡ run_rules rs matched filters
  unfolding profile_from type_read run_rules
  profile_from-run rs zero matched filters h f = absurd (omega arith)
  profile_from-run [] (suc fuel) matched filters h f = profile_from-nil fuel matched filters
  profile_from-run (r ∷ rs) (suc fuel) matched filters (v, h) f =
      let again = profile_from sys path dev fuel in
      let rest = b'\n' ∷ print_rules rs in
      ap (λ m. m >>= type_read sys path dev again matched filters)
        (scan-newline isspace 256 (print_rules (r ∷ rs))
          ∙ scan-word isspace 256 r.type b' ' (r.value ++ rest) v.starts v.word refl v.type_short)
      ∙ ap (λ m. m >>= rule_read sys path dev again matched filters r.type)
          (scan-blank is_newline 2048 (r.value ++ rest)
            ∙ scan-word is_newline 2048 r.value b'\n' (print_rules rs) v.dark v.flat refl
                v.value_short)
      ∙ rule_read-run r rs again matched filters rest refl
          (λ m fs. profile_from-run rs fuel m fs h (omega arith))

until-All : (stop : ℕ → Bool) (w : Text) → All (λ b. stop b ≡ false) w → until stop w ≡ (w, [])
unfolding until
until-All stop [] h = refl
until-All stop (b ∷ w) h = rw (until-All stop w h.1, h.0) refl

-- The rest of the file is one text that begins with no white space.
scan-All :
    (stop : ℕ → Bool) (room : ℕ) (w : Text)
    → IsDark w
    → All (λ b. stop b ≡ false) w
    → length w < room
    → scan stop room w ≡ ended (w, [])
unfolding scan
scan-All stop room [] d h short = absurd d
scan-All stop room (b ∷ w) d h short =
    let fits : leb room (length (b ∷ w)) ≡ false = ground arith in
    ap (λ t. within room (until stop t)) (eat_spaces-dark (b ∷ w) d)
    ∙ ap (within room) (until-All stop (b ∷ w) h)
    ∙ (rw fits refl)

module _ {S : Type 0} (sys : System S) (path : Text) (dev : Device) where
  rule_read-last :
      (again : ℤ → List S → Text → Io (Loaded S)) (matched : ℤ) (filters : List S)
      (type value : Text)
      → rule_read sys path dev again matched filters type (value, []) ≡ ended (loaded filters)
  unfolding rule_read
  rule_read-last again matched filters type value = refl

  -- A last rule with no newline behind it does nothing, whatever the rule is: the filters of the
  -- rules in front of it are the result.
  pub last_rule_ignored :
      (r : Rule) (fuel : ℕ) (matched : ℤ) (filters : List S)
      → IsRule r
      → profile_from sys path dev (suc fuel) matched filters (r.type ++ b' ' ∷ r.value)
        ≡ ended (loaded filters)
  unfolding profile_from type_read
  last_rule_ignored r fuel matched filters v =
      let again = profile_from sys path dev fuel in
      ap (λ m. m >>= type_read sys path dev again matched filters)
        (scan-word isspace 256 r.type b' ' r.value v.starts v.word refl v.type_short)
      ∙ ap (λ m. m >>= rule_read sys path dev again matched filters r.type)
          (scan-blank is_newline 2048 r.value
            ∙ scan-All is_newline 2048 r.value v.dark v.flat v.value_short)
      ∙ rule_read-last again matched filters r.type r.value

pub length-print_rules : (rs : List Rule) → length rs ≤ length (print_rules rs)
length-print_rules [] = omega arith
length-print_rules (r ∷ rs) =
    let rest = b'\n' ∷ print_rules rs in
    omega (
      arith,
      length-print_rules rs,
      length-append r.type (b' ' ∷ (r.value ++ rest)),
      length-append r.value rest,
    )
