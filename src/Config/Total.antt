-- ===== src/Config/Total.antt =====
-- Reading a line of a configuration file ends: src/evf_func.c.
use libevfilter.Base.{
  ℕ, zero, suc, ◌<◌, ◌≤◌, ◌≡◌, refl, sym, subst, ap, ◌∙◌, arith, Bool, false, [], ◌∷◌, ◌++◌, leb,
  length, append_assoc, Bool-cases, inl, inr, length-append,
}
use libevfilter.Base.Text.{Text, isspace}
use libevfilter.Param.Parse.{eat_spaces}
use libevfilter.Config.Stream.{
  Io, ended, fault, unfinished, ◌>>=◌, feof, until, is_newline, end_line, scan_line, drop_comment,
  line_found, read_on, read_from, read_line,
}

-- The first byte is no newline.
abbrev pub StartsFlat : Text → Type 0
StartsFlat [] = Unit
StartsFlat (c ∷ s) = is_newline c ≡ false

-- No line has 4096 bytes, from wherever it is read.
abbrev pub HasShortLines : Text → Type 0
HasShortLines s = (t u : Text) → s ≡ t ++ u → length (until is_newline u).0 < 4096

-- A text in which the reading goes on: behind `s`, and further in it.
pub record IsRest (s rest : Text) : Type 0 where
  pub flat : StartsFlat rest
  pub short : HasShortLines rest
  pub le : length rest ≤ length s
  pub lt : feof rest ≡ false → length rest < length s

-- A line that is read, and the rest.
abbrev pub Reads : {A : Type 0} → Text → Io (A × Text) → Type 0
Reads s (ended (line, rest)) = IsRest s rest
Reads s fault = ⊥
Reads s unfinished = ⊥

pub until_append : (stop : ℕ → Bool) (s : Text) → s ≡ (until stop s).0 ++ (until stop s).1
unfolding until
until_append stop [] = refl
until_append stop (c ∷ s) = ground (arith, until_append stop s)

eat_spaces_tail : (s : Text) → (t : Text) × (s ≡ t ++ eat_spaces s)
unfolding eat_spaces
eat_spaces_tail [] = ([], refl)
eat_spaces_tail (c ∷ s) = elim (Bool-cases (isspace c)) [
  | inl space ↦ let (t, e) = eat_spaces_tail s in (c ∷ t, rw space (ap (λ u. c ∷ u) e))
  | inr dark ↦ ([], rw dark refl)
]

eat_spaces-StartsFlat : (s : Text) → StartsFlat (eat_spaces s)
unfolding eat_spaces
eat_spaces-StartsFlat [] = tt
eat_spaces-StartsFlat (c ∷ s) = elim (Bool-cases (isspace c)) [
  | inl space ↦ rw space (eat_spaces-StartsFlat s)
  | inr dark ↦ rw dark (ground arith)
]

HasShortLines-tail : (t u s : Text) → s ≡ t ++ u → HasShortLines s → HasShortLines u
HasShortLines-tail t u s e h t' u' e' =
    h (t ++ t') u' (e ∙ ap (λ x. t ++ x) e' ∙ sym (append_assoc t t' u'))

scan_line_ends :
    (c : ℕ) (s : Text)
    → StartsFlat (c ∷ s)
    → HasShortLines (c ∷ s)
    → (line rest : Text) × (scan_line (c ∷ s) ≡ ended (line, rest))
      × StartsFlat rest
      × HasShortLines rest
      × (length rest < length (c ∷ s))
unfolding scan_line end_line until
scan_line_ends c s flat short =
    let (word, rest) = until is_newline s in
    let cut : until is_newline (c ∷ s) ≡ (c ∷ word, rest) = rw flat refl in
    let bound : length (c ∷ word) < 4096 =
      subst (λ (p : Text × Text). length p.0 < 4096) cut (short [] (c ∷ s) refl) in
    let room : leb 4096 (length (c ∷ word)) ≡ false = ground arith in
    let (t, e) = eat_spaces_tail rest in
    let whole : c ∷ s ≡ ((c ∷ word) ++ t) ++ eat_spaces rest =
      ap (λ r. c ∷ r) (until_append is_newline s)
      ∙ ap (λ r. (c ∷ word) ++ r) e
      ∙ sym (append_assoc (c ∷ word) t (eat_spaces rest)) in
    (
      c ∷ word,
      eat_spaces rest,
      ap end_line cut ∙ (rw room refl),
      eat_spaces-StartsFlat rest,
      HasShortLines-tail ((c ∷ word) ++ t) (eat_spaces rest) (c ∷ s) whole short,
      omega (arith, ap (length {0}) whole, length-append ((c ∷ word) ++ t) (eat_spaces rest)),
    )

pub IsRest-trans : (s u v : Text) → length u < length s → IsRest u v → IsRest s v
IsRest-trans s u v h r = record {
  flat = r.flat;
  short = r.short;
  le = omega (arith, r.le);
  lt = λ _. omega (arith, r.le);
}

line_found_ends :
    (again : Text → Io (Text × Text)) (s rest d : Text)
    → StartsFlat rest
    → HasShortLines rest
    → length rest < length s
    → Reads rest (again rest)
    → Reads s (line_found again rest d)
unfolding line_found
line_found_ends again s rest (c ∷ t) flat short lt h = record {
  flat = flat;
  short = short;
  le = omega arith;
  lt = λ _. lt;
}
line_found_ends again s [] [] flat short lt h = record {
  flat = flat;
  short = short;
  le = omega arith;
  lt = λ _. lt;
}
line_found_ends again s (c ∷ rest) [] flat short lt h = later (again (c ∷ rest)) h
  where
    later : (r : Io (Text × Text)) → Reads (c ∷ rest) r → Reads s r
    later (ended (line, rest')) k = IsRest-trans s (c ∷ rest) rest' lt k
    later fault k = k
    later unfinished k = k

line_found_nil :
    (again : Text → Io (Text × Text)) (d : Text)
    → HasShortLines []
    → Reads [] (line_found again [] d)
unfolding line_found
line_found_nil again (c ∷ t) h = record {
  flat = tt;
  short = h;
  le = omega arith;
  lt = λ e. absurd (ground arith);
}
line_found_nil again [] h = record {
  flat = tt;
  short = h;
  le = omega arith;
  lt = λ e. absurd (ground arith);
}

read_from_ends :
    (fuel : ℕ) (s : Text)
    → length s < fuel
    → StartsFlat s
    → HasShortLines s
    → Reads s (read_from fuel s)
unfolding read_from read_on scan_line end_line until
read_from_ends zero s f flat short = absurd (omega arith)
read_from_ends (suc fuel) [] f flat short =
    line_found_nil (read_from fuel) (drop_comment (eat_spaces [])) short
read_from_ends (suc fuel) (c ∷ s) f flat short =
    let (line, rest, run, fl, sh, lt) = scan_line_ends c s flat short in
    subst (Reads (c ∷ s)) (sym (ap (λ r. r >>= read_on (read_from fuel)) run)) (
      line_found_ends (read_from fuel) (c ∷ s) rest (drop_comment (eat_spaces line)) fl sh lt
        (read_from_ends fuel rest (omega arith) fl sh))

pub read_line_ends : (s : Text) → StartsFlat s → HasShortLines s → Reads s (read_line s)
unfolding read_line
read_line_ends s flat short = read_from_ends (suc (length s)) s (omega arith) flat short
