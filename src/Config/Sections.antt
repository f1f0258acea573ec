-- ===== src/Config/Sections.antt =====
-- The sections that a configuration file is printed from, and reading the parameters of one:
-- src/evf_loader.c.
use libevfilter.Base.{
  ℕ, zero, suc, ◌+◌, ◌-◌, ◌<◌, ◌≤◌, ◌≡◌, refl, sym, ap, ◌∙◌, arith, true, false, Option, some, List,
  [], ◌∷◌, ◌++◌, ◌==◌, length, ltb, All, append_assoc, append-nil, length-append,
}
use libevfilter.Base.Text.{Text, isspace, case_eq, case_eq_refl}
use libevfilter.Config.Stream.{Io, ended, ◌>>=◌, feof, is_newline}
use libevfilter.Config.Lines.{IsLine, StartsDark, read_line-line}
use libevfilter.Config.Load.{
  filter_name, end_filter, params_size, has_room, param_line, params_from, get_filter_params,
}

-- A filter of a file: its name and the lines of its parameters.
pub record Section : Type 0 where
  pub name : Text
  pub params : List Text

-- Lines with a newline behind each.
abbrev pub print_lines : List Text → Text → Text
print_lines [] rest = rest
print_lines (l ∷ ls) rest = l ++ (b'\n' ∷ print_lines ls rest)

abbrev pub print_section : Section → Text → Text
print_section f rest =
    (filter_name ++ (b'=' ∷ f.name))
    ++ (b'\n' ∷ print_lines f.params (end_filter ++ (b'\n' ∷ rest)))

abbrev pub print_file : List Section → Text
print_file [] = []
print_file (f ∷ fs) = print_section f (print_file fs)

-- The lines with a blank behind each, which is what `get_filter_params` collects.
abbrev pub join : List Text → Text
join [] = []
join (l ∷ ls) = (l ++ b' ' ∷ []) ++ join ls

-- A line of parameters, which does not end the section.
abbrev pub IsParamLine : Text → Type 0
IsParamLine l = IsLine l × (case_eq l end_filter ≡ false)

abbrev pub StartsName : Text → Type 0
StartsName [] = ⊥
StartsName (c ∷ s) = (isspace c ≡ false) × ((c == b'=') ≡ false)

-- A section that can be printed: a name of at most 255 bytes, and parameters of at most 4093.
pub record IsSection (f : Section) : Type 0 where
  pub starts : StartsName f.name
  pub flat : All (λ b. is_newline b ≡ false) f.name
  pub name_short : length f.name < 256
  pub lines : All IsParamLine f.params
  pub params_short : length (join f.params) < 4094

pub print_lines-dark :
    (ls : List Text) (rest : Text)
    → All IsParamLine ls
    → StartsDark rest
    → StartsDark (print_lines ls rest)
print_lines-dark [] rest h d = d
print_lines-dark ([] ∷ ls) rest h d = absurd h.0.0
print_lines-dark ((c ∷ l) ∷ ls) rest h d = h.0.0.0

pub end_filter-IsLine : IsLine end_filter
end_filter-IsLine = ground arith

param_line-line :
    (again : Text → ℕ → Text → Io (Option Text × Text)) (params : Text) (room : ℕ) (l rest : Text)
    → case_eq l end_filter ≡ false
    → feof rest ≡ false
    → length l + 2 < room
    → length params + room ≡ params_size
    → param_line again params room (l, rest)
      ≡ again (params ++ (l ++ b' ' ∷ [])) (room - (length l + 1)) rest
unfolding param_line
param_line-line again params room l rest other more fits left =
    let space : has_room room l ≡ true = ground arith in
    let more_room : ltb room (length l + 1) ≡ false = ground arith in
    let inside : ltb params_size (length params + length l + 2) ≡ false = ground arith in
    rw (other, more, space, inside, more_room) refl

param_line-end :
    (again : Text → ℕ → Text → Io (Option Text × Text)) (params : Text) (room : ℕ) (rest : Text)
    → param_line again params room (end_filter, rest) ≡ ended (some params, rest)
unfolding param_line
param_line-end again params room rest = rw (case_eq_refl end_filter) refl

pub feof-print_lines :
    (ls : List Text) (rest : Text) → feof rest ≡ false → feof (print_lines ls rest) ≡ false
feof-print_lines [] rest h = h
feof-print_lines ([] ∷ ls) rest h = refl
feof-print_lines ((c ∷ l) ∷ ls) rest h = refl

-- The loop collects the lines of a section.
params_from-print :
    (ls : List Text) (fuel : ℕ) (params : Text) (room : ℕ) (rest : Text)
    → All IsParamLine ls
    → length (join ls) + 2 ≤ room
    → length params + room ≡ params_size
    → StartsDark rest
    → length ls < fuel
    → params_from fuel params room (print_lines ls (end_filter ++ (b'\n' ∷ rest)))
      ≡ ended (some (params ++ join ls), rest)
unfolding params_from
params_from-print ls zero params room rest h fits left d f = absurd (omega arith)
params_from-print [] (suc fuel) params room rest h fits left d f =
    ap (λ r. r >>= param_line (params_from fuel) params room)
      (read_line-line end_filter rest end_filter-IsLine d)
    ∙ param_line-end (params_from fuel) params room rest
    ∙ ap (λ t. ended (some t, rest)) (sym (append-nil params))
params_from-print (l ∷ ls) (suc fuel) params room rest (k, h) fits left d f =
    let more = print_lines ls (end_filter ++ (b'\n' ∷ rest)) in
    let step =
      param_line-line (params_from fuel) params room l more k.1
        (feof-print_lines ls (end_filter ++ (b'\n' ∷ rest)) refl)
        (omega (arith, length-append (l ++ b' ' ∷ []) (join ls), length-append l (b' ' ∷ [])))
        left in
    ap (λ r. r >>= param_line (params_from fuel) params room)
      (read_line-line l more k.0 (print_lines-dark ls (end_filter ++ (b'\n' ∷ rest)) h refl))
    ∙ step
    ∙ params_from-print ls fuel (params ++ (l ++ b' ' ∷ [])) (room - (length l + 1)) rest h
        (omega (arith, length-append (l ++ b' ' ∷ []) (join ls), length-append l (b' ' ∷ [])))
        (omega (
          arith,
          length-append params (l ++ b' ' ∷ []),
          length-append l (b' ' ∷ []),
          length-append (l ++ b' ' ∷ []) (join ls),
        ))
        d (omega arith)
    ∙ ap (λ t. ended (some t, rest)) (append_assoc params (l ++ b' ' ∷ []) (join ls))

pub length-print_lines : (ls : List Text) (rest : Text) → length ls ≤ length (print_lines ls rest)
length-print_lines [] rest = omega arith
length-print_lines (l ∷ ls) rest =
    omega (arith, length-print_lines ls rest, length-append l (b'\n' ∷ print_lines ls rest))

pub get_filter_params-print :
    (ls : List Text) (rest : Text)
    → All IsParamLine ls
    → length (join ls) < 4094
    → StartsDark rest
    → get_filter_params (print_lines ls (end_filter ++ (b'\n' ∷ rest)))
      ≡ ended (some (join ls), rest)
unfolding get_filter_params
get_filter_params-print ls rest h short d =
    let s = print_lines ls (end_filter ++ (b'\n' ∷ rest)) in
    params_from-print ls (suc (length s)) [] params_size rest h (omega (arith, short)) refl d
      (omega (arith, length-print_lines ls (end_filter ++ (b'\n' ∷ rest))))
