-- ===== src/Config/Lines.antt =====
-- One line of a configuration file: `evf_read_line_preprocess` of src/evf_func.c.
use libevfilter.Base.{
  ℕ, suc, ◌<◌, ◌≡◌, refl, ap, ◌∙◌, arith, Bool, true, false, [], ◌∷◌, ◌++◌, ◌==◌, leb, length, All,
}
use libevfilter.Base.Text.{Text, isspace}
use libevfilter.Param.Parse.{eat_spaces}
use libevfilter.Config.Stream.{
  ended, ◌>>=◌, until, is_newline, end_line, scan_line, drop_comment, line_found, read_on,
  read_from, read_line,
}

-- A line of the file as it is read: it begins with no white space and no `#`, and has no newline.
abbrev pub IsLine : Text → Type 0
IsLine [] = ⊥
IsLine (c ∷ s) =
    (isspace c ≡ false)
    × ((c == b'#') ≡ false)
    × All (λ b. is_newline b ≡ false) (c ∷ s)
    × (length (c ∷ s) < 4096)

-- No white space comes first.
abbrev pub StartsDark : Text → Type 0
StartsDark [] = Unit
StartsDark (c ∷ s) = isspace c ≡ false

pub eat_spaces-dark : (s : Text) → StartsDark s → eat_spaces s ≡ s
unfolding eat_spaces
eat_spaces-dark [] h = refl
eat_spaces-dark (c ∷ s) h = rw h refl

pub until_stop :
    (stop : ℕ → Bool) (w : Text) (c : ℕ) (rest : Text)
    → All (λ b. stop b ≡ false) w
    → stop c ≡ true
    → until stop (w ++ c ∷ rest) ≡ (w, c ∷ rest)
unfolding until
until_stop stop [] c rest h e = rw e refl
until_stop stop (b ∷ w) c rest h e = rw (until_stop stop w c rest h.1 e, h.0) refl

eat_spaces-newline : (s : Text) → StartsDark s → eat_spaces (b'\n' ∷ s) ≡ s
unfolding eat_spaces
eat_spaces-newline s h = eat_spaces-dark s h

end_line-line :
    (c : ℕ) (t rest : Text)
    → length (c ∷ t) < 4096
    → StartsDark rest
    → end_line (c ∷ t, b'\n' ∷ rest) ≡ ended (c ∷ t, rest)
unfolding end_line
end_line-line c t rest short h =
    let long : leb 4096 (length (c ∷ t)) ≡ false = ground arith in
    rw (long, eat_spaces-newline rest h) refl

scan_line-line :
    (c : ℕ) (t rest : Text)
    → IsLine (c ∷ t)
    → StartsDark rest
    → scan_line ((c ∷ t) ++ b'\n' ∷ rest) ≡ ended (c ∷ t, rest)
unfolding scan_line
scan_line-line c t rest (dark, plain, flat, short) h =
    ap end_line (until_stop is_newline (c ∷ t) b'\n' rest flat refl)
    ∙ end_line-line c t rest short h

drop_comment-line : (c : ℕ) (t : Text) → IsLine (c ∷ t) → drop_comment (eat_spaces (c ∷ t)) ≡ c ∷ t
unfolding drop_comment
drop_comment-line c t (dark, plain, flat, short) = rw (eat_spaces-dark (c ∷ t) dark, plain) refl

-- A round that finds a line.
pub read_from_found :
    (fuel c : ℕ) (t s line rest : Text)
    → scan_line s ≡ ended (line, rest)
    → drop_comment (eat_spaces line) ≡ c ∷ t
    → read_from (suc fuel) s ≡ ended (c ∷ t, rest)
unfolding read_from
read_from_found fuel c t s line rest e f =
    ap (λ r. r >>= read_on (read_from fuel)) e ∙ ap (line_found (read_from fuel) rest) f

-- A line, with a newline behind it, is read as it is.
pub read_line-line :
    (line rest : Text)
    → IsLine line
    → StartsDark rest
    → read_line (line ++ b'\n' ∷ rest) ≡ ended (line, rest)
unfolding read_line
read_line-line [] rest l h = absurd l
read_line-line (c ∷ t) rest l h =
    read_from_found (length ((c ∷ t) ++ b'\n' ∷ rest)) c t ((c ∷ t) ++ b'\n' ∷ rest) (c ∷ t) rest
      (scan_line-line c t rest l h) (drop_comment-line c t l)

-- At the end of the file the line is empty.
pub read_line-nil : read_line [] ≡ ended ([], [])
unfolding read_line read_from scan_line end_line until read_on drop_comment eat_spaces
read_line-nil = refl
