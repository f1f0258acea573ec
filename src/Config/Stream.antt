-- ===== src/Config/Stream.antt =====
-- A configuration file that is read by `fscanf`, and `evf_read_line_preprocess` of src/evf_func.c.
-- The state of a stream is the text that is left, without a byte 0. Each call of `feof` comes behind a scan that
-- reads until a byte that it does not take, so that it is true exactly if nothing is left.
use libevfilter.Base.{ℕ, zero, suc, Bool, true, false, [], ◌∷◌, ◌==◌, leb, if◌then◌else◌, length}
use libevfilter.Base.Text.{Text}
use libevfilter.Param.Parse.{eat_spaces}

-- `fault` is a write or read outside of an object, `unfinished` the end of the fuel.
pub data Io {ℓ} (A : Type ℓ) : Type ℓ where
  ended : A → Io A
  fault : Io A
  unfinished : Io A

infixl 5 ◌>>=◌
abbrev pub ◌>>=◌ {ℓ κ} : {A : Type ℓ} {B : Type κ} → Io A → (A → Io B) → Io B
ended a >>= f = f a
fault >>= f = fault
unfinished >>= f = unfinished

abbrev pub feof : Text → Bool
feof [] = true
feof (c ∷ s) = false

-- The text in front of the first byte that the test takes, and the rest from that byte on.
unfoldable pub until : (ℕ → Bool) → Text → Text × Text
until stop [] = ([], [])
until stop (c ∷ s) =
    let (word, rest) = until stop s in if stop c then ([], c ∷ s) else (c ∷ word, rest)

abbrev pub is_newline : ℕ → Bool
is_newline c = c == b'\n'

-- `fscanf(f, "%4096[^\n]\n", line)` into 4096 bytes: a line that long is written past their end.
-- Without a byte in front of the newline the scan stops there, and takes no white space.
unfoldable pub end_line : Text × Text → Io (Text × Text)
end_line ([], rest) = ended ([], rest)
end_line (c ∷ t, rest) = if leb 4096 (length (c ∷ t)) then fault else ended (c ∷ t, eat_spaces rest)

unfoldable pub scan_line : Text → Io (Text × Text)
unfolding end_line
scan_line s = end_line (until is_newline s)

-- `if (*line == '#') *line = '\0';`
unfoldable pub drop_comment : Text → Text
drop_comment [] = []
drop_comment (c ∷ s) = if c == b'#' then [] else c ∷ s

-- A round of the loop of `evf_read_line_preprocess`, from what stands in `line` on; `again` is the
-- next round.
unfoldable pub line_found : (Text → Io (Text × Text)) → Text → Text → Io (Text × Text)
line_found again rest (c ∷ t) = ended (c ∷ t, rest)
line_found again rest [] = if feof rest then ended ([], rest) else again rest

unfoldable pub read_on : (Text → Io (Text × Text)) → Text × Text → Io (Text × Text)
unfolding line_found
read_on again (line, rest) = line_found again rest (drop_comment (eat_spaces line))

-- The loop: what `buf` gets, and what is left of the file.
unfoldable pub read_from : ℕ → Text → Io (Text × Text)
unfolding read_on
read_from zero s = unfinished
read_from (suc fuel) s = scan_line s >>= read_on (read_from fuel)

-- `evf_read_line_preprocess`, with fuel for a round for each byte and one more.
unfoldable pub read_line : Text → Io (Text × Text)
unfolding read_from
read_line s = read_from (suc (length s)) s
