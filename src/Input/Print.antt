-- ===== src/Input/Print.antt =====
-- `evf_input_print` of src/evf_input.c: an event as text.
use libevfilter.Base.{
  ℕ, Option, none, some, List, [], ◌∷◌, ◌++◌, ltb, ◌==◌, if◌then◌else◌, get_elem?,
}
use libevfilter.Base.Int.{ℤ, pos, ◌==ℤ◌}
use libevfilter.Base.Text.{Text, codes}
use libevfilter.Event.{Event, ev_key, ev_rel, ev_abs}
use libevfilter.Param.Defs.{File}
use libevfilter.Input.{name_in, type_names, rel_names, ev_rel_cnt, abs_names, ev_abs_cnt}

-- What is written, with the file that each part goes to, in order.
abbrev pub Output : Type 0
Output = List (File × Text)

-- The C library's `%i`, and `keyparser_getname`, which gives NULL for a code that is not in the
-- table of keys.
pub record Printing : Type 0 where
  pub decimal : ℤ → Text
  pub getname : ℕ → Option Text

abbrev newline : Text
newline = b'\n' ∷ []

abbrev in_parens : Text → Text
in_parens t = codes " (" ++ (t ++ (codes ")" ++ newline))

module _ (p : Printing) where
  abbrev key_state : ℤ → Text
  key_state v =
      if v ==ℤ pos 0
      then codes "KEY_UP     (0)" ++ newline
      else if v ==ℤ pos 1
      then codes "KEY_DOWN   (1)" ++ newline
      else if v ==ℤ pos 2
      then codes "KEY_REPEAT (2)" ++ newline
      else codes "UNKNOWN" ++ in_parens (p.decimal v)

  -- `none` is a NULL that `%s` is given.
  abbrev pub key_lines : File → Text → Event → Option Text → Option Output
  key_lines file prefix ev none = none
  key_lines file prefix ev (some name) = some (
      (file, prefix ++ (codes "ev->code:  " ++ (name ++ in_parens (p.decimal (pos ev.code)))))
      ∷ (file, prefix ++ (codes "ev->value: " ++ key_state ev.value))
      ∷ [])

  -- `print_key`.
  unfoldable pub print_key : File → Text → Event → Option Output
  print_key file prefix ev = key_lines file prefix ev (p.getname ev.code)

  abbrev pub code_line : File → Text → Event → Option Text → Option Output
  code_line file prefix ev none = none
  code_line file prefix ev (some name) = some (
      (file, prefix ++ (codes "ev->code:  " ++ (name ++ in_parens (p.decimal (pos ev.code))))) ∷ [])

  -- A code by a table, or "UNKNOWN"; `none` reads outside of the table.
  unfoldable pub print_code : ℕ → List Text → File → Text → Event → Option Output
  print_code bound names file prefix ev = code_line file prefix ev (name_in bound names ev.code)

  abbrev pub and_value : File → Text → Event → Option Output → Option Output
  and_value file prefix ev none = none
  and_value file prefix ev (some out) =
      some
        (out ++ ((file, prefix ++ (codes "ev->value: " ++ (p.decimal ev.value ++ newline))) ∷ []))

  -- `print_rel` and `print_abs`.
  unfoldable pub print_rel : File → Text → Event → Option Output
  print_rel file prefix ev =
      and_value file prefix ev (print_code ev_rel_cnt rel_names file prefix ev)

  unfoldable pub print_abs : File → Text → Event → Option Output
  print_abs file prefix ev = print_code ev_abs_cnt abs_names file prefix ev

  -- The name of the type, or its number.
  unfoldable pub type_line : ℕ → Option Text
  type_line type =
      if ltb type 13
      then get_elem? type_names type
      else some (codes "UNKNOWN " ++ p.decimal (pos type))

  abbrev pub type_lines : File → Text → Option Text → Option Output
  type_lines file prefix none = none
  type_lines file prefix (some line) =
      some ((File.stdout, prefix ++ codes "ev->type:  ") ∷ (file, line ++ newline) ∷ [])

  -- The line of the type: its first part is written by `printf`.
  unfoldable pub print_type : File → Text → Event → Option Output
  unfolding type_line
  print_type file prefix ev = type_lines file prefix (type_line ev.type)

  -- What follows the type.
  unfoldable pub print_rest : File → Text → Event → Option Output
  unfolding print_key print_rel print_abs
  print_rest file prefix ev =
      if ev.type == ev_key
      then print_key file prefix ev
      else if ev.type == ev_rel
      then print_rel file prefix ev
      else if ev.type == ev_abs
      then print_abs file prefix ev
      else some []

  abbrev pub both : Option Output → Option Output → Option Output
  both none _ = none
  both (some a) none = none
  both (some a) (some b) = some (a ++ b)

  -- `evf_input_print`.
  unfoldable pub input_print : File → Text → Event → Option Output
  unfolding print_type print_rest
  input_print file prefix ev = both (print_type file prefix ev) (print_rest file prefix ev)
