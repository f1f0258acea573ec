-- ===== src/KeyParser/Tool.antt =====
-- src/keyparser/evf_getkey.c: a command that prints the names of the keys of a device.
use mathlib.Core.Option
use libevfilter.Base.{
  ap, refl, inl, inr, Bool-cases, ℕ, ◌/◌, ◌%◌, ◌≡◌, sym, ◌∙◌, Option, none, some, List, [], ◌∷◌,
  ◌++◌, map, ◌==◌, if◌then◌else◌, append-nil, append_assoc,
}
use libevfilter.Base.Int.{ℤ, pos}
use libevfilter.Base.Text.{Text, codes}
use libevfilter.Event.{Event, ev_key}

-- What the command writes, to the standard output and to the standard error output, and what it
-- closes.
pub record Tool : Type 0 where
  pub out : List Text
  pub err : List Text
  pub closed : List ℕ

-- `%d`, `strerror` of what `errno` is, and `keyparser_getname`, which gives NULL for a code that is
-- not in the table of keys.
pub record Words : Type 0 where
  pub decimal : ℤ → Text
  pub error : Text
  pub getname : ℕ → Option Text

abbrev newline : Text
newline = b'\n' ∷ []

abbrev message : Text → Text
message t = codes "evf-getkey: " ++ (t ++ newline)

abbrev say : Text → Tool → Tool
say t s = record s { out = s.out ++ (t ∷ []) }

abbrev complain : Text → Tool → Tool
complain t s = record s { err = s.err ++ (t ∷ []) }

module _ (w : Words) where
  -- The parts of the version of the input layer.
  abbrev driver_line : ℕ → Text
  driver_line version =
      codes "Input driver version "
      ++ (w.decimal (pos (version / 65536))
          ++ (codes "."
              ++ (w.decimal (pos (version / 256 % 256))
                  ++ (codes "." ++ w.decimal (pos (version % 256))))))

  -- `open_input_fd`: what `open` gives, the version if `ioctl` tells it, and what the array for
  -- the name holds then.
  unfoldable pub open_input_fd :
      (opened : Option ℕ) (version : Option ℕ) (name dev : Text) → Tool → Option ℕ × Tool
  open_input_fd none version name dev s = (
    none,
    complain (message (codes "Can't open " ++ (dev ++ (codes ": " ++ (w.error ++ codes "."))))) s,
  )
  open_input_fd (some fd) none name dev s = (
    none,
    record (complain (message (codes "`" ++ (dev ++ codes "' is not an input device."))) s) {
      closed = s.closed ++ (fd ∷ []);
    },
  )
  open_input_fd (some fd) (some version) name dev s = (
    some fd,
    say (message (codes "Device name `" ++ (name ++ codes "'")))
        (say (message (driver_line version)) s),
  )

  abbrev pub key_line : Text → Text
  key_line name = codes "key " ++ (name ++ newline)

  -- `none` is a NULL that `%s` is given.
  abbrev say_name : Option Text → Tool → Option Tool
  say_name none s = none
  say_name (some name) s = some (say (key_line name) s)

  -- The loop, over the events that `read` gives until it fails.
  unfoldable pub print_keys : List Event → Tool → Option Tool
  print_keys [] s = some (complain (codes "Error reading from fd: " ++ (w.error ++ newline)) s)
  print_keys (ev ∷ evs) s =
      elim (if ev.type == ev_key then say_name (w.getname ev.code) s else some s) [
        | none ↦ none
        | some s' ↦ print_keys evs s'
      ]

  -- `main`; it always ends with EXIT_FAILURE.
  unfoldable pub getkey_main :
      (args : Option Text)
      → (opened : Option ℕ) (version : Option ℕ) (name : Text) → List Event
      → Tool
      → Option Tool
  unfolding open_input_fd print_keys
  getkey_main none opened version name evs s =
      some (complain (codes "Usage: evf-getkey /dev/input/eventX" ++ newline) s)
  getkey_main (some dev) opened version name evs s =
      let (fd, s') = open_input_fd opened version name dev s in
      elim fd [ none ↦ some s' | some _ ↦ print_keys evs s' ]

  -- The keys among some events, with their names; `none` is a key that has no name.
  unfoldable pub named_keys : List Event → Option (List Text)
  named_keys [] = some []
  named_keys (ev ∷ evs) =
      let rest = named_keys evs in
      if ev.type == ev_key
      then elim (w.getname ev.code) [ none ↦ none | some n ↦ Option.map (λ ns. n ∷ ns) rest ]
      else rest

  -- If every key among the events that are read has a name, then exactly these names are printed,
  -- in their order; at the first key without a name NULL is printed.
  pub print_keys-named :
      (evs : List Event) (s : Tool)
      → Option.map (λ (s' : Tool). s'.out) (print_keys evs s)
        ≡ Option.map (λ ns. s.out ++ map key_line ns) (named_keys evs)
  unfolding print_keys named_keys
  print_keys-named [] s = ap some (sym (append-nil s.out))
  print_keys-named (ev ∷ evs) s = elim (Bool-cases (ev.type == ev_key)) [
    | inl key ↦ rw (key, print_keys) (by_name (w.getname ev.code) (print_keys-named evs))
    | inr other ↦ rw (other, print_keys) (print_keys-named evs s)
  ]
    where
      by_rest :
          (n : Text) (o : Option (List Text))
          → Option.map (λ ns. (s.out ++ key_line n ∷ []) ++ map key_line ns) o
            ≡ Option.map (λ ns. s.out ++ map key_line ns) (Option.map (λ ns. n ∷ ns) o)
      by_rest n none = refl
      by_rest n (some ns) = ap some (append_assoc s.out (key_line n ∷ []) (map key_line ns))

      by_name :
          (o : Option Text)
          → ((s : Tool)
              → Option.map (λ (s' : Tool). s'.out) (print_keys evs s)
                ≡ Option.map (λ ns. s.out ++ map key_line ns) (named_keys evs))
          → Option.map
              (λ (s' : Tool). s'.out)
              (elim (say_name o s) [ none ↦ none | some s' ↦ print_keys evs s' ])
            ≡ Option.map
                (λ ns. s.out ++ map key_line ns)
                (elim o [ none ↦ none | some n ↦ Option.map (λ ns. n ∷ ns) (named_keys evs) ])
      by_name none rest = refl
      by_name (some n) rest = rest (say (key_line n) s) ∙ by_rest n (named_keys evs)
