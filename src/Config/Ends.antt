-- ===== src/Config/Ends.antt =====
-- Loading a configuration file ends, and when it does not: src/evf_loader.c.
use libevfilter.Base.{ℕ, zero, suc, ◌+◌, ◌≡◌, refl, ◌≤◌, some, List, ◌∷◌, length, get_elem?}
use libevfilter.Base.Text.{Text}
use libevfilter.Param.Defs.{Result}
use libevfilter.Param.Defs
use libevfilter.Param.Parse.{eat_spaces}
use libevfilter.Config.Stream.{
  Io, ended, fault, unfinished, until, end_line, scan_line, drop_comment, read_on, read_from,
}
use libevfilter.Config.Load.{params_size}

-- `room` bytes are left behind the parameters, two of them at least.
abbrev InBuffer : Text → ℕ → Type 0
InBuffer params room = (length params + room ≡ params_size) × (2 ≤ room)

-- One of the functions faults at some text.
abbrev pub Faults : {S : Type 0} → List (Text → Result S) → Type 0
Faults {S} evf_creat =
    (i : ℕ) × (creat : Text → Result S) × (cfg : Text) × (get_elem? evf_creat i ≡ some creat)
    × (creat cfg ≡ Defs.fault)

-- A value is given, or one of the functions faults.
abbrev pub Ends : {S A : Type 0} → List (Text → Result S) → Io A → Type 0
Ends evf_creat (ended a) = Unit
Ends evf_creat fault = Faults evf_creat
Ends evf_creat unfinished = ⊥

-- A file that begins with a newline is never read further: no fuel is enough for its first line.
pub read_from_hangs : (fuel : ℕ) (s : Text) → read_from fuel (b'\n' ∷ s) ≡ unfinished
unfolding read_from scan_line end_line until read_on drop_comment eat_spaces
read_from_hangs zero s = refl
read_from_hangs (suc fuel) s = read_from_hangs fuel s
