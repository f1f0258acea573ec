-- ===== src/Tests/Files.antt =====
-- Configuration files and profiles for src/evf_loader.c and src/evf_profile.c.
use libevfilter.Base.{
  ◌≡◌, refl, true, false, if◌then◌else◌, Option, none, some, List, [], ◌∷◌, ◌++◌, replicate, arith,
}
use libevfilter.Base.Text.{Text, codes, case_eq, text_eq}
use libevfilter.Param.Defs.{Result, done}
use libevfilter.Param.Defs
use libevfilter.Config.Stream.{unfinished, read_from}
use libevfilter.Config.Load.{load_filters}
use libevfilter.Config.Sections.{Section, print_file}
use libevfilter.Config.Printed.{load_each, load_filters-print}
use libevfilter.Config.Ends.{Ends, read_from_hangs}
use libevfilter.Config.Profile.{System, Device, profile_file, load_profile}
use libevfilter.Config.Blocks.{Block, profile_rules, load_files, selected, load_profile-print}
use libevfilter.Config.Rules.{print_rules}

-- Each function tells its parameters.
abbrev tell : Text → Result Text
tell params = done params

abbrev tells : List (Text → Result Text)
tells = replicate 18 tell

abbrev two_sections : List Section
two_sections =
    record { name = codes "rotate"; params = codes "mirror = X" ∷ codes "swap = 1" ∷ [] }
    ∷ record { name = codes "no_repeat"; params = [] }
    ∷ []

load_filters-print_example :
    load_filters tells 0 (some (print_file two_sections)) ≡ load_each tells two_sections []
unfolding case_eq
load_filters-print_example = load_filters-print tells 0 two_sections (ground arith)

read_from_hangs_example : read_from 100 (b'\n' ∷ codes "FilterName=rotate") ≡ unfinished
read_from_hangs_example = read_from_hangs 100 (codes "FilterName=rotate")

abbrev unclosed : Text
unclosed = codes "# pad" ++ b'\n' ∷ codes "FilterName=rotate" ++ b'\n' ∷ codes "swap = 1"

-- As in the program, the function of the barrier, the fifth, faults.
abbrev one_faults : List (Text → Result Text)
one_faults = tell ∷ tell ∷ tell ∷ tell ∷ (λ params. Defs.fault) ∷ replicate 13 tell

-- A mouse, and a profile with a block for it and one for another device.
abbrev mouse : Device
mouse = record {
  name = some (codes "mouse");
  phys = some (codes "usb-1");
  compare = λ path. some false;
}

abbrev blocks : List Block
blocks =
    record {
      rules =
          record { type = codes "Name"; value = codes "pad" }
          ∷ record { type = codes "Phys"; value = codes "usb-1" }
          ∷ [];
      files = codes "swap" ∷ [];
    }
    ∷ record {
      rules = record { type = codes "Name"; value = codes "pad" } ∷ [];
      files = codes "pad" ∷ [];
    }
    ∷ []

abbrev files : Text → Option Text
files name =
    if text_eq name (codes "/" ++ profile_file)
    then some (print_rules (profile_rules blocks))
    else if text_eq name (codes "/swap")
    then some (print_file two_sections)
    else none

abbrev system : System Text
system = record { evf_creat = tells; errno = 2; has_memory = true; fopen = files }

load_profile-print_example :
    load_profile system (codes "/") mouse
    ≡ load_files system (codes "/") mouse (selected mouse blocks) []
unfolding case_eq text_eq
load_profile-print_example =
    load_profile-print system (codes "/") mouse blocks (ground arith) (ground arith) refl refl
