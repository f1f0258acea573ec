-- ===== src/Config/Profile.antt =====
-- src/evf_profile.c: the profile that says which configuration files a device gets.
use libevfilter.Base.{
  ℕ, zero, suc, Bool, true, false, Option, none, some, List, [], ◌++◌, leb, if◌then◌else◌, length,
}
use libevfilter.Base.Int.{ℤ, pos, negsuc, ◌==ℤ◌}
use libevfilter.Base.Text.{Text, codes, isspace, case_eq, text_eq}
use libevfilter.Event.{nonzero}
use libevfilter.Param.Defs.{Err, Result}
use libevfilter.Param.Parse.{eat_spaces}
use libevfilter.Config.Stream.{Io, ended, fault, unfinished, ◌>>=◌, feof, until, is_newline}
use libevfilter.Config.Load.{Loaded, loaded, refused, load_filters_compose}

-- What the kernel says of the device behind a descriptor; `none` is a call that fails. `compare`
-- says whether a path is that of the device.
pub record Device : Type 0 where
  pub name : Option Text
  pub phys : Option Text
  pub compare : Text → Option Bool

-- A C truth value, or the error code of a call that has failed.
abbrev truth : Bool → ℤ
truth true = pos 1
truth false = pos 0

abbrev or_code : ℤ → Option Bool → ℤ
or_code e none = e
or_code e (some b) = truth b

abbrev is_text : Text → Option Text → Option Bool
is_text value none = none
is_text value (some t) = some (text_eq t value)

-- `check_for_matching_rule`.
unfoldable pub check_for_matching_rule : Device → (type value : Text) → ℤ
check_for_matching_rule dev type value =
    if case_eq (codes "Device") type
    then or_code (negsuc 2) (dev.compare value)
    else if case_eq (codes "Name") type
    then or_code (negsuc 1) (is_text value dev.name)
    else if case_eq (codes "Phys") type
    then or_code (negsuc 1) (is_text value dev.phys)
    else if case_eq (codes "Bits") type
    then pos 0
    else negsuc 0

-- `fscanf(profile, "%256s", type)` into 256 bytes, and `fscanf(profile, " %2048[^\n]", value)` into
-- 2048: one byte more is written behind a text that long. At the end of the file nothing is
-- scanned; the variable keeps its value then, and the loop ends without reading it.
unfoldable pub scan : (ℕ → Bool) → ℕ → Text → Io (Text × Text)
scan stop room s =
    let (word, rest) = until stop (eat_spaces s) in
    if leb room (length word) then fault else ended (word, rest)

abbrev pub scan_type : Text → Io (Text × Text)
scan_type = scan isspace 256

abbrev pub scan_value : Text → Io (Text × Text)
scan_value = scan is_newline 2048

-- `has_matched` behind a rule that is no file.
unfoldable pub match_rule : Device → (type value : Text) → ℤ → ℤ
match_rule dev type value matched =
    if check_for_matching_rule dev type value ==ℤ pos 1
    then pos 1
    else if matched ==ℤ negsuc 0
    then pos 0
    else matched

abbrev pub profile_file : Text
profile_file = codes "profilerc"

-- What the loader needs: the table of filters, the error number, and `fopen` with `malloc`.
pub record System (S : Type 0) : Type 0 where
  pub evf_creat : List (Text → Result S)
  pub errno : ℕ
  pub has_memory : Bool
  pub fopen : Text → Option Text

module _ {S : Type 0} (sys : System S) (path : Text) (dev : Device) where
  -- What is done with the filters of one file: `evf_filters_merge`, or the way out on an error.
  unfoldable pub merged : (List S → Io (Loaded S)) → List S → Loaded S → Io (Loaded S)
  merged more filters (loaded fs) = more (filters ++ fs)
  merged more filters (refused e freed) = ended (refused e (freed ++ filters))

  abbrev pub load_file : Text → Io (Loaded S)
  load_file file = load_filters_compose sys.evf_creat sys.errno sys.has_memory sys.fopen path file

  -- A round of the loop of `evf_load_profile` from its second scan on; `again` is the next round.
  unfoldable pub rule_read :
      (ℤ → List S → Text → Io (Loaded S)) → ℤ → List S → Text → Text × Text → Io (Loaded S)
  unfolding merged
  rule_read again matched filters type (value, rest) =
      if feof rest
      then ended (loaded filters)
      else if case_eq type (codes "File")
      then (if nonzero matched
          then load_file value >>= merged (λ fs. again (negsuc 0) fs rest) filters
          else again matched filters rest)
      else again (match_rule dev type value matched) filters rest

  unfoldable pub type_read :
      (ℤ → List S → Text → Io (Loaded S)) → ℤ → List S → Text × Text → Io (Loaded S)
  unfolding rule_read
  type_read again matched filters (type, rest) =
      scan_value rest >>= rule_read again matched filters type

  unfoldable pub profile_from : ℕ → ℤ → List S → Text → Io (Loaded S)
  unfolding type_read
  profile_from zero matched filters s = unfinished
  profile_from (suc fuel) matched filters s =
      scan_type s >>= type_read (profile_from fuel) matched filters

  -- `open_profilerc`.
  abbrev pub open_profilerc : Option Text
  open_profilerc = if sys.has_memory then sys.fopen (path ++ profile_file) else none

  unfoldable pub profile_opened : Option Text → Io (Loaded S)
  unfolding profile_from
  profile_opened none = ended (refused (Err.errno sys.errno) [])
  profile_opened (some s) = profile_from (suc (length s)) (pos 0) [] s

  -- `evf_load_profile`.
  unfoldable pub load_profile : Io (Loaded S)
  unfolding profile_opened
  load_profile = profile_opened open_profilerc

-- `evf_load_system_profile`.
unfoldable pub load_system_profile : {S : Type 0} → System S → Device → Io (Loaded S)
unfolding load_profile
load_system_profile sys dev = load_profile sys (codes "/etc/evfilter/profile/") dev
