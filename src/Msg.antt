-- ===== src/Msg.antt =====
-- src/filters/evf_msg.c: messages, by their weight, to two sinks.
pub mod Kept
use libevfilter.Base.{
  ℕ, zero, suc, Bool, true, false, Option, none, some, List, [], ◌∷◌, ◌++◌, ltb, leb, if◌then◌else◌,
  get_elem?,
}
use libevfilter.Base.Text.{Text, codes}

-- `enum evf_msg_t`, which is an `unsigned int`.
abbrev pub evf_err : ℕ
evf_err = 0

abbrev pub evf_warn : ℕ
evf_warn = 1

abbrev pub evf_notice : ℕ
evf_notice = 2

abbrev pub evf_info : ℕ
evf_info = 3

abbrev pub evf_debug : ℕ
evf_debug = 4

abbrev pub evf_max : ℕ
evf_max = evf_debug

abbrev pub evf_msg_t_names : List Text
evf_msg_t_names =
    codes "ERROR" ∷ codes "WARNING" ∷ codes "NOTICE" ∷ codes "INFO" ∷ codes "DEBUG" ∷ []

-- The priorities of syslog.h that the file uses.
pub data Level : Type 0 where
  log_err log_warning log_notice log_info log_debug : Level

abbrev pub evf_msg_t_levels : List Level
evf_msg_t_levels = log_err ∷ log_warning ∷ log_notice ∷ log_info ∷ log_debug ∷ []

-- `enum evf_msg_out`.
pub data MsgOut : Type 0 where
  evf_stderr evf_syslog : MsgOut

-- The static variables, what stands on the standard error output, and what went to the system's
-- log under the name of the process.
pub record Msg : Type 0 where
  pub process_name : Text
  pub verbosity : ℕ
  pub stderr : Bool
  pub syslog : Bool
  pub printed : List Text
  pub logged : List (Level × Text)

-- Before `main`.
abbrev pub initial : Msg
initial = record {
  process_name = [];
  verbosity = evf_info;
  stderr = true;
  syslog = false;
  printed = [];
  logged = [];
}

-- `evf_msg_init`.
unfoldable pub msg_init : Text → Msg → Msg
msg_init name m = record m { process_name = name }

-- `type_name` of `evf_msg_stderr`; `none` reads outside of the table.
unfoldable pub type_name : ℕ → Option Text
type_name type = if leb type evf_max then get_elem? evf_msg_t_names type else some (codes "UNKNOWN")

abbrev pub print_named : Option Text → Text → Msg → Option Msg
print_named none text m = none
print_named (some name) text m =
    some (record m { printed = m.printed ++ ((name ++ (b'\t' ∷ (text ++ (b'\n' ∷ [])))) ∷ []) })

-- `evf_msg_stderr`, `text` being what the format and its arguments give.
unfoldable pub msg_stderr : ℕ → Text → Msg → Option Msg
unfolding type_name
msg_stderr type text m = print_named (type_name type) text m

-- The line in the log about a type that there is not.
abbrev pub bug_line : Msg → Text
bug_line m = codes "invalid log type, probably bug in " ++ (m.process_name ++ codes ".")

abbrev pub log : Level → Text → Msg → Msg
log level text m = record m { logged = m.logged ++ ((level, text) ∷ []) }

-- `evf_msg_syslog`.
unfoldable pub msg_syslog : ℕ → Text → Msg → Option Msg
msg_syslog type text m =
    if leb type evf_max
    then elim (get_elem? evf_msg_t_levels type) [
      | none ↦ none
      | some level ↦ some (log level text m)
    ]
    else some (log log_err text (log log_debug (bug_line m) m))

-- The two sinks in turn.
abbrev pub to_stderr : ℕ → Text → Msg → Option Msg
to_stderr type text m = if m.stderr then msg_stderr type text m else some m

abbrev pub to_syslog : ℕ → Text → Option Msg → Option Msg
to_syslog type text none = none
to_syslog type text (some m) = if m.syslog then msg_syslog type text m else some m

-- `evf_msg`.
unfoldable pub msg : ℕ → Text → Msg → Option Msg
unfolding msg_stderr msg_syslog
msg type text m =
    if ltb m.verbosity type then some m else to_syslog type text (to_stderr type text m)

-- `evf_msg_verbosity_set`.
unfoldable pub verbosity_set : ℕ → Msg → Msg
verbosity_set level m = record m { verbosity = level }

-- `evf_msg_output`.
unfoldable pub msg_output : MsgOut → Bool → Msg → Msg
msg_output evf_stderr on_off m = record m { stderr = on_off }
msg_output evf_syslog on_off m = record m { syslog = on_off }
