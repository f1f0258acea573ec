-- ===== src/Filters/Dump.antt =====
-- src/filters/dump.c: each event is written as text to a file and goes on as it is.
pub mod Strays
use libevfilter.Base.{ℕ, Bool, true, false, Option, none, some, List, [], ◌∷◌, ◌++◌, if◌then◌else◌}
use libevfilter.Base.Text.{Text, codes}
use libevfilter.Event.{Event, Next, Modify, pass}
use libevfilter.Param.Defs.{File, ParamType, Param, row, last_row, Result, fault, ◌>>=◌, Value, Env}
use libevfilter.Param.Load.{load_params, or_errno}
use libevfilter.Input.Print.{Output, Printing, input_print}

-- `struct dump`.
pub record Dump : Type 0 where
  pub f : File
  pub prefix : Text

module _ {D : Type 0} (p : Printing) (written : Output → D → D) where
  -- `self->next`, which may be NULL.
  abbrev pub to_next : Option (Next D) → Modify Dump D
  to_next none s ev d = some (s, ev, d)
  to_next (some next) s ev d = pass next s ev d

  -- What `modify` does with the text of the event.
  abbrev pub dumped : Option (Next D) → Option Output → Modify Dump D
  dumped next none s ev d = none
  dumped next (some out) s ev d = to_next next s ev (written (out ++ ((s.f, b'\n' ∷ []) ∷ [])) d)

  -- `modify`; `written` is what writing does to the state behind the filter.
  unfoldable pub modify : Option (Next D) → Modify Dump D
  modify next s ev d = dumped next (input_print p s.f s.prefix ev) s ev d

-- `evf_dump_alloc`.
unfoldable pub alloc : Bool → Text → File → Option Dump
alloc has_memory prefix f = if has_memory then some (record { f = f; prefix = prefix }) else none

abbrev pub dump_params : List Param
dump_params =
    row (codes "prefix") ParamType.str none (some [])
    ∷ row (codes "file") ParamType.file none (some (codes "stdout"))
    ∷ last_row
    ∷ []

unfoldable pub from_values : {F : Type 0} → Env F → List (Value F) → Result Dump
unfolding alloc
from_values env (Value.str prefix ∷ Value.file f ∷ []) =
    or_errno env (alloc env.has_memory prefix f)
from_values env _ = fault

-- `evf_dump_creat`.
unfoldable pub creat : {F : Type 0} → Env F → Text → Result Dump
unfolding from_values
creat env params = load_params env params dump_params >>= from_values env
