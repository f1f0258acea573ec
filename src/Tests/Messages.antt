-- ===== src/Tests/Messages.antt =====
-- The theorems on src/filters/evf_msg.c, src/evf_uinput.c and src/filters/dump.c, at small inputs.
use libevfilter.Base.{
  ◌==◌, if◌then◌else◌, ℕ, ◌≡◌, refl, arith, true, false, Option, none, some, List, [], ◌∷◌,
  if◌then◌else◌,
}
use libevfilter.Base.Int.{pos}
use libevfilter.Base.Text.{Text, codes, text_eq}
use libevfilter.Event.{Event}
use libevfilter.Msg.{Msg, initial}
use libevfilter.Msg.Kept.{Message, msgs, leave, heard, msgs_lem}
use libevfilter.Uinput.{try_open, uinput_create}
use libevfilter.Uinput.Closed.{closes, destroys, whole, is_made, uinput_closes}
use libevfilter.Input.Print.{Output, Printing}
use libevfilter.Filters.AtHandle.{feed}
use libevfilter.Filters.Dump
use libevfilter.Filters.Dump.Strays.{record_event, write_out, dump_to, on_stdout, labels_stray}

-- Both sinks are on.
abbrev both_on : Msg
both_on = record initial { process_name = codes "evfd"; syslog = true }

abbrev some_messages : List Message
some_messages = (0, codes "no") ∷ (4, codes "details") ∷ (3, codes "found") ∷ []

msgs_lem_example : msgs some_messages both_on ≡ some (leave (heard 3 some_messages) both_on)
msgs_lem_example = msgs_lem some_messages both_on

-- Only the second path can be opened.
abbrev second_path : Text → Option ℕ
second_path path = if text_eq path (codes "/dev/uinput") then some 5 else none

uinput_closes_example :
    (closes 5 (whole (uinput_create 272 3 second_path true false)) ≡ 1)
    × (destroys 5 (whole (uinput_create 272 3 second_path true false))
        ≡ is_made (uinput_create 272 3 second_path true false).0)
unfolding try_open text_eq
uinput_closes_example = uinput_closes 272 3 5 second_path true false refl

abbrev printing : Printing
printing = record {
  decimal = λ v. codes "7";
  getname = λ n. if n == 30 then some (codes "KEY_A") else none;
}

abbrev key_event : Event
key_event = record { time = 0; type = 1; code = 30; value = pos 1 }

abbrev strange_event : Event
strange_event = record { time = 0; type = 17; code = 1; value = pos 0 }

labels_stray_example :
    (out' : Output) × (feed
        (Dump.modify printing write_out (some record_event))
        (dump_to (codes "/tmp/log") (codes "> "))
        (key_event ∷ strange_event ∷ [])
        ([], [])
      ≡ some (dump_to (codes "/tmp/log") (codes "> "), (out', key_event ∷ strange_event ∷ [])))
    × (on_stdout out' ≡ codes "> ev->type:  > ev->type:  ")
labels_stray_example =
    labels_stray printing (codes "/tmp/log") (codes "> ") (key_event ∷ strange_event ∷ []) [] [] (
      ((λ e. omega (arith, e)), λ key e. cc),
      (((λ e. omega (arith, e)), λ key. omega (arith, key)), tt),
    )
