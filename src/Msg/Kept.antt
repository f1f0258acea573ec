-- ===== src/Msg/Kept.antt =====
-- Which messages src/filters/evf_msg.c writes.
use libevfilter.Base.{
  ℕ, zero, suc, ◌≡◌, refl, sym, ap, ◌∙◌, arith, Bool, true, false, Option, none, some, List, [],
  ◌∷◌, ◌++◌, map, ltb, leb, if◌then◌else◌, select, Bool-cases, inl, inr, append_assoc, append-nil,
}
use libevfilter.Base.Text.{Text, codes}
use libevfilter.Msg.{
  Msg, Level, evf_max, type_name, print_named, msg_stderr, msg_syslog, to_stderr, to_syslog, msg,
}

-- A message: its type and its text.
abbrev pub Message : Type 0
Message = ℕ × Text

-- What a message is on each sink.
abbrev pub name_of : ℕ → Text
name_of zero = codes "ERROR"
name_of (suc zero) = codes "WARNING"
name_of (suc (suc zero)) = codes "NOTICE"
name_of (suc (suc (suc zero))) = codes "INFO"
name_of (suc (suc (suc (suc zero)))) = codes "DEBUG"
name_of _ = codes "UNKNOWN"

abbrev pub line_of : Message → Text
line_of (type, text) = name_of type ++ (b'\t' ∷ (text ++ (b'\n' ∷ [])))

abbrev pub entries_of : Text → Message → List (Level × Text)
entries_of process (zero, text) = (Level.log_err, text) ∷ []
entries_of process (suc zero, text) = (Level.log_warning, text) ∷ []
entries_of process (suc (suc zero), text) = (Level.log_notice, text) ∷ []
entries_of process (suc (suc (suc zero)), text) = (Level.log_info, text) ∷ []
entries_of process (suc (suc (suc (suc zero))), text) = (Level.log_debug, text) ∷ []
entries_of process (_, text) =
    (Level.log_debug, codes "invalid log type, probably bug in " ++ (process ++ codes "."))
    ∷ (Level.log_err, text)
    ∷ []

-- Messages in turn.
unfoldable pub msgs : List Message → Msg → Option Msg
msgs [] m = some m
msgs ((type, text) ∷ ms) m = elim (msg type text m) [ none ↦ none | some m' ↦ msgs ms m' ]

abbrev pub log_of : Text → List Message → List (Level × Text)
log_of process [] = []
log_of process (m ∷ ms) = entries_of process m ++ log_of process ms

abbrev pub on : {A : Type 0} → Bool → List A → List A
on b xs = if b then xs else []

-- The messages that are not heavier than the verbosity.
abbrev pub heard : ℕ → List Message → List Message
heard verbosity = select (λ m. leb m.0 verbosity)

-- What the messages that are heard leave.
abbrev pub leave : List Message → Msg → Msg
leave ms m = record m {
  printed = m.printed ++ on m.stderr (map line_of ms);
  logged = m.logged ++ on m.syslog (log_of m.process_name ms);
}

abbrev log_all : List (Level × Text) → Msg → Msg
log_all entries m = record m { logged = m.logged ++ entries }

type_name_lem : (type : ℕ) → type_name type ≡ some (name_of type)
unfolding type_name
type_name_lem zero = refl
type_name_lem (suc zero) = refl
type_name_lem (suc (suc zero)) = refl
type_name_lem (suc (suc (suc zero))) = refl
type_name_lem (suc (suc (suc (suc zero)))) = refl
type_name_lem (suc (suc (suc (suc (suc n))))) =
    let over : leb (suc (suc (suc (suc (suc n))))) evf_max ≡ false = ground arith in rw over refl

msg_syslog_lem :
    (type : ℕ) (text : Text) (m : Msg)
    → msg_syslog type text m ≡ some (log_all (entries_of m.process_name (type, text)) m)
unfolding msg_syslog
msg_syslog_lem zero text m = refl
msg_syslog_lem (suc zero) text m = refl
msg_syslog_lem (suc (suc zero)) text m = refl
msg_syslog_lem (suc (suc (suc zero))) text m = refl
msg_syslog_lem (suc (suc (suc (suc zero)))) text m = refl
msg_syslog_lem (suc (suc (suc (suc (suc n))))) text m =
    let over : leb (suc (suc (suc (suc (suc n))))) evf_max ≡ false = ground arith in
    rw over (ap (λ l. some (record m { logged = l })) (append_assoc m.logged _ _))

-- A message that is heard, on the sinks that are on.
abbrev print_if : Bool → Message → Msg → Msg
print_if b message m = record m { printed = m.printed ++ on b (line_of message ∷ []) }

abbrev log_if : Bool → Message → Msg → Msg
log_if b message m = record m { logged = m.logged ++ on b (entries_of m.process_name message) }

print_if_lem :
    (b : Bool) (type : ℕ) (text : Text) (m : Msg)
    → (if b then msg_stderr type text m else some m) ≡ some (print_if b (type, text) m)
unfolding msg_stderr
print_if_lem true type text m = ap (λ n. print_named n text m) (type_name_lem type)
print_if_lem false type text m =
    ap (λ p. some (record m { printed = p })) (sym (append-nil m.printed))

log_if_lem :
    (b : Bool) (type : ℕ) (text : Text) (m : Msg)
    → (if b then msg_syslog type text m else some m) ≡ some (log_if b (type, text) m)
log_if_lem true type text m = msg_syslog_lem type text m
log_if_lem false type text m = ap (λ l. some (record m { logged = l })) (sym (append-nil m.logged))

sinks_lem :
    (type : ℕ) (text : Text) (m : Msg)
    → to_syslog type text (to_stderr type text m)
      ≡ some (log_if m.syslog (type, text) (print_if m.stderr (type, text) m))
sinks_lem type text m =
    ap (to_syslog type text) (print_if_lem m.stderr type text m)
    ∙ log_if_lem m.syslog type text (print_if m.stderr (type, text) m)

-- A message, if it is heard.
abbrev added : Bool → Message → Msg → Msg
added true message m = log_if m.syslog message (print_if m.stderr message m)
added false message m = m

msg_lem :
    (type : ℕ) (text : Text) (m : Msg)
    → msg type text m ≡ some (added (leb type m.verbosity) (type, text) m)
unfolding msg
msg_lem type text m = elim (Bool-cases (leb type m.verbosity)) [
  | inl light ↦
      let below : ltb m.verbosity type ≡ false = ground (arith, light) in
      rw (below, light) (sinks_lem type text m)
  | inr heavy ↦
      let above : ltb m.verbosity type ≡ true = ground (arith, heavy) in rw (above, heavy) refl
]

on-append : {A : Type 0} (b : Bool) (xs ys : List A) → on b (xs ++ ys) ≡ on b xs ++ on b ys
on-append true xs ys = refl
on-append false xs ys = refl

on-nil : {A : Type 0} (b : Bool) → on {A = A} b [] ≡ []
on-nil true = refl
on-nil false = refl

leave-cons :
    (message : Message) (ms : List Message) (m : Msg)
    → leave ms (added true message m) ≡ leave (message ∷ ms) m
leave-cons message ms m =
    let entries = entries_of m.process_name message in
    let printed : (m.printed ++ on m.stderr (line_of message ∷ [])) ++ on m.stderr (map line_of ms)
        ≡ m.printed ++ on m.stderr (line_of message ∷ map line_of ms) =
      append_assoc m.printed _ _
      ∙ ap (λ t. m.printed ++ t)
          (sym (on-append m.stderr (line_of message ∷ []) (map line_of ms))) in
    let logged : (m.logged ++ on m.syslog entries) ++ on m.syslog (log_of m.process_name ms)
        ≡ m.logged ++ on m.syslog (entries ++ log_of m.process_name ms) =
      append_assoc m.logged _ _
      ∙ ap (λ t. m.logged ++ t) (sym (on-append m.syslog entries (log_of m.process_name ms))) in
    ap
      (λ p. record m {
        printed = p;
        logged = (m.logged ++ on m.syslog entries) ++ on m.syslog (log_of m.process_name ms);
      })
      printed
    ∙ ap
        (λ l. record m {
          printed = m.printed ++ on m.stderr (line_of message ∷ map line_of ms);
          logged = l;
        })
        logged

leave-added :
    (b : Bool) (message : Message) (ms : List Message) (m : Msg)
    → leave ms (added b message m) ≡ leave (if b then message ∷ ms else ms) m
leave-added true message ms m = leave-cons message ms m
leave-added false message ms m = refl

added-verbosity :
    (b : Bool) (message : Message) (m : Msg) → (added b message m).verbosity ≡ m.verbosity
added-verbosity true message m = refl
added-verbosity false message m = refl

-- Of a list of messages exactly those are heard whose type is not above the verbosity, in their
-- order: each as a line on the standard error output, if that is on, and in the log of the system,
-- if that is on. No type is looked up outside of the tables, and nothing else changes.
pub msgs_lem : (ms : List Message) (m : Msg) → msgs ms m ≡ some (leave (heard m.verbosity ms) m)
unfolding msgs
msgs_lem [] m =
    ap (λ p. some (record m { printed = p }))
      (sym (append-nil m.printed) ∙ ap (λ t. m.printed ++ t) (sym (on-nil m.stderr)))
    ∙ ap (λ l. some (record m { printed = m.printed ++ on m.stderr []; logged = l }))
        (sym (append-nil m.logged) ∙ ap (λ t. m.logged ++ t) (sym (on-nil m.syslog)))
msgs_lem ((type, text) ∷ ms) m =
    let b = leb type m.verbosity in
    let m' = added b (type, text) m in
    ap (λ r. elim r [ none ↦ none | some m' ↦ msgs ms m' ]) (msg_lem type text m)
    ∙ msgs_lem ms m'
    ∙ ap (λ v. some (leave (heard v ms) m')) (added-verbosity b (type, text) m)
    ∙ ap some (leave-added b (type, text) (heard m.verbosity ms) m)
