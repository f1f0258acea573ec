-- ===== src/Tests/Names.antt =====
-- Names of events for src/evf_input.c, and the lock of src/evfd/evfd_lock.c.
use libevfilter.Base.{
  ℕ, ◌==◌, if◌then◌else◌, ◌≡◌, ◌≢◌, ◌↔◌, refl, arith, true, Option, none, some, [], ◌∷◌,
}
use libevfilter.Base.Int.{pos, negsuc, ltb_ℤ}
use libevfilter.Base.Text.{Text, codes}
use libevfilter.Event.{Event, ev_key}
use libevfilter.Input.{input_type, input_code, input_value, names_outside}
use libevfilter.Lock.{Os, written, load_pid, is_free, try_lock}
use libevfilter.Lock.Race.{
  Race, Reach, Step, IsProcess, idle, holds, here, next, take, tried, one_holds, both_hold,
}

-- One key has a name.
abbrev names_given : ℕ → Option Text
names_given code = if code == 30 then some (codes "Key_A") else none

abbrev odd_key : Event
odd_key = record { time = 1; type = 1; code = 30; value = negsuc 0 }

names_outside_example :
    (input_code names_given odd_key ≢ none)
    × (input_code names_given odd_key ≡ some none
        ↔ (odd_key.type ≡ ev_key) × (names_given odd_key.code ≡ none))
    × (input_type odd_key ≡ none ↔ odd_key.type ≡ 12)
    × (input_value odd_key ≡ none ↔ (odd_key.type ≡ ev_key) × (ltb_ℤ odd_key.value (pos 0) ≡ true))
names_outside_example = names_outside names_given odd_key

-- A number is written as one byte, and every process runs.
abbrev read_byte : Text → Option ℕ
read_byte [] = none
read_byte (b ∷ t) = some b

abbrev os : Os
os = record { scan = read_byte; print = λ pid. pid ∷ []; running = λ pid. true }

abbrev start : Race
start = record { file = none; phase = λ p. idle }

is_77 : IsProcess os 77
is_77 = record { positive = omega arith; fits = omega arith; back = refl; alive = refl }

is_78 : IsProcess os 78
is_78 = record { positive = omega arith; fits = omega arith; back = refl; alive = refl }

-- The process 77 takes the lock, and the process 78 is refused.
abbrev after_77 : Race
after_77 = tried 77 (try_lock os 77 written none) start

abbrev after_78 : Race
after_78 = tried 78 (try_lock os 78 written after_77.file) after_77

one_holds_example : (◌≡◌ {A = ℕ} 77 77) × (after_78.file ≡ some (77 ∷ []))
unfolding try_lock
one_holds_example =
    one_holds os {s = start} {t = after_78} (λ p e. ground (arith, e))
      (next (next here (take start 77 written is_77)) (take after_77 78 written is_78)) 77 77 refl
      refl

both_hold_example :
    (t : Race) × Reach (Step os) start t
    × (t.phase 77 ≡ holds)
    × (t.phase 78 ≡ holds)
    × (t.file ≡ some (78 ∷ []))
unfolding is_free load_pid
both_hold_example = both_hold os start 77 78 (λ e. omega (arith, e)) refl
