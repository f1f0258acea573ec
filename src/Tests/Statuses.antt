-- ===== src/Tests/Statuses.antt =====
-- What is told of filters, at concrete inputs.
use libevfilter.Base.{ℕ, suc, ◌≡◌, refl, arith, some, List, [], ◌∷◌, length}
use libevfilter.Base.Int.{ℤ, pos}
use libevfilter.Base.Text.{Text, codes}
use libevfilter.Param.Defs.{Env}
use libevfilter.KeyParser.{getname}
use libevfilter.KeyParser.Table.{key_names}
use libevfilter.KeyParser.Named.{getkey_total}
use libevfilter.Filters.Btn2Rel
use libevfilter.Filters.KeyLock
use libevfilter.Filters.KeySubstitute
use libevfilter.Filters.PressureToKey
use libevfilter.Filters.Rel2Scroll
use libevfilter.Filters.SpeedMod
use libevfilter.Filters.Mirror
use libevfilter.Filters.Rotate
use libevfilter.Filters.NoRepeat
use libevfilter.Filters.Abs2Rel
use libevfilter.Filters.Status.{
  Formats, print_behind, put_keys, btn2rel_status, key_lock_status, key_substitute_status,
  pressure_to_key_status, rel2scroll_status, speed_mod_status, mirror_status, rotate_status,
  no_repeat_status, abs2rel_status,
}
use libevfilter.Filters.Status.Made.{Tells, TellsRows, creat-Tells}
use libevfilter.Tests.Params.{toy_env, no_touch}

-- The numbers from `n` on.
abbrev numbered : ℕ → List Text → List ℤ
numbered n [] = []
numbered n (t ∷ ts) = pos n ∷ numbered (suc n) ts

-- Each key has the index of its name as its number, and each `int` is printed as a longest one.
abbrev toy_formats : Formats ℤ
toy_formats = record {
  decimal = λ v. codes "-2147483648";
  unsigned = λ n. codes "4294967295";
  float = λ x. codes "0.5";
  key_values = numbered 0 key_names;
}

all_numbered : length key_names ≡ length (numbered 0 key_names)
all_numbered = refl

-- With the table's own names.
abbrev named_env : Env ℤ
named_env = record toy_env {
  getkey = λ s. (getkey_total key_names toy_formats.key_values s all_numbered (omega arith)).0;
}

abbrev two_keys : Text
two_keys = codes "keyup=Key_Up leftbtn=Key_F1"

creat-Tells_example :
    TellsRows toy_formats (Btn2Rel.creat named_env two_keys)
    × Tells (key_lock_status toy_formats) (KeyLock.creat named_env two_keys)
    × Tells (key_substitute_status toy_formats) (KeySubstitute.creat named_env two_keys)
    × Tells (pressure_to_key_status toy_formats) (PressureToKey.creat named_env two_keys)
    × Tells (rel2scroll_status toy_formats) (Rel2Scroll.creat named_env two_keys)
    × Tells (speed_mod_status toy_formats) (SpeedMod.creat named_env two_keys)
    × Tells (mirror_status toy_formats) (Mirror.creat named_env two_keys)
    × Tells (rotate_status toy_formats) (Rotate.creat named_env two_keys)
    × Tells (λ len s. no_repeat_status toy_formats len) (NoRepeat.creat named_env two_keys)
    × Tells (abs2rel_status toy_formats) (Abs2Rel.creat named_env no_touch two_keys)
creat-Tells_example =
    creat-Tells named_env toy_formats
      (λ s. (getkey_total key_names toy_formats.key_values s all_numbered (omega arith)).1)
      (λ v h. omega arith) two_keys no_touch refl refl

-- The keys with the numbers 0, 1 and 2: the first of them is not told.
told_rows :
    btn2rel_status toy_formats 260 (record {
      key_up = pos 1;
      key_down = pos 0;
      key_left = pos 2;
      key_right = pos 0;
      right_btn = pos 0;
      middle_btn = pos 0;
      left_btn = pos 0;
      eat_next_syn = pos 0;
    })
    ≡ some (codes "Keyboard to mouse ( up:Btn_1 left:Btn_2 )")
unfolding btn2rel_status put_keys print_behind getname
told_rows = refl
