-- ===== src/Tests/Hotplugs.antt =====
-- The theorems on src/evf_hotplug.c, at devices that come and go.
use libevfilter.Base.{
  ℕ, ◌+◌, ◌*◌, ◌/◌, ◌%◌, ◌^◌, ◌<◌, ◌≡◌, inr, refl, arith, true, none, some, List, [], ◌∷◌, ◌++◌,
  ◌==◌,
}
use libevfilter.Base.Int.{pos, negsuc}
use libevfilter.Base.Text.{Text, codes}
use libevfilter.Hotplug.{Statics, Host, Inotify, is_event_name, hotplug_init, rescan}
use libevfilter.Hotplug.Walk.{make_calls, reported, init-reported, errno_refuses}
use libevfilter.Hotplug.Rescan.{Note, IsNote, IsLayout, print_notes, rescan-due}

-- The program's state: the calls, and `errno`, which the second callback sets.
abbrev Program : Type 0
Program = List (ℕ × Text) × ℕ

abbrev host : Host Program
host = record {
  call = λ f dev w. (w.0 ++ ((f, dev) ∷ []), w.1);
  errno = λ w. w.1;
  set_errno = λ e w. (w.0, e);
}

abbrev failing : Host Program
failing = record {
  call = λ f dev w. (w.0 ++ ((f, dev) ∷ []), 2);
  errno = λ w. w.1;
  set_errno = λ e w. (w.0, e);
}

abbrev unset : Statics
unset = record { dev_plug = none; dev_unplug = none; select_fd = 0; closed = [] }

abbrev names : List Text
names = codes "." ∷ codes "event0" ∷ codes "mice" ∷ codes "event1" ∷ []

init-reported_example :
    hotplug_init host
      (some 7)
      none
      (some (record { names = names; error = none }))
      (some 4)
      true
      unset
      ([], 9)
    ≡ (
      (pos 4, record { dev_plug = some 7; dev_unplug = none; select_fd = 4; closed = [] }),
      make_calls host (reported (some 7) names) ([], 0),
    )
init-reported_example =
    init-reported host (some 7) none names 4 unset ([], 9) (λ f dev w. refl) (λ e w. refl)

errno_refuses_example :
    hotplug_init failing
      (some 7)
      none
      (some (record { names = names; error = none }))
      (some 4)
      true
      unset
      ([], 0)
    ≡ (
      (negsuc 0, record unset { dev_plug = some 7; dev_unplug = none }),
      make_calls failing (reported (some 7) names) ([], 0),
    )
unfolding is_event_name
errno_refuses_example = errno_refuses failing (some 7) none names (some 4) true unset 1 ([], 0) refl

-- Four bytes, the lowest first, and a number from four bytes.
abbrev word : ℕ → List ℕ
word n = n % 256 ∷ n / 256 % 256 ∷ n / 256 / 256 % 256 ∷ n / 256 / 256 / 256 ∷ []

abbrev word_at : List ℕ → ℕ
word_at (a ∷ b ∷ c ∷ d ∷ _) = a + 256 * (b + 256 * (c + 256 * d))
word_at _ = 0

abbrev mask_at : List ℕ → ℕ
mask_at (_ ∷ _ ∷ _ ∷ _ ∷ m) = word_at m
mask_at _ = 0

abbrev len_at : List ℕ → ℕ
len_at (_ ∷ _ ∷ _ ∷ _ ∷ _ ∷ _ ∷ _ ∷ _ ∷ _ ∷ _ ∷ _ ∷ _ ∷ l) = word_at l
len_at _ = 0

-- `wd` and `cookie` are 1 and 0 here.
abbrev header : ℕ → ℕ → List ℕ
header mask len = word 1 ++ (word mask ++ (word 0 ++ word len))

abbrev layout : Inotify
layout = record {
  size = 16;
  mask = mask_at;
  len = len_at;
  in_create = λ m. m / 256 % 2 == 1;
  in_delete = λ m. m / 512 % 2 == 1;
}

word_back :
    (n : ℕ)
    → n < 2 ^ 32
    → n % 256 + 256 * (n / 256 % 256 + 256 * (n / 256 / 256 % 256 + 256 * (n / 256 / 256 / 256)))
      ≡ n
word_back n h = omega arith

header-IsLayout : IsLayout layout header
header-IsLayout = record {
  positive = omega arith;
  sized = λ m l. refl;
  mask_back = λ m l rest small _. word_back m small;
  len_back = λ m l rest _ small. word_back l small;
}

-- One device comes, a file of another kind comes, and another device goes.
abbrev notes : List Note
notes =
    record { mask = 256; name = codes "event5"; pad = 10 }
    ∷ record { mask = 256; name = codes "mice"; pad = 12 }
    ∷ record { mask = 512; name = codes "event2"; pad = 10 }
    ∷ []

abbrev watching : Statics
watching = record { dev_plug = some 7; dev_unplug = some 8; select_fd = 4; closed = [] }

plugged : IsNote (record { mask = 256; name = codes "event5"; pad = 10 })
plugged = record {
  mask_fits = omega arith;
  len_fits = omega arith;
  no_nul = ground arith;
  ended = inr (omega arith);
}

other : IsNote (record { mask = 256; name = codes "mice"; pad = 12 })
other = record {
  mask_fits = omega arith;
  len_fits = omega arith;
  no_nul = ground arith;
  ended = inr (omega arith);
}

unplugged : IsNote (record { mask = 512; name = codes "event2"; pad = 10 })
unplugged = record {
  mask_fits = omega arith;
  len_fits = omega arith;
  no_nul = ground arith;
  ended = inr (omega arith);
}

rescan-due_example :
    rescan host layout 4 watching (some (print_notes header notes)) ([], 0)
    ≡ some (pos 2, ((7, codes "/dev/input/event5") ∷ (8, codes "/dev/input/event2") ∷ [], 0))
unfolding is_event_name
rescan-due_example =
    rescan-due host layout header header-IsLayout watching notes 4 ([], 0)
      (plugged, (other, (unplugged, tt))) (omega arith) (omega arith)
