-- ===== src/Uinput.antt =====
-- src/evf_uinput.c and the paths of src/config.c: devices that the program makes.
pub mod Closed
use libevfilter.Base.{ℕ, zero, suc, Bool, true, false, Option, none, some, List, [], ◌∷◌, ◌++◌}
use libevfilter.Base.Int.{ℤ, pos, negsuc}
use libevfilter.Base.Text.{Text, codes}
use libevfilter.Event.{ev_key, ev_rel, rel_x, rel_y, rel_wheel, rel_hwheel}

abbrev pub uinput_dev_paths : List Text
uinput_dev_paths = codes "/dev/input/uinput" ∷ codes "/dev/uinput" ∷ []

-- The loop of `try_open`, `fd` being its variable; `open` gives a descriptor or -1.
unfoldable pub try_open : (opens : Text → Option ℕ) → (fd : Option ℕ) → List Text → Option ℕ
try_open opens fd [] = fd
try_open opens fd (path ∷ paths) = elim (opens path) [
  | none ↦ try_open opens none paths
  | some n ↦ some n
]

-- The requests of `ioctl`.
pub data Request : Type 0 where
  set_evbit set_relbit set_keybit : ℕ → Request
  dev_create dev_destroy : Request

-- The calls on a descriptor.
pub data Call : Type 0 where
  ioctl : ℕ → Request → Call
  write close : ℕ → Call

-- The calls for the keys from `i` on, of which `n` are left.
abbrev pub set_keys : (fd i n : ℕ) → List Call
set_keys fd i zero = []
set_keys fd i (suc n) = ioctl fd (set_keybit i) ∷ set_keys fd (suc i) n

-- What comes in front of `write`; BTN_MOUSE and KEY_MAX are of linux/input.h.
unfoldable pub set_bits : (btn_mouse key_max fd : ℕ) → List Call
set_bits btn_mouse key_max fd =
    ioctl fd (set_evbit ev_key)
    ∷ ioctl fd (set_evbit ev_rel)
    ∷ ioctl fd (set_relbit rel_x)
    ∷ ioctl fd (set_relbit rel_y)
    ∷ ioctl fd (set_relbit rel_wheel)
    ∷ ioctl fd (set_relbit rel_hwheel)
    ∷ ioctl fd (set_keybit btn_mouse)
    ∷ set_keys fd 0 key_max

-- `evf_uinput_create` from `write` on: has all been written, and was the device made?
unfoldable pub made : (fd : ℕ) → (written created : Bool) → ℤ × List Call
made fd false created = (negsuc 1, write fd ∷ close fd ∷ [])
made fd true false = (negsuc 2, write fd ∷ ioctl fd dev_create ∷ close fd ∷ [])
made fd true true = (pos fd, write fd ∷ ioctl fd dev_create ∷ [])

-- `evf_uinput_create` behind `try_open`.
unfoldable pub on_opened :
    (btn_mouse key_max : ℕ) → (written created : Bool) → Option ℕ → ℤ × List Call
unfolding set_bits made
on_opened btn_mouse key_max written created none = (negsuc 0, [])
on_opened btn_mouse key_max written created (some fd) =
    let (result, calls) = made fd written created in
    (result, set_bits btn_mouse key_max fd ++ calls)

-- `evf_uinput_create`: its result and what it calls behind `open`.
unfoldable pub uinput_create :
    (btn_mouse key_max : ℕ) → (Text → Option ℕ) → (written created : Bool) → ℤ × List Call
unfolding on_opened try_open
uinput_create btn_mouse key_max opens written created =
    on_opened btn_mouse key_max written created (try_open opens none uinput_dev_paths)

-- `evf_uinput_destroy`.
unfoldable pub uinput_destroy : ℕ → List Call
uinput_destroy fd = ioctl fd dev_destroy ∷ close fd ∷ []
