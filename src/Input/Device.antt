-- ===== src/Input/Device.antt =====
-- What src/evf_input.c asks the kernel of a device, with what `ioctl`, `fstat` and `stat` give.
use libevfilter.Base.{ℕ, Option, none, some, ◌==◌, if◌then◌else◌}
use libevfilter.Base.Int.{ℤ, pos, negsuc, ltb_ℤ, ◌==ℤ◌}

-- `evf_input_get_version`.
unfoldable pub input_get_version : (ioctl : ℤ) → ℤ
input_get_version ioctl = if ioctl ==ℤ pos 0 then pos 0 else negsuc 0

-- `evf_input_get_name` and `evf_input_get_phys`: the number of bytes that were copied.
unfoldable pub input_get_name : (ioctl : ℤ) → ℤ
input_get_name ioctl = if ltb_ℤ (pos 0) ioctl then ioctl else negsuc 0

unfoldable pub input_get_phys : (ioctl : ℤ) → ℤ
input_get_phys ioctl = if ltb_ℤ (pos 0) ioctl then ioctl else negsuc 0

-- `evf_input_compare`: the numbers of the two devices, if they can be had.
unfoldable pub input_compare : (fstat stat : Option ℕ) → ℤ
input_compare none stat = negsuc 0
input_compare (some a) none = negsuc 0
input_compare (some a) (some b) = if a == b then pos 1 else pos 0

-- The requests of `evf_input_grab` and `evf_input_ungrab`, which return what `ioctl` gives.
unfoldable pub input_grab : (ioctl : ℕ → ℤ) → ℤ
input_grab ioctl = ioctl 1

unfoldable pub input_ungrab : (ioctl : ℕ → ℤ) → ℤ
input_ungrab ioctl = ioctl 0
