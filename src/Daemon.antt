-- ===== src/Daemon.antt =====
-- src/evfd/evfd.c: what the daemon does when a device is plugged in, and with the data of one.
pub mod Gone
pub mod Main
pub mod Second
pub mod CleanUp
pub mod Errno
use libevfilter.Base.{
  ℕ, zero, suc, Bool, true, false, Option, none, some, List, [], ◌∷◌, ◌++◌, ◌==◌, if◌then◌else◌,
}
use libevfilter.Base.Int.{ℤ, pos}
use libevfilter.Base.Text.{Text, codes, text_eq}
use libevfilter.Event.{Event, Next, nonzero}
use libevfilter.FilterList.{Ptr}
use libevfilter.FilterList.Attach.{Line}
use libevfilter.Line.{
  Setup, World, line_made, no_line, line_refused, create, destroy, Read, process,
}
use libevfilter.IoQueue.{Memb, IoQueue, add}

-- The lines by their addresses, the memory and the descriptors, the uinput devices that were
-- destroyed, and the state `D` of what the filters write to.
pub record Daemon (D : Type 0) : Type 0 where
  pub lines : Ptr → Option Line
  pub world : World
  pub destroyed : List ℕ
  pub out : D

abbrev pub set_line : Ptr → Option Line → (Ptr → Option Line) → Ptr → Option Line
set_line l line lines a = if a == l then line else lines a

-- `our_input_device`: `probe` is none if `open` fails, and else what the array for the name holds.
unfoldable pub our_input_device : (probe : Option Text) → Bool
our_input_device none = true
our_input_device (some name) = text_eq name (codes "uinput device")

-- A number that is passed as a pointer.
abbrev pointer_of : ℕ → Option Ptr
pointer_of zero = none
pointer_of (suc n) = some (suc n)

-- EVF_IO_QUEUE_REM, if the line could be destroyed.
abbrev pub with_rem : {D : Type 0} → Option (Daemon D) → Option (ℕ × Daemon D)
with_rem none = none
with_rem (some d) = some (1, d)

module _ {D : Type 0} (fuel : ℕ) where
  -- `evf_line_destroy` of the line at an address, whose result is not used; `fuel` has a round for
  -- each of its filters.
  unfoldable pub drop_line : Ptr → Line → Daemon D → Option (Daemon D)
  drop_line l line d = elim (destroy fuel l line d.world) [
    | none ↦ none
    | some (priv, w) ↦ some (record d { world = w; lines = set_line l none d.lines })
  ]

  -- What `line_data` does with the result of `evf_line_process`.
  unfoldable pub settle_line : Ptr → Line → Daemon D → Option (ℤ × D) → Option (ℕ × Daemon D)
  unfolding drop_line
  settle_line l line d none = none
  settle_line l line d (some (result, out)) =
      if nonzero result
      then with_rem (drop_line l line (record d { out = out }))
      else some (0, record d { out = out })

  -- `line_data`: `reads` is what `read` gives for a descriptor, `filters` the filters of a line,
  -- and `none` an access to memory that is freed.
  unfoldable pub line_data :
      (reads : ℕ → Read) (filters : Line → Next D) (junk : Event)
      → Memb
      → Daemon D
      → Option (ℕ × Daemon D)
  unfolding settle_line
  line_data reads filters junk self d = elim (d.lines self.priv) [
    | none ↦ none
    | some line ↦ settle_line self.priv line d (process (filters line) junk (reads line.fd) d.out)
  ]

  -- From `evf_io_queue_add` on, with its result.
  unfoldable pub line_added :
      (uinput : ℕ) → Ptr → Line → Daemon D → IoQueue × Bool → Option (IoQueue × Daemon D)
  unfolding drop_line
  line_added uinput l line d (q, true) =
      some (q, record d { lines = set_line l (some line) d.lines })
  line_added uinput l line d (q, false) =
      elim (drop_line l line (record d { destroyed = d.destroyed ++ (uinput ∷ []) })) [
        | none ↦ none
        | some d' ↦ some (q, d')
      ]

  -- `device_plugged` from `evf_uinput_create` on, whose result is `uinput`; `callback` stands for
  -- `line_data`, and grabbing the device changes nothing here.
  unfoldable pub device_plugged :
      (probe : Option Text) (uinput : Option ℕ)
      → Setup
      → (memb_memory : Option ℕ) (callback : ℕ) → (dev : Text) → IoQueue
      → Daemon D
      → Option (IoQueue × Daemon D)
  unfolding our_input_device line_added
  device_plugged probe none s mem callback dev q d = some (q, d)
  device_plugged probe (some uinput) s mem callback dev q d =
      if our_input_device probe
      then some (q, d)
      else elim (create s dev (pointer_of uinput) 0 false d.world) [
        | none ↦ none
        | some (line_made l line, w) ↦
            line_added uinput l line (record d { world = w }) (add q mem line.fd callback l)
        | some (no_line, w) ↦
            some (q, record d { world = w; destroyed = d.destroyed ++ (uinput ∷ []) })
        | some (line_refused e, w) ↦
            some (q, record d { world = w; destroyed = d.destroyed ++ (uinput ∷ []) })
      ]
