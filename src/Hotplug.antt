-- ===== src/Hotplug.antt =====
-- src/evf_hotplug.c: the devices that are there at the start, and those that come and go.
pub mod Walk
pub mod Rescan
use libevfilter.Base.{
  ℕ, zero, suc, ◌+◌, Bool, true, false, Option, none, some, List, [], ◌∷◌, ◌++◌, ◌==◌, ◌&&◌,
  if◌then◌else◌, take, drop, length,
}
use libevfilter.Base.Int.{ℤ, pos, negsuc, ltb_ℤ, to_int}
use libevfilter.Base.Text.{Text, codes}

abbrev evf_dev_path : Text
evf_dev_path = codes "/dev/input/"

abbrev pub evf_buf_len : ℕ
evf_buf_len = 1024

-- `!strncmp(name, s, n)` for a text `s` of `n` bytes.
abbrev pub starts_with : Text → Text → Bool
starts_with [] name = true
starts_with (a ∷ s) [] = false
starts_with (a ∷ s) (b ∷ name) = (a == b) && starts_with s name

unfoldable pub is_event_name : Text → Bool
is_event_name name = starts_with (codes "event") name

-- What `snprintf` stores for a name.
abbrev pub dev_of : Text → Text
dev_of name = take 1023 (evf_dev_path ++ name)

-- The static variables; a callback is known by a number, and NULL is none. `closed` is what `close`
-- was called with.
pub record Statics : Type 0 where
  pub dev_plug : Option ℕ
  pub dev_unplug : Option ℕ
  pub select_fd : ℕ
  pub closed : List ℕ

-- What a callback does to the rest of the program, and `errno` there.
pub record Host (W : Type 0) : Type 0 where
  pub call : ℕ → Text → W → W
  pub errno : W → ℕ
  pub set_errno : ℕ → W → W

-- A directory: the names that `readdir` gives in turn, and the error by which it ends, if any.
pub record Dir : Type 0 where
  pub names : List Text
  pub error : Option ℕ

abbrev pub if_errno : ℕ → ℕ
if_errno zero = 0
if_errno (suc _) = 1

-- `evf_hotplug_init` from `inotify_init` on, with its result and that of `inotify_add_watch`.
unfoldable pub watch_dir : Option ℕ → Bool → Statics → ℤ × Statics
watch_dir none watched s = (negsuc 0, s)
watch_dir (some fd) false s = (negsuc 0, record s { closed = s.closed ++ (fd ∷ []) })
watch_dir (some fd) true s = (pos fd, record s { select_fd = fd })

-- The rest of `evf_hotplug_init`, behind `walk`.
unfoldable pub after_walk : {W : Type 0} → Option ℕ → Bool → Statics → ℕ × W → (ℤ × Statics) × W
unfolding watch_dir
after_walk inotify watched s (zero, w) = (watch_dir inotify watched s, w)
after_walk inotify watched s (suc _, w) = ((negsuc 0, s), w)

module _ {W : Type 0} (h : Host W) where
  -- The loop of `walk`.
  unfoldable pub walk_names : List Text → Option ℕ → W → W
  walk_names [] plug w = w
  walk_names (name ∷ names) none w = walk_names names none w
  walk_names (name ∷ names) (some f) w =
      walk_names names (some f) (if is_event_name name then h.call f (dev_of name) w else w)

  abbrev pub end_errno : Option ℕ → W → W
  end_errno none w = w
  end_errno (some e) w = h.set_errno e w

  -- `walk`; `none` is a directory that cannot be opened.
  unfoldable pub walk : Option Dir → Option ℕ → W → ℕ × W
  unfolding walk_names
  walk none plug w = (1, w)
  walk (some dir) plug w =
      let w' = end_errno dir.error (walk_names dir.names plug (h.set_errno 0 w)) in
      (if_errno (h.errno w'), w')

  -- `evf_hotplug_init`.
  unfoldable pub hotplug_init :
      (plug unplug : Option ℕ)
      → Option Dir
      → (inotify : Option ℕ) (watched : Bool) → Statics
      → W
      → (ℤ × Statics) × W
  unfolding walk after_walk
  hotplug_init plug unplug dir inotify watched s w =
      after_walk inotify watched (record s { dev_plug = plug; dev_unplug = unplug })
        (walk dir plug w)

-- `struct inotify_event` of the kernel's sys/inotify.h: the size of its fixed part, two of the
-- members as they are read from memory, and the bits of `mask`.
pub record Inotify : Type 0 where
  pub size : ℕ
  pub mask : List ℕ → ℕ
  pub len : List ℕ → ℕ
  pub in_create : ℕ → Bool
  pub in_delete : ℕ → Bool

-- The C string at the front of memory; `none` runs over its end.
unfoldable pub c_string : List ℕ → Option Text
c_string [] = none
c_string (b ∷ bs) =
    if b == 0 then some [] else elim (c_string bs) [ none ↦ none | some t ↦ some (b ∷ t) ]

-- `!strncmp(mem, s, n)` for a text `s` of `n` bytes; `none` runs over the end of the memory.
unfoldable pub begins : Text → List ℕ → Option Bool
begins [] mem = some true
begins (a ∷ s) [] = none
begins (a ∷ s) (b ∷ mem) = let rest = begins s mem in if a == b then rest else some false

-- The counter as the result.
abbrev pub counted_as_int : {W : Type 0} → Option (ℕ × W) → Option (ℤ × W)
counted_as_int none = none
counted_as_int (some (nr, w)) = some (pos nr, w)

module _ {W : Type 0} (h : Host W) (k : Inotify) where
  -- A callback that is set, with its counter.
  abbrev pub call_if : Option ℕ → Bool → Text → ℕ × W → ℕ × W
  call_if none test dev (nr, w) = (nr, w)
  call_if (some f) test dev (nr, w) = if test then (nr + 1, h.call f dev w) else (nr, w)

  -- What is done with an event whose name begins with "event".
  unfoldable pub dispatch : Statics → (mask : ℕ) → Text → ℕ × W → ℕ × W
  dispatch s mask name r =
      call_if s.dev_unplug (k.in_delete mask) (dev_of name)
        (call_if s.dev_plug (k.in_create mask) (dev_of name) r)

  -- The text of `ev->name`; `none` runs over the end of what was written.
  unfoldable pub named : Statics → (mask : ℕ) → Option Text → ℕ × W → Option (ℕ × W)
  unfolding dispatch
  named s mask none r = none
  named s mask (some name) r = some (dispatch s mask name r)

  -- `ev->name` as it lies in memory, with the result of its comparison.
  unfoldable pub compared : Statics → (mask : ℕ) → List ℕ → Option Bool → ℕ × W → Option (ℕ × W)
  unfolding named c_string
  compared s mask mem none r = none
  compared s mask mem (some false) r = some r
  compared s mask mem (some true) r = named s mask (c_string mem) r

  -- The body of the loop, at the bytes from an event on.
  unfoldable pub look : Statics → List ℕ → ℕ × W → Option (ℕ × W)
  unfolding compared begins
  look s bytes r =
      let mem = drop k.size bytes in
      if k.len bytes == 0
      then some r
      else compared s (k.mask bytes) mem (begins (codes "event") mem) r

  -- The loop of `evf_hotplug_rescan` at the index `i`; `none` is a read outside of the bytes or the
  -- end of the fuel.
  unfoldable pub rescan_from : ℕ → Statics → List ℕ → ℤ → ℕ × W → Option (ℕ × W)
  rescan_from zero s buf i r = none
  rescan_from (suc fuel) s buf (negsuc i) r = none
  rescan_from (suc fuel) s buf (pos i) r =
      if ltb_ℤ (pos i) (pos (length buf))
      then elim (look s (drop i buf) r) [
        | none ↦ none
        | some r' ↦ rescan_from fuel s buf (to_int (pos (i + k.len (drop i buf) + k.size))) r'
      ]
      else some r

  -- `evf_hotplug_rescan`, with what `read` gives.
  unfoldable pub rescan : ℕ → Statics → Option (List ℕ) → W → Option (ℤ × W)
  rescan fuel s none w = some (negsuc 0, w)
  rescan fuel s (some buf) w = counted_as_int (rescan_from fuel s buf (pos 0) (0, w))

-- `evf_hotplug_exit`.
unfoldable pub hotplug_exit : Statics → Statics
hotplug_exit s = record s { closed = s.closed ++ (s.select_fd ∷ []) }
