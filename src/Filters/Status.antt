-- ===== src/Filters/Status.antt =====
-- The functions `status` of src/filters, which tell the state of a filter as text.
pub mod Fits
pub mod Each
pub mod Made
use libevfilter.Base.{
  ℕ, ◌+◌, ◌-◌, Option, none, some, List, [], ◌∷◌, ◌++◌, ltb, if◌then◌else◌, length, take, get_elem?,
}
use libevfilter.Base.Int.{ℤ, pos, negsuc, ◌==ℤ◌}
use libevfilter.Base.Text.{Text, codes}
use libevfilter.Event.{nonzero}
use libevfilter.Param.Load.{evtypes}
use libevfilter.Handle.{Store}
use libevfilter.KeyParser.{getname}
use libevfilter.KeyParser.Table.{key_names}
use libevfilter.Filters.Abs2Rel.{Abs2Rel}
use libevfilter.Filters.Barrier.{Barrier}
use libevfilter.Filters.Btn2Rel.{Btn2Rel}
use libevfilter.Filters.CopyToHandle.{CopyToHandle}
use libevfilter.Filters.FilterToHandle.{FilterToHandle}
use libevfilter.Filters.GetFromHandle.{GetFromHandle}
use libevfilter.Filters.Kalman.{Kalman}
use libevfilter.Filters.KeyLock.{KeyLock}
use libevfilter.Filters.KeySubstitute.{KeySubstitute}
use libevfilter.Filters.Mirror.{Mirror}
use libevfilter.Filters.PressureToKey.{Pressure}
use libevfilter.Filters.Rel2Scroll.{Rel2Scroll}
use libevfilter.Filters.Rotate.{Rotate}
use libevfilter.Filters.ScaleAbs.{Scale}
use libevfilter.Filters.SpeedMod.{RelSpeed}
use libevfilter.Filters.WeightedAverage.{Average}

-- `%i`, `%u` and `%f` of the C library, and `key_values` of the table of keys, whose numbers
-- linux/input.h gives.
pub record Formats (F : Type 0) : Type 0 where
  pub decimal : ℤ → Text
  pub unsigned : ℕ → Text
  pub float : F → Text
  pub key_values : List ℤ

-- `snprintf` into a buffer of at least one byte: what the buffer then holds.
abbrev pub snprintf : ℕ → Text → Option Text
snprintf len t = some (take (len - 1) t)

-- `snprintf` behind the first `l` of `len` bytes, where `l` counts also what did not fit: what the
-- buffer holds, and the new `l`. A length below 0 is taken as a large one: `none`.
unfoldable pub print_behind : ℕ → Text × ℕ → Text → Option (Text × ℕ)
print_behind len (buf, l) t =
    if ltb len l then none else some (buf ++ take (len - l - 1) t, l + length t)

-- A pointer that `%s` is given: `none` for NULL, and for a read behind the table of keys.
unfoldable pub with_name : Option (Option Text) → (Text → Option Text) → Option Text
with_name none told = none
with_name (some none) told = none
with_name (some (some name)) told = told name

module _ {F : Type 0} (f : Formats F) where
  open f use {decimal, unsigned, float, key_values}

  -- `keyparser_getname`.
  abbrev pub name_of_key : ℤ → Option (Option Text)
  name_of_key key = getname key_names key_values key

  abbrev pub pair : ℤ → ℤ → Text
  pair a b = codes "(" ++ (decimal a ++ (codes "," ++ (decimal b ++ codes ")")))

  unfoldable pub abs2rel_status : ℕ → Abs2Rel → Option Text
  abs2rel_status len s = snprintf len (
      codes "Translating absolute events to relative. Last position="
      ++ pair s.last_absx s.last_absy)

  abbrev pub barrier_status : ℕ → Barrier → Option Text
  barrier_status len b = snprintf len (
      codes "Barrier queue with "
      ++ (unsigned b.queue_index ++ (codes " items (max " ++ (unsigned b.queue_size ++ codes ")"))))

  abbrev pub commit_status : ℕ → Option Text
  commit_status len = snprintf len (codes "Commit filter")

  abbrev pub copy_to_handle_status : ℕ → CopyToHandle → Option Text
  copy_to_handle_status len s = snprintf len (codes "Copying to handle '" ++ (s.name ++ codes "'"))

  abbrev pub dump_status : ℕ → Option Text
  dump_status len = snprintf len (codes "Dumping to file")

  abbrev pub get_from_handle_status : ℕ → GetFromHandle → Option Text
  get_from_handle_status len s =
      snprintf len (codes "Getting from handle '" ++ (s.name ++ codes "'"))

  abbrev pub kalman_status : ℕ → Kalman F → Option Text
  kalman_status len s =
      snprintf len (codes "Kalman filter with kx=" ++ (float s.kx ++ (codes " ky=" ++ float s.ky)))

  abbrev pub pressed_name : ℤ → Text
  pressed_name v = if nonzero v then codes "pressed" else codes "released"

  unfoldable pub key_lock_status : ℕ → KeyLock → Option Text
  unfolding with_name
  key_lock_status len s = with_name (name_of_key s.key) (λ key. snprintf len (
      codes "KeyLock on key "
      ++ (key ++ (codes " (status: " ++ (pressed_name s.state ++ codes ")")))))

  unfoldable pub key_substitute_status : ℕ → KeySubstitute → Option Text
  unfolding with_name
  key_substitute_status len s = with_name (name_of_key s.key_from) (λ from.
      with_name (name_of_key s.key_to)
        (λ to. snprintf len (codes "KeySubstitute from " ++ (from ++ (codes " to " ++ to)))))

  unfoldable pub mirror_status : ℕ → Mirror → Option Text
  mirror_status len m =
      snprintf len
        (codes "Mirror - abs" ++ (pair m.abs_x m.abs_y ++ (codes " rel" ++ pair m.rel_x m.rel_y)))

  unfoldable pub no_repeat_status : ℕ → Option Text
  no_repeat_status len = snprintf len (codes "NoRepeat")

  unfoldable pub pressure_to_key_status : ℕ → Pressure → Option Text
  unfolding with_name
  pressure_to_key_status len p = with_name (name_of_key p.key) (λ key. snprintf len (
      codes "Pressure2key - key "
      ++ (key
          ++ (codes " treshold "
              ++ (decimal p.treshold ++ (codes " (" ++ (pressed_name p.pressed ++ codes ")")))))))

  unfoldable pub rel2scroll_status : ℕ → Rel2Scroll → Option Text
  unfolding with_name
  rel2scroll_status len s = with_name (name_of_key s.trigger_btn) (λ trigger. snprintf len (
      codes "rel2scroll ("
      ++ ((if s.trigger_on then codes "scrolling" else codes "moving")
          ++ (codes ") - trigger " ++ (trigger ++ (codes ", divisors " ++ pair s.xmod s.ymod))))))

  unfoldable pub rotate_status : ℕ → Rotate → Option Text
  rotate_status len r = snprintf len (
      codes "Rotate X/Y "
      ++ ((if nonzero r.abs_coords then codes "abs" else codes "noabs")
          ++ (codes " " ++ (if nonzero r.rel_coords then codes "rel" else codes "norel"))))

  abbrev pub scale_abs_status : ℕ → Scale → Option Text
  scale_abs_status len s =
      snprintf len
        (codes "Scale_abs " ++ (pair s.minx s.miny ++ (codes " - " ++ pair s.maxx s.maxy)))

  unfoldable pub speed_mod_status : ℕ → RelSpeed → Option Text
  speed_mod_status len s = snprintf len (codes "Relspeed slowdown factors " ++ pair s.xmod s.ymod)

  abbrev pub weighted_average_status : ℕ → Average → Option Text
  weighted_average_status len s =
      snprintf len (codes "weighted_average_abs of last " ++ (decimal (pos s.n) ++ codes " values"))

  -- `evtypes[priv->type]`: `none` outside of the array, and `some none` for the NULL at its end.
  abbrev pub evtype_name : ℤ → Option (Option Text)
  evtype_name (pos i) = if ltb (length evtypes) i then none else some (get_elem? evtypes i)
  evtype_name (negsuc n) = none

  -- The handle, which `evf_filter_to_handle_alloc` never leaves as NULL, is read where it lies.
  unfoldable pub filter_to_handle_status : ℕ → Store → FilterToHandle → Option Text
  unfolding with_name
  filter_to_handle_status len handles s = with_name (evtype_name s.type) (λ type.
      elim (handles.cell s.handle) [
        | none ↦ none
        | some h ↦ snprintf len (
            codes "Sending events of type "
            ++ (type
                ++ (codes " code "
                    ++ (decimal s.code ++ (codes " to handle '" ++ (h.name ++ codes "'"))))))
      ])

  -- The loop of `btn2rel`, over the names of the rows and their keys.
  unfoldable pub put_keys : ℕ → List (Text × ℤ) → Text × ℕ → Option (Text × ℕ)
  put_keys len [] buf = some buf
  put_keys len ((dir, key) ∷ rows) buf =
      if key ==ℤ pos 0 then put_keys len rows buf else elim (name_of_key key) [
        | none ↦ none
        | some none ↦ none
        | some (some name) ↦
            elim (print_behind len buf (dir ++ (codes ":" ++ (name ++ codes " ")))) [
              | none ↦ none
              | some buf' ↦ put_keys len rows buf'
            ]
      ]

  abbrev pub rows_of : Btn2Rel → List (Text × ℤ)
  rows_of s =
      (codes "up", s.key_up)
      ∷ (codes "down", s.key_down)
      ∷ (codes "left", s.key_left)
      ∷ (codes "right", s.key_right)
      ∷ (codes "lbtn", s.left_btn)
      ∷ (codes "mbtn", s.middle_btn)
      ∷ (codes "rbtn", s.right_btn)
      ∷ []

  unfoldable pub btn2rel_status : ℕ → Btn2Rel → Option Text
  btn2rel_status len s = elim (print_behind len ([], 0) (codes "Keyboard to mouse ( ")) [
    | none ↦ none
    | some begun ↦ elim (put_keys len (rows_of s) begun) [
      | none ↦ none
      | some listed ↦ elim (print_behind len listed (codes ")")) [
        | none ↦ none
        | some ended ↦ some ended.0
      ]
    ]
  ]
