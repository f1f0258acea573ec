-- ===== src/Filters/Status/Each.antt =====
-- The text that each function `status` tells fits into the buffer: src/filters.
use libevfilter.Base.{
  ◌≤◌, ◌<◌, ◌≡◌, ap, ◌∙◌, inl, inr, false, ◌++◌, arith, length, Bool-cases, length-append,
}
use libevfilter.Base.Int.{ℤ}
use libevfilter.Base.Text.{Text, codes}
use libevfilter.Event.{nonzero}
use libevfilter.Param.Load.{outside, int_limits}
use libevfilter.Filters.SpeedMod
use libevfilter.Filters.PressureToKey
use libevfilter.Filters.Mirror
use libevfilter.Filters.Rotate
use libevfilter.Filters.Rel2Scroll
use libevfilter.Filters.KeyLock
use libevfilter.Filters.KeySubstitute
use libevfilter.Filters.NoRepeat
use libevfilter.Filters.Abs2Rel
use libevfilter.Filters.Status.{
  Formats, snprintf, with_name, name_of_key, pair, pressed_name, speed_mod_status,
  pressure_to_key_status, mirror_status, rotate_status, rel2scroll_status, key_lock_status,
  key_substitute_status, abs2rel_status, no_repeat_status,
}
use libevfilter.Filters.Status.Fits.{print_len, IsTold, snprintf-IsTold, IsNamed}

module _ {G : Type 0} (f : Formats G)
    (short : (v : ℤ) → outside int_limits v ≡ false → length (f.decimal v) ≤ 11) where
  name-IsTold :
      (v : ℤ) (text : Text → Text)
      → IsNamed f v
      → ((n : Text) → length n ≤ 20 → length (text n) < print_len)
      → IsTold (λ len. with_name (name_of_key f v) (λ n. snprintf len (text n)))
  unfolding with_name
  name-IsTold v text (n, named, small) h =
      let (t, fits, told) = snprintf-IsTold (text n) (h n small) in
      (t, fits, λ len k. ap (λ o. with_name o (λ n. snprintf len (text n))) named ∙ told len k)

  length-pair :
      (a b : ℤ)
      → outside int_limits a ≡ false
      → outside int_limits b ≡ false
      → length (pair f a b) ≤ 25
  length-pair a b h k = omega (
    arith,
    short a h,
    short b k,
    length-append (f.decimal a) (codes "," ++ (f.decimal b ++ codes ")")),
    length-append (f.decimal b) (codes ")"),
  )

  length-pressed_name : (v : ℤ) → length (pressed_name f v) ≤ 8
  length-pressed_name v = elim (Bool-cases (nonzero v)) [
    | inl down ↦ rw down (omega arith)
    | inr up ↦ rw up (omega arith)
  ]

  pub key_lock-IsTold :
      (s : KeyLock.KeyLock) → IsNamed f s.key → IsTold (λ len. key_lock_status f len s)
  unfolding key_lock_status
  key_lock-IsTold s named = name-IsTold s.key _ named (λ n small.
      let state = length-pressed_name s.state in
      omega (
        arith,
        state,
        length-append n (codes " (status: " ++ (pressed_name f s.state ++ codes ")")),
        length-append (pressed_name f s.state) (codes ")"),
      ))

  pub pressure_to_key-IsTold :
      (p : PressureToKey.Pressure)
      → IsNamed f p.key
      → outside int_limits p.treshold ≡ false
      → IsTold (λ len. pressure_to_key_status f len p)
  unfolding pressure_to_key_status
  pressure_to_key-IsTold p named inside = name-IsTold p.key _ named (λ n small.
      let state = codes " (" ++ (pressed_name f p.pressed ++ codes ")") in
      omega (
        arith,
        short p.treshold inside,
        length-pressed_name p.pressed,
        length-append n (codes " treshold " ++ (f.decimal p.treshold ++ state)),
        length-append (f.decimal p.treshold) state,
        length-append (pressed_name f p.pressed) (codes ")"),
      ))

  pub rel2scroll-IsTold :
      (s : Rel2Scroll.Rel2Scroll)
      → IsNamed f s.trigger_btn
      → outside int_limits s.xmod ≡ false
      → outside int_limits s.ymod ≡ false
      → IsTold (λ len. rel2scroll_status f len s)
  unfolding rel2scroll_status
  rel2scroll-IsTold s named inx iny = name-IsTold s.trigger_btn _ named (λ n small.
      elim (Bool-cases s.trigger_on) [
        | inl on ↦ rw on (
            omega (
              arith,
              length-pair s.xmod s.ymod inx iny,
              length-append n (codes ", divisors " ++ pair f s.xmod s.ymod),
            ))
        | inr off ↦ rw off (
            omega (
              arith,
              length-pair s.xmod s.ymod inx iny,
              length-append n (codes ", divisors " ++ pair f s.xmod s.ymod),
            ))
      ])

  pub key_substitute-IsTold :
      (s : KeySubstitute.KeySubstitute)
      → IsNamed f s.key_from
      → IsNamed f s.key_to
      → IsTold (λ len. key_substitute_status f len s)
  unfolding key_substitute_status with_name
  key_substitute-IsTold s (n, named, small) to =
      let (t, fits, told) =
        name-IsTold s.key_to (λ m. codes "KeySubstitute from " ++ (n ++ (codes " to " ++ m))) to
          (λ m little. omega (arith, length-append n (codes " to " ++ m))) in
      (
        t,
        fits,
        λ len k.
            ap
              (λ o. with_name o (λ from.
                with_name (name_of_key f s.key_to) (λ m.
                  snprintf len (codes "KeySubstitute from " ++ (from ++ (codes " to " ++ m))))))
              named
            ∙ told len k,
      )

  pub speed_mod-IsTold :
      (s : SpeedMod.RelSpeed)
      → outside int_limits s.xmod ≡ false
      → outside int_limits s.ymod ≡ false
      → IsTold (λ len. speed_mod_status f len s)
  unfolding speed_mod_status
  speed_mod-IsTold s inx iny =
      snprintf-IsTold (codes "Relspeed slowdown factors " ++ pair f s.xmod s.ymod)
        (omega (arith, length-pair s.xmod s.ymod inx iny))

  pub mirror-IsTold :
      (m : Mirror.Mirror)
      → outside int_limits m.abs_x ≡ false
      → outside int_limits m.abs_y ≡ false
      → outside int_limits m.rel_x ≡ false
      → outside int_limits m.rel_y ≡ false
      → IsTold (λ len. mirror_status f len m)
  unfolding mirror_status
  mirror-IsTold m ax ay rx ry =
      let rel = codes " rel" ++ pair f m.rel_x m.rel_y in
      snprintf-IsTold (codes "Mirror - abs" ++ (pair f m.abs_x m.abs_y ++ rel)) (
        omega (
          arith,
          length-pair m.abs_x m.abs_y ax ay,
          length-pair m.rel_x m.rel_y rx ry,
          length-append (pair f m.abs_x m.abs_y) rel,
        ))

  pub abs2rel-IsTold :
      (s : Abs2Rel.Abs2Rel)
      → outside int_limits s.last_absx ≡ false
      → outside int_limits s.last_absy ≡ false
      → IsTold (λ len. abs2rel_status f len s)
  unfolding abs2rel_status
  abs2rel-IsTold s x y =
      let last = pair f s.last_absx s.last_absy in
      snprintf-IsTold (codes "Translating absolute events to relative. Last position=" ++ last)
        (omega (arith, length-pair s.last_absx s.last_absy x y))

  pub rotate-IsTold : (r : Rotate.Rotate) → IsTold (λ len. rotate_status f len r)
  unfolding rotate_status
  rotate-IsTold r = elim (Bool-cases (nonzero r.abs_coords)) [
    | inl a ↦ elim (Bool-cases (nonzero r.rel_coords)) [
      | inl b ↦ rw a (rw b (snprintf-IsTold _ (omega arith)))
      | inr b ↦ rw a (rw b (snprintf-IsTold _ (omega arith)))
    ]
    | inr a ↦ elim (Bool-cases (nonzero r.rel_coords)) [
      | inl b ↦ rw a (rw b (snprintf-IsTold _ (omega arith)))
      | inr b ↦ rw a (rw b (snprintf-IsTold _ (omega arith)))
    ]
  ]

  pub no_repeat-IsTold : (s : NoRepeat.NoRepeat) → IsTold (λ len. no_repeat_status f len)
  unfolding no_repeat_status
  no_repeat-IsTold s = snprintf-IsTold (codes "NoRepeat") (omega arith)
