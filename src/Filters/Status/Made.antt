-- ===== src/Filters/Status/Made.antt =====
-- What is told of filters that their `creat` functions have made: src/filters.
use libevfilter.Base.{
  ℕ, ◌≤◌, ◌≡◌, refl, ap, ◌∙◌, inl, inr, ◌⊎◌, Bool, true, false, Option, none, some, ◌++◌, arith,
  if◌then◌else◌, length,
}
use libevfilter.Base.Int.{ℤ, pos}
use libevfilter.Base.Text.{Text, codes}
use libevfilter.Param.Defs.{Result, done, failed, fault, Env}
use libevfilter.Param.Load.{or_errno, outside, int_limits}
use libevfilter.Param.Typed.{IsKey}
use libevfilter.KeyParser.{getkey}
use libevfilter.KeyParser.Table.{key_names}
use libevfilter.KeyParser.Named.{getkey-getname}
use libevfilter.Filters.SpeedMod
use libevfilter.Filters.PressureToKey
use libevfilter.Filters.Mirror
use libevfilter.Filters.Rotate
use libevfilter.Filters.Btn2Rel
use libevfilter.Filters.Rel2Scroll
use libevfilter.Filters.KeyLock
use libevfilter.Filters.KeySubstitute
use libevfilter.Filters.NoRepeat
use libevfilter.Filters.Abs2Rel
use libevfilter.Filters.Creat.{load_makes, btn2rel_rows}
use libevfilter.Filters.Status.{
  Formats, speed_mod_status, pressure_to_key_status, mirror_status, rotate_status, btn2rel_status,
  rel2scroll_status, key_lock_status, key_substitute_status, rows_of, abs2rel_status,
  no_repeat_status,
}
use libevfilter.Filters.Status.Fits.{
  print_len, IsTold, key_names_short, IsNamed, IsListed, btn2rel_status_told,
}
use libevfilter.Filters.Status.Each.{
  key_lock-IsTold, pressure_to_key-IsTold, rel2scroll-IsTold, key_substitute-IsTold,
  speed_mod-IsTold, mirror-IsTold, abs2rel-IsTold, rotate-IsTold, no_repeat-IsTold,
}

-- An error, or a filter whose status is told.
abbrev pub Tells : {S : Type 0} → (ℕ → S → Option Text) → Result S → Type 0
Tells status (done s) = IsTold (λ len. status len s)
Tells status (failed e) = Unit
Tells status fault = ⊥

-- An error, or keys of which exactly those that are not 0 are told, with their rows.
abbrev pub TellsRows : {G : Type 0} → Formats G → Result Btn2Rel.Btn2Rel → Type 0
TellsRows f (done s) =
    (t : Text) × IsListed f (rows_of f s) t
    × (length t ≤ 189)
    × ((len : ℕ)
        → print_len ≤ len
        → btn2rel_status f len s ≡ some (codes "Keyboard to mouse ( " ++ (t ++ codes ")")))
TellsRows f (failed e) = Unit
TellsRows f fault = ⊥

module _ {F G : Type 0} (env : Env F) (f : Formats G)
    (keys : (s : Text) → getkey key_names f.key_values s ≡ some (env.getkey s))
    (short : (v : ℤ) → outside int_limits v ≡ false → length (f.decimal v) ≤ 11) where
  or_errno-Tells :
      {S : Type 0} (status : ℕ → S → Option Text) (has_memory : Bool) (s : S)
      → IsTold (λ len. status len s)
      → Tells status (or_errno env (if has_memory then some s else none))
  unfolding or_errno
  or_errno-Tells status true s h = h
  or_errno-Tells status false s h = tt

  key-IsNamed : (v : ℤ) → IsKey env v → IsNamed f v
  key-IsNamed v (s, e, found) =
      getkey-getname key_names f.key_values s (λ n. length n ≤ 20) v (omega arith) key_names_short
        (keys s ∙ ap some e) found

  -- The numbers of a `bool` row.
  bool-inside : (v : ℤ) → (v ≡ pos 0) ⊎ (v ≡ pos 1) → outside int_limits v ≡ false
  bool-inside v (inl off) = rw off refl
  bool-inside v (inr on) = rw on refl

  or_errno-TellsRows :
      (has_memory : Bool) (s : Btn2Rel.Btn2Rel)
      → TellsRows f (done s)
      → TellsRows f (or_errno env (if has_memory then some s else none))
  unfolding or_errno
  or_errno-TellsRows true s h = h
  or_errno-TellsRows false s h = tt

  -- If the keys that are loaded are those that `keyparser_getkey` finds in its table, no `int` is
  -- printed with more than 11 bytes, and the coordinates that `abs2rel` does not set are `int`s,
  -- then, whatever the text of the parameters is, each of these ten filters is refused with an
  -- error or is made such that its `status` tells a text of less than 260 bytes, the same into
  -- every buffer of 260 bytes or more: nothing is cut off or written outside of the buffer, and each
  -- key is told by a name of the table, never by NULL. `btn2rel` tells exactly the rows whose keys
  -- are not 0.
  pub creat-Tells :
      (cfg : Text) (junk : Abs2Rel.Abs2Rel)
      → outside int_limits junk.last_absx ≡ false
      → outside int_limits junk.last_absy ≡ false
      → TellsRows f (Btn2Rel.creat env cfg)
        × Tells (key_lock_status f) (KeyLock.creat env cfg)
        × Tells (key_substitute_status f) (KeySubstitute.creat env cfg)
        × Tells (pressure_to_key_status f) (PressureToKey.creat env cfg)
        × Tells (rel2scroll_status f) (Rel2Scroll.creat env cfg)
        × Tells (speed_mod_status f) (SpeedMod.creat env cfg)
        × Tells (mirror_status f) (Mirror.creat env cfg)
        × Tells (rotate_status f) (Rotate.creat env cfg)
        × Tells (λ len s. no_repeat_status f len) (NoRepeat.creat env cfg)
        × Tells (abs2rel_status f) (Abs2Rel.creat env junk cfg)
  unfolding Btn2Rel.creat Btn2Rel.from_values KeyLock.creat KeyLock.from_values KeySubstitute.creat
      KeySubstitute.from_values PressureToKey.creat PressureToKey.from_values Rel2Scroll.creat
      Rel2Scroll.from_values SpeedMod.creat SpeedMod.from_values Mirror.creat Mirror.from_values
      Rotate.creat Rotate.from_values NoRepeat.creat Abs2Rel.creat
  creat-Tells cfg junk jx jy = (
    load_makes env (TellsRows f) cfg Btn2Rel.btn2rel_params 7 (Btn2Rel.from_values env) btn2rel_rows
        (λ e. tt)
        (λ (up, (down, (left, (right, (lb, (mb, (rb, u)))))))
            (ku, (kd, (kl, (kr, (k₁, (k₂, (k₃, w))))))).
          or_errno-TellsRows env.has_memory _ (
            btn2rel_status_told f _ (
              (omega arith, key-IsNamed _ kd),
              (
                (omega arith, key-IsNamed _ ku),
                (
                  (omega arith, key-IsNamed _ kl),
                  (
                    (omega arith, key-IsNamed _ kr),
                    (
                      (omega arith, key-IsNamed _ k₁),
                      ((omega arith, key-IsNamed _ k₂), ((omega arith, key-IsNamed _ k₃), tt)),
                    ),
                  ),
                ),
              ),
            ))),
    load_makes env (Tells (key_lock_status f)) cfg KeyLock.filter_params 1 (KeyLock.from_values env)
        (_, refl, tt, refl) (λ e. tt)
        (λ v kept.
          or_errno-Tells _ env.has_memory _ (key_lock-IsTold f short _ (key-IsNamed v.0 kept.0))),
    load_makes env (Tells (key_substitute_status f)) cfg KeySubstitute.filter_params 2
        (KeySubstitute.from_values env) (_, refl, tt, (_, refl, tt, refl)) (λ e. tt)
        (λ v kept.
          or_errno-Tells _ env.has_memory _ (
            key_substitute-IsTold f short _ (key-IsNamed v.0 kept.0) (key-IsNamed v.1.0 kept.1.0))),
    load_makes env (Tells (pressure_to_key_status f)) cfg PressureToKey.pressure_to_key_params 2
        (PressureToKey.from_values env) (_, refl, tt, (_, refl, tt, refl)) (λ e. tt)
        (λ v kept.
          or_errno-Tells _ env.has_memory _
            (pressure_to_key-IsTold f short _ (key-IsNamed v.1.0 kept.1.0) kept.0.0)),
    load_makes env (Tells (rel2scroll_status f)) cfg Rel2Scroll.rel2scroll_params 3
        (Rel2Scroll.from_values env) (_, refl, tt, (_, refl, tt, (_, refl, tt, refl))) (λ e. tt)
        (λ v kept.
          or_errno-Tells _ env.has_memory _
            (rel2scroll-IsTold f short _ (key-IsNamed v.0 kept.0) kept.1.0.0 kept.1.1.0.0)),
    load_makes env (Tells (speed_mod_status f)) cfg SpeedMod.relspeed_params 2
        (SpeedMod.from_values env) (_, refl, tt, (_, refl, tt, refl)) (λ e. tt)
        (λ v kept.
          or_errno-Tells _ env.has_memory _ (speed_mod-IsTold f short _ kept.0.0 kept.1.0.0)),
    load_makes env (Tells (mirror_status f)) cfg Mirror.mirror_params 4 (Mirror.from_values env)
        (_, refl, tt, (_, refl, tt, (_, refl, tt, (_, refl, tt, refl)))) (λ e. tt)
        (λ v kept. or_errno-Tells _ env.has_memory _ (
          mirror-IsTold f short _ (bool-inside _ kept.1.1.0) (bool-inside _ kept.1.1.1.0)
            (bool-inside _ kept.0) (bool-inside _ kept.1.0))),
    load_makes env (Tells (rotate_status f)) cfg Rotate.rotate_params 2 (Rotate.from_values env)
        (_, refl, tt, (_, refl, tt, refl)) (λ e. tt)
        (λ v kept. or_errno-Tells _ env.has_memory _ (rotate-IsTold f short _)),
    load_makes env (Tells (λ len s. no_repeat_status f len)) cfg NoRepeat.no_repeat_params 0
        (λ _. or_errno env (NoRepeat.alloc env.has_memory)) refl (λ e. tt)
        (λ v kept. or_errno-Tells _ env.has_memory _ (no_repeat-IsTold f short tt)),
    load_makes env (Tells (abs2rel_status f)) cfg Abs2Rel.abs2rel_params 0
        (λ _. or_errno env (Abs2Rel.alloc env.has_memory junk)) refl (λ e. tt)
        (λ v kept. or_errno-Tells _ env.has_memory _ (abs2rel-IsTold f short _ jx jy)),
  )
