-- ===== src/Filters/Creat.antt =====
-- The `evf_..._creat` of the filters: src/filters, over `evf_load_params` of src/evf_param.c.
use libevfilter.Base.{ℕ, ◌≡◌, refl, sym, subst, Option, none, some, List}
use libevfilter.Base.Text.{Text}
use libevfilter.Event.{Event}
use libevfilter.Param.Defs.{Param, Err, Result, done, failed, fault, ◌>>=◌, Value, Env}
use libevfilter.Param.Load.{load_params, or_errno, count_params}
use libevfilter.Param.Ints.{IntRows, Ints, Kept, stored, count_rows, Fits-Ints}
use libevfilter.Param.Typed.{IsLoaded, load_params_total, load_params_endless}
use libevfilter.Filters.NoRepeat
use libevfilter.Filters.PressureToKey
use libevfilter.Filters.SpeedMod
use libevfilter.Filters.Barrier
use libevfilter.Filters.Mirror
use libevfilter.Filters.Rotate
use libevfilter.Filters.Abs2Rel
use libevfilter.Filters.Btn2Rel
use libevfilter.Filters.Rel2Scroll
use libevfilter.Filters.KeyLock
use libevfilter.Filters.KeySubstitute

-- A filter or an error.
abbrev pub IsAnswer : {S : Type 0} → Result S → Type 0
IsAnswer (done s) = Unit
IsAnswer (failed e) = Unit
IsAnswer fault = ⊥

-- The seven rows of the keys.
pub btn2rel_rows : IntRows Btn2Rel.btn2rel_params 7
btn2rel_rows = (
  _,
  refl,
  tt,
  (_, refl, tt, (_, refl, tt, (_, refl, tt, (_, refl, tt, (_, refl, tt, (_, refl, tt, refl)))))),
)

module _ {F : Type 0} (env : Env F) where
  or_errno_answers : {S : Type 0} (o : Option S) → IsAnswer (or_errno env o)
  unfolding or_errno
  or_errno_answers (some s) = tt
  or_errno_answers none = tt

  -- What is made of what a table of `int`s has loaded has a property, if what is made of every
  -- choice of values that the table's rows allow has it.
  pub load_makes :
      {S : Type 0} (P : Result S → Type 0) (cfg : Text) (ps : List Param) (n : ℕ)
      (make : List (Value F) → Result S)
      → IntRows ps n
      → ((e : Err) → P (failed e))
      → ((v : Ints n) → Kept env ps n v → P (make (stored n v)))
      → P (load_params env cfg ps >>= make)
  load_makes P cfg ps n make r refused k =
      then_make (load_params env cfg ps) (load_params_total env cfg ps n (count_rows ps n r))
    where
      then_make : (r : Result (List (Value F))) → IsLoaded env ps r → P (r >>= make)
      then_make (done xs) l =
          let (v, e, kept) = Fits-Ints env ps n xs r l in subst (λ z. P (make z)) (sym e) (k v kept)
      then_make (failed e) l = refused e
      then_make fault l = absurd l

  -- A filter is made, or refused, from what fits its table.
  load_answers :
      {S : Type 0} (cfg : Text) (ps : List Param) (n : ℕ) (make : List (Value F) → Result S)
      → IntRows ps n
      → ((v : Ints n) → IsAnswer (make (stored n v)))
      → IsAnswer (load_params env cfg ps >>= make)
  load_answers cfg ps n make r k = load_makes IsAnswer cfg ps n make r (λ e. tt) (λ v _. k v)

  -- Every text makes each of these filters or is refused with an error: nothing is read or
  -- written outside of an object.
  pub creat_answers :
      (cfg : Text) (junk : Abs2Rel.Abs2Rel)
      → IsAnswer (SpeedMod.creat env cfg)
        × IsAnswer (PressureToKey.creat env cfg)
        × IsAnswer (Mirror.creat env cfg)
        × IsAnswer (Rotate.creat env cfg)
        × IsAnswer (Btn2Rel.creat env cfg)
        × IsAnswer (Rel2Scroll.creat env cfg)
        × IsAnswer (KeyLock.creat env cfg)
        × IsAnswer (KeySubstitute.creat env cfg)
        × IsAnswer (NoRepeat.creat env cfg)
        × IsAnswer (Abs2Rel.creat env junk cfg)
  unfolding SpeedMod.creat SpeedMod.from_values PressureToKey.creat PressureToKey.from_values
      Mirror.creat Mirror.from_values Rotate.creat Rotate.from_values Btn2Rel.creat
      Btn2Rel.from_values Rel2Scroll.creat Rel2Scroll.from_values KeyLock.creat KeyLock.from_values
      KeySubstitute.creat KeySubstitute.from_values NoRepeat.creat Abs2Rel.creat
  creat_answers cfg junk = (
    load_answers cfg SpeedMod.relspeed_params 2 (SpeedMod.from_values env)
        (_, refl, tt, (_, refl, tt, refl)) (λ v. or_errno_answers _),
    load_answers cfg PressureToKey.pressure_to_key_params 2 (PressureToKey.from_values env)
        (_, refl, tt, (_, refl, tt, refl)) (λ v. or_errno_answers _),
    load_answers cfg Mirror.mirror_params 4 (Mirror.from_values env)
        (_, refl, tt, (_, refl, tt, (_, refl, tt, (_, refl, tt, refl)))) (λ v. or_errno_answers _),
    load_answers cfg Rotate.rotate_params 2 (Rotate.from_values env)
        (_, refl, tt, (_, refl, tt, refl)) (λ v. or_errno_answers _),
    load_answers cfg Btn2Rel.btn2rel_params 7 (Btn2Rel.from_values env) btn2rel_rows
        (λ v. or_errno_answers _),
    load_answers cfg Rel2Scroll.rel2scroll_params 3 (Rel2Scroll.from_values env)
        (_, refl, tt, (_, refl, tt, (_, refl, tt, refl))) (λ v. or_errno_answers _),
    load_answers cfg KeyLock.filter_params 1 (KeyLock.from_values env) (_, refl, tt, refl)
        (λ v. or_errno_answers _),
    load_answers cfg KeySubstitute.filter_params 2 (KeySubstitute.from_values env)
        (_, refl, tt, (_, refl, tt, refl)) (λ v. or_errno_answers _),
    load_answers cfg NoRepeat.no_repeat_params 0 (λ _. or_errno env (NoRepeat.alloc env.has_memory))
        refl (λ v. or_errno_answers _),
    load_answers cfg Abs2Rel.abs2rel_params 0
        (λ _. or_errno env (Abs2Rel.alloc env.has_memory junk)) refl (λ v. or_errno_answers _),
  )

  -- The table of the barrier filter has no last row: whatever the text is, `evf_barrier_creat`
  -- reads behind the table.
  pub barrier_faults : (cfg : Text) (junk : Event) → Barrier.creat env junk cfg ≡ fault
  unfolding Barrier.creat count_params
  barrier_faults cfg junk = rw (load_params_endless env cfg Barrier.barrier_params refl) refl
