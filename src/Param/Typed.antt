-- ===== src/Param/Typed.antt =====
-- What `evf_load_params` leaves in its arguments: src/evf_param.c.

use libevfilter.Base.{
  ℕ, zero, ◌≡◌, refl, sym, subst, inl, inr, ◌⊎◌, ◌≢◌, suc, ◌<◌, Bool, true, false, ◌||◌, Option,
  none, some, List, [], ◌∷◌, arith, if◌then◌else◌, length, replicate, Option-cases,
  length-replicate,
}
use libevfilter.Base.Int.{ℤ, pos, negsuc}
use libevfilter.Base.Text.{Text, codes, case_eq}
use libevfilter.Param.Defs.{
  ParamType, LimInt, Param, Err, Result, done, failed, fault, ◌>>=◌, Value, Env,
}
use libevfilter.Param.Load.{
  outside, int_limits, evtypes, index_of, load_float, check_int, load_int, load_file, load_bool,
  load_key, load_evtype, load_value, count_params, parse_params, text_of, load_all, load_params,
}
use libevfilter.Param.Total.{IsRead, parse_params_total}

-- The first index at which a name is spelled as a text lies inside of the list.
index_of-below : (s : Text) (ts : List Text) (i : ℕ) → index_of s ts ≡ some i → i < length ts
unfolding index_of
index_of-below s [] i e = absurd (ground arith)
index_of-below s (t ∷ ts) i e = elim (Option-cases (index_of s ts)) [
  | inl missing ↦ ground (arith)
  | inr (j, found) ↦ let later = index_of-below s ts j found in ground (arith)
]

-- No less than the least, and no more than the most, if there are limits.
abbrev pub Keeps : Option LimInt → ℤ → Type 0
Keeps none v = Unit
Keeps (some l) v = outside l v ≡ false

module _ {F : Type 0} (env : Env F) where
  -- A number that `keyparser_getkey` gives for some name.
  abbrev pub IsKey : ℤ → Type 0
  IsKey v = (s : Text) × (env.getkey s ≡ v) × (v ≢ negsuc 0)

  -- What a row with limits and a type stores: a key that is found, the index of an event type, an
  -- `int` inside the limits, 0 or 1, a float, a string or a file.
  abbrev pub IsValueOf : Option LimInt → ParamType → Value F → Type 0
  IsValueOf lim ParamType.key (Value.int v) = IsKey v
  IsValueOf lim ParamType.evtype (Value.int v) = (i : ℕ) × (v ≡ pos i) × (i < length evtypes)
  IsValueOf lim ParamType.int (Value.int v) = (outside int_limits v ≡ false) × Keeps lim v
  IsValueOf lim ParamType.bool (Value.int v) = (v ≡ pos 0) ⊎ (v ≡ pos 1)
  IsValueOf lim ParamType.float (Value.float v) = Unit
  IsValueOf lim ParamType.str (Value.str v) = Unit
  IsValueOf lim ParamType.file (Value.file v) = Unit
  IsValueOf lim _ _ = ⊥

  -- The values that begin with the one of a row, and go on as its table does; none at the last row.
  abbrev pub FitsRow : Param → Option Text → (List (Value F) → Type 0) → List (Value F) → Type 0
  FitsRow p none rest xs = xs ≡ []
  FitsRow p (some _) rest [] = ⊥
  FitsRow p (some _) rest (x ∷ xs) = IsValueOf p.lim p.type x × rest xs

  -- The values are those of the table's rows, one for each in front of the last row.
  abbrev pub Fits : List Param → List (Value F) → Type 0
  Fits [] xs = ⊥
  Fits (p ∷ ps) xs = FitsRow p p.name (Fits ps) xs

  abbrev pub IsLoaded : List Param → Result (List (Value F)) → Type 0
  IsLoaded ps (done xs) = Fits ps xs
  IsLoaded ps (failed e) = Unit
  IsLoaded ps fault = ⊥

  abbrev IsTyped : Option LimInt → ParamType → Result (Value F) → Type 0
  IsTyped lim t (done x) = IsValueOf lim t x
  IsTyped lim t (failed e) = Unit
  IsTyped lim t fault = ⊥

  IsTyped-if :
      (lim : Option LimInt) (t : ParamType) (b : Bool) (r r' : Result (Value F))
      → (b ≡ true → IsTyped lim t r)
      → (b ≡ false → IsTyped lim t r')
      → IsTyped lim t (if b then r else r')
  IsTyped-if lim t true r r' h k = h refl
  IsTyped-if lim t false r r' h k = k refl

module _ {F : Type 0} (env : Env F) (name : Text) (s : Text) (lim : Option LimInt) where
  load_float-IsTyped : IsTyped env lim ParamType.float (load_float env name s)
  unfolding load_float
  load_float-IsTyped =
      elim (env.strtof s).1
        as (λ rest. IsTyped env lim ParamType.float (elim rest [
          | [] ↦ done (Value.float (env.strtof s).0)
          | _ ∷ _ ↦ failed (Err.einval name s ParamType.float)
        ])) [ [] ↦ tt | _ ∷ _ ↦ tt ]

  load_file-IsTyped : IsTyped env lim ParamType.file (load_file env s)
  unfolding load_file
  load_file-IsTyped =
      IsTyped-if env lim ParamType.file (case_eq s (codes "stdout")) _ _ (λ _. tt)
        (λ _.
          IsTyped-if env lim ParamType.file (case_eq s (codes "stderr")) _ _ (λ _. tt)
            (λ _. IsTyped-if env lim ParamType.file (env.can_open s) _ _ (λ _. tt) (λ _. tt)))

  load_bool-IsTyped : IsTyped env lim ParamType.bool (load_bool env name s)
  unfolding load_bool
  load_bool-IsTyped =
      IsTyped-if env lim ParamType.bool
        (case_eq s (codes "True") || case_eq s (codes "Yes") || case_eq s (codes "On")) _ _
        (λ _. inr refl)
        (λ _.
          IsTyped-if env lim ParamType.bool
            (case_eq s (codes "False") || case_eq s (codes "No") || case_eq s (codes "Off")) _ _
            (λ _. inl refl) (λ _. tt))

  load_key-IsTyped : IsTyped env lim ParamType.key (load_key env name s)
  unfolding load_key
  load_key-IsTyped = by_key (env.getkey s) refl
    where
      by_key :
          (v : ℤ)
          → env.getkey s ≡ v
          → IsTyped env lim ParamType.key (elim v [
            | negsuc zero ↦ failed (Err.einval name s ParamType.key)
            | k ↦ done (Value.int k)
          ])
      by_key (negsuc zero) e = tt
      by_key (negsuc (suc n)) e = (s, e, λ h. cc)
      by_key (pos n) e = (s, e, λ h. cc)

  load_evtype-IsTyped : IsTyped env lim ParamType.evtype (load_evtype env name s)
  unfolding load_evtype
  load_evtype-IsTyped = by_index (index_of s evtypes) refl
    where
      by_index :
          (o : Option ℕ)
          → index_of s evtypes ≡ o
          → IsTyped env lim ParamType.evtype (elim o [
            | none ↦ failed (Err.einval name s ParamType.evtype)
            | some i ↦ done (Value.int (pos i))
          ])
      by_index none e = tt
      by_index (some i) e = (i, refl, index_of-below s evtypes i e)

module _ {F : Type 0} (env : Env F) (name : Text) (s : Text) where
  check_int-IsTyped :
      (lim : Option LimInt) (v : ℤ) → IsTyped env lim ParamType.int (check_int {F = F} name lim v)
  unfolding check_int
  check_int-IsTyped none v =
      IsTyped-if env none ParamType.int (outside int_limits v) _ _ (λ _. tt) (λ h. (h, tt))
  check_int-IsTyped (some l) v =
      IsTyped-if env (some l) ParamType.int (outside int_limits v) _ _ (λ _. tt)
        (λ h. IsTyped-if env (some l) ParamType.int (outside l v) _ _ (λ _. tt) (λ k. (h, k)))

  load_int-IsTyped : (lim : Option LimInt) → IsTyped env lim ParamType.int (load_int env name lim s)
  unfolding load_int
  load_int-IsTyped lim =
      elim (env.strtol s).1
        as (λ rest. IsTyped env lim ParamType.int (elim rest [
          | [] ↦ check_int {F = F} name lim (env.strtol s).0
          | _ ∷ _ ↦ failed (Err.einval name s ParamType.int)
        ])) [ [] ↦ check_int-IsTyped lim (env.strtol s).0 | _ ∷ _ ↦ tt ]

load_value_total :
    {F : Type 0} (env : Env F) (p : Param) (name s : Text)
    → IsTyped env p.lim p.type (load_value env p name s)
unfolding load_value
load_value_total env p name s = by_type p.type
  where
    by_type : (t : ParamType) → IsTyped env p.lim t (load_value env (record p { type = t }) name s)
    by_type ParamType.key = load_key-IsTyped env name s p.lim
    by_type ParamType.evtype = load_evtype-IsTyped env name s p.lim
    by_type ParamType.int = load_int-IsTyped env name s p.lim
    by_type ParamType.float = load_float-IsTyped env name s p.lim
    by_type ParamType.str = tt
    by_type ParamType.file = load_file-IsTyped env name s p.lim
    by_type ParamType.bool = load_bool-IsTyped env name s p.lim

-- The result of one row with those of the rows behind it.
cons_total :
    {F : Type 0} (env : Env F) (p : Param) (ps : List Param) (k : Text) (m : Result (Value F))
    (rest : Result (List (Value F)))
    → p.name ≡ some k
    → IsTyped env p.lim p.type m
    → IsLoaded env ps rest
    → IsLoaded env (p ∷ ps) (m >>= λ x. rest >>= λ xs. done (x ∷ xs))
cons_total env p ps k (done x) (done xs) e h l = rw e (h, l)
cons_total env p ps k (done x) (failed err) e h l = tt
cons_total env p ps k (done x) fault e h l = l
cons_total env p ps k (failed err) rest e h l = tt
cons_total env p ps k fault rest e h l = absurd h

text_of_total :
    (p : Param) (k : Text) (v : Option Text)
    → ((s : Text) × (text_of p k v ≡ done s)) ⊎ ((e : Err) × (text_of p k v ≡ failed e))
unfolding text_of
text_of_total p k (some v) = inl (v, refl)
text_of_total p k none = elim (Option-cases p.dflt) [
  | inl missing ↦ inr (Err.emissing k, ground arith)
  | inr (d, dflt) ↦ inl (d, ground arith)
]

load_all-cons :
    {F : Type 0} (env : Env F) (p : Param) (ps : List Param) (k : Text) (v : Option Text)
    (vs : List (Option Text)) (s : Text)
    → p.name ≡ some k
    → text_of p k v ≡ done s
    → load_all env (p ∷ ps) (v ∷ vs)
      ≡ (load_value env p k s >>= λ x. load_all env ps vs >>= λ xs. done (x ∷ xs))
unfolding load_all
load_all-cons env p ps k v vs s named text = simp (named, text)

load_all_total :
    {F : Type 0} (env : Env F) (ps : List Param) (vs : List (Option Text)) (n : ℕ)
    → count_params ps ≡ some n
    → length vs ≡ n
    → IsLoaded env ps (load_all env ps vs)
unfolding count_params load_all
load_all_total env [] vs n h l = absurd (ground arith)
load_all_total env (p ∷ ps) [] n h l = elim (Option-cases p.name) [
  | inl last ↦ rw last refl
  | inr (k, named) ↦ absurd (ground arith)
]
load_all_total env (p ∷ ps) (v ∷ vs) n h l = elim (Option-cases p.name) [
  | inl last ↦ rw last refl
  | inr (k, named) ↦ elim (Option-cases (count_params ps)) [
    | inl endless ↦ absurd (ground arith)
    | inr (m, e) ↦
        let rest = load_all_total env ps vs m e (ground arith) in
        elim (text_of_total p k v) [
          | inr (err, missing) ↦ rw (named, missing) tt
          | inl (s, text) ↦
              subst (IsLoaded env (p ∷ ps)) (sym (load_all-cons env p ps k v vs s named text))
                (cons_total env p ps k _ _ named (load_value_total env p k s) rest)
        ]
  ]
]

pub load_params-some :
    {F : Type 0} (env : Env F) (cfg : Text) (ps : List Param) (n : ℕ)
    → count_params ps ≡ some n
    → load_params env cfg ps
      ≡ (parse_params (length cfg) ps (replicate n none) cfg >>= load_all env ps)
unfolding load_params
load_params-some env cfg ps n h = simp (load_params, h)

-- For every text and every table that has its last row, `evf_load_params` ends, with fuel for each
-- byte of the text, and without reading or writing outside of an object: it gives an error, or one
-- value for each row, stored as what the row says: a key that `keyparser_getkey` gives for some name
-- and that is not -1, the index of an event type in its table, a number that is an `int` and inside
-- the row's limits, 0 or 1 for a truth value, or a float, a string or a file.
pub load_params_total :
    {F : Type 0} (env : Env F) (cfg : Text) (ps : List Param) (n : ℕ)
    → count_params ps ≡ some n
    → IsLoaded env ps (load_params env cfg ps)
load_params_total env cfg ps n h = subst (IsLoaded env ps) (sym (load_params-some env cfg ps n h)) (
    then_load (parse_params (length cfg) ps (replicate n none) cfg) (
      parse_params_total (length cfg) ps (replicate n none) cfg n h (length-replicate n none)
        (omega arith)))
  where
    then_load :
        (r : Result (List (Option Text))) → IsRead n r → IsLoaded env ps (r >>= load_all env ps)
    then_load (done vs) l = load_all_total env ps vs n h l
    then_load (failed e) l = tt
    then_load fault l = absurd l

-- A table without its last row is read behind its end, whatever the text is.
pub load_params_endless :
    {F : Type 0} (env : Env F) (cfg : Text) (ps : List Param)
    → count_params ps ≡ none
    → load_params env cfg ps ≡ fault
unfolding load_params
load_params_endless env cfg ps h = ground (arith)
