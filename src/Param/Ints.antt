-- ===== src/Param/Ints.antt =====
-- Parameter tables whose rows are all stored as an `int`: src/evf_param.c.
use libevfilter.Base.{ℕ, zero, suc, ◌≡◌, refl, ap, ◌∙◌, arith, Option, none, some, List, [], ◌∷◌}
use libevfilter.Base.Int.{ℤ}
use libevfilter.Base.Text.{Text}
use libevfilter.Param.Defs.{ParamType, LimInt, Param, Value, Env}
use libevfilter.Param.Load.{count_params}
use libevfilter.Param.Typed.{IsValueOf, Fits, FitsRow}

-- The types whose values are stored as an `int`.
abbrev pub IsIntType : ParamType → Type 0
IsIntType ParamType.float = ⊥
IsIntType ParamType.str = ⊥
IsIntType ParamType.file = ⊥
IsIntType _ = Unit

-- A table with `n` rows of these types in front of its last row.
abbrev pub IntRows : List Param → ℕ → Type 0
IntRows [] n = ⊥
IntRows (p ∷ ps) zero = p.name ≡ none
IntRows (p ∷ ps) (suc n) = (k : Text) × (p.name ≡ some k) × IsIntType p.type × IntRows ps n

pub count_rows : (ps : List Param) (n : ℕ) → IntRows ps n → count_params ps ≡ some n
unfolding count_params
count_rows [] n h = absurd h
count_rows (p ∷ ps) zero h = rw h refl
count_rows (p ∷ ps) (suc n) (k, named, _, h) = rw (named, count_rows ps n h) refl

abbrev pub Ints : ℕ → Type 0
Ints zero = Unit
Ints (suc n) = ℤ × Ints n

abbrev pub stored : {F : Type 0} (n : ℕ) → Ints n → List (Value F)
stored zero tt = []
stored (suc n) (v, vs) = Value.int v ∷ stored n vs

-- Each is what its row stores.
abbrev pub Kept : {F : Type 0} → Env F → List Param → (n : ℕ) → Ints n → Type 0
Kept env ps zero vs = Unit
Kept env [] (suc n) vs = Unit
Kept env (p ∷ ps) (suc n) (v, vs) = IsValueOf env p.lim p.type (Value.int v) × Kept env ps n vs

stored_int :
    {F : Type 0} (env : Env F) (lim : Option LimInt) (t : ParamType) (x : Value F)
    → IsIntType t
    → IsValueOf env lim t x
    → (v : ℤ) × (x ≡ Value.int v) × IsValueOf env lim t (Value.int v)
stored_int env lim t (Value.int v) i h = (v, refl, h)
stored_int env lim ParamType.key (Value.float v) i h = absurd h
stored_int env lim ParamType.int (Value.float v) i h = absurd h
stored_int env lim ParamType.evtype (Value.float v) i h = absurd h
stored_int env lim ParamType.bool (Value.float v) i h = absurd h
stored_int env lim ParamType.key (Value.str v) i h = absurd h
stored_int env lim ParamType.int (Value.str v) i h = absurd h
stored_int env lim ParamType.evtype (Value.str v) i h = absurd h
stored_int env lim ParamType.bool (Value.str v) i h = absurd h
stored_int env lim ParamType.key (Value.file v) i h = absurd h
stored_int env lim ParamType.int (Value.file v) i h = absurd h
stored_int env lim ParamType.evtype (Value.file v) i h = absurd h
stored_int env lim ParamType.bool (Value.file v) i h = absurd h
stored_int env lim ParamType.float x i h = absurd i
stored_int env lim ParamType.str x i h = absurd i
stored_int env lim ParamType.file x i h = absurd i

-- What fits the heading row of such a table.
Fits-cons :
    {F : Type 0} (env : Env F) (p : Param) (ps : List Param) (k : Text) (xs : List (Value F))
    → p.name ≡ some k
    → Fits env (p ∷ ps) xs
    → (x : Value F) × (ys : List (Value F)) × (xs ≡ x ∷ ys)
      × IsValueOf env p.lim p.type x
      × Fits env ps ys
Fits-cons {F} env p ps k xs named h = by_name p.name xs named h
  where
    by_name :
        (o : Option Text) (xs : List (Value F))
        → o ≡ some k
        → FitsRow env p o (Fits env ps) xs
        → (x : Value F) × (ys : List (Value F)) × (xs ≡ x ∷ ys)
          × IsValueOf env p.lim p.type x
          × Fits env ps ys
    by_name none xs e h = absurd (ground arith)
    by_name (some _) [] e h = absurd h
    by_name (some _) (x ∷ xs') e h = (x, xs', refl, h.0, h.1)

Fits-none :
    {F : Type 0} (env : Env F) (p : Param) (ps : List Param) (xs : List (Value F))
    → p.name ≡ none
    → Fits env (p ∷ ps) xs
    → xs ≡ []
Fits-none {F} env p ps xs last h = by_name p.name last h
  where
    by_name : (o : Option Text) → o ≡ none → FitsRow env p o (Fits env ps) xs → xs ≡ []
    by_name none e h = h
    by_name (some _) e h = absurd (ground arith)

-- What fits such a table is a list of that many `int`s, each of them what its row stores.
pub Fits-Ints :
    {F : Type 0} (env : Env F) (ps : List Param) (n : ℕ) (xs : List (Value F))
    → IntRows ps n
    → Fits env ps xs
    → (v : Ints n) × (xs ≡ stored n v) × Kept env ps n v
Fits-Ints env [] n xs r h = absurd h
Fits-Ints env (p ∷ ps) zero xs r h = (tt, Fits-none env p ps xs r h, tt)
Fits-Ints env (p ∷ ps) (suc n) xs (k, named, i, r) h =
    let (x, ys, e, t, h') = Fits-cons env p ps k xs named h in
    let (v, e', t') = stored_int env p.lim p.type x i t in
    let (vs, e'', kept) = Fits-Ints env ps n ys r h' in
    ((v, vs), e ∙ ap (λ z. z ∷ ys) e' ∙ ap (λ zs. Value.int v ∷ zs) e'', (t', kept))
