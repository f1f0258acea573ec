-- ===== src/Param/Load.antt =====
-- The loaders of one value, and `evf_load_params`: src/evf_param.c. Messages that are only logged
-- are left out.
use mathlib.Core.Option
use libevfilter.Base.{
  ℕ, zero, suc, Bool, ◌||◌, Option, none, some, List, [], ◌∷◌, if◌then◌else◌, length, get_elem?,
  set, replicate,
}
use libevfilter.Base.Int.{ℤ, pos, negsuc, ltb_ℤ, int_max}
use libevfilter.Base.Text.{Text, codes, case_eq}
use libevfilter.Param.Defs.{
  ParamType, LimInt, Param, Err, Result, done, failed, fault, ◌>>=◌, stdout, stderr, opened, Value,
  Env,
}
use libevfilter.Param.Parse.{get_name, get_value}

-- `evfilter_int_limits`.
abbrev pub int_limits : LimInt
int_limits = record { min = negsuc int_max; max = pos int_max }

abbrev pub outside : LimInt → ℤ → Bool
outside lim v = ltb_ℤ lim.max v || ltb_ℤ v lim.min

-- `evtypes`.
abbrev pub evtypes : List Text
evtypes =
    codes "EventSyn"
    ∷ codes "EventKey"
    ∷ codes "EventRel"
    ∷ codes "EventAbs"
    ∷ codes "EventMsc"
    ∷ []

-- The first name in a list that is spelled as the text, upper and lower case alike.
unfoldable pub index_of : Text → List Text → Option ℕ
index_of s [] = none
index_of s (t ∷ ts) =
    let rest = Option.map suc (index_of s ts) in if case_eq t s then some zero else rest

-- The range checks of `evfilter_load_int`, when the whole text is a number.
unfoldable pub check_int : {F : Type 0} → Text → Option LimInt → ℤ → Result (Value F)
check_int name none v =
    if outside int_limits v then failed (Err.erange name int_limits) else done (Value.int v)
check_int name (some l) v =
    if outside int_limits v
    then failed (Err.erange name l)
    else if outside l v
    then failed (Err.erange name l)
    else done (Value.int v)

module _ {F : Type 0} (env : Env F) where
  -- `evfilter_load_float`.
  unfoldable pub load_float : Text → Text → Result (Value F)
  load_float name s =
      let (v, rest) = env.strtof s in
      elim rest [ [] ↦ done (Value.float v) | _ ∷ _ ↦ failed (Err.einval name s ParamType.float) ]

  -- `evfilter_load_int`.
  unfoldable pub load_int : Text → Option LimInt → Text → Result (Value F)
  load_int name lim s =
      let (v, rest) = env.strtol s in
      elim rest [ [] ↦ check_int name lim v | _ ∷ _ ↦ failed (Err.einval name s ParamType.int) ]

  -- `evfilter_load_file`.
  unfoldable pub load_file : Text → Result (Value F)
  load_file s =
      if case_eq s (codes "stdout")
      then done (Value.file stdout)
      else if case_eq s (codes "stderr")
      then done (Value.file stderr)
      else if env.can_open s
      then done (Value.file (opened s))
      else failed (Err.errno env.errno)

  -- `evfilter_load_bool`.
  unfoldable pub load_bool : Text → Text → Result (Value F)
  load_bool name s =
      if case_eq s (codes "True") || case_eq s (codes "Yes") || case_eq s (codes "On")
      then done (Value.int (pos 1))
      else if case_eq s (codes "False") || case_eq s (codes "No") || case_eq s (codes "Off")
      then done (Value.int (pos 0))
      else failed (Err.einval name s ParamType.bool)

  -- `evfilter_load_key`, with the error that its caller fills.
  unfoldable pub load_key : Text → Text → Result (Value F)
  load_key name s = elim (env.getkey s) [
    | negsuc zero ↦ failed (Err.einval name s ParamType.key)
    | k ↦ done (Value.int k)
  ]

  -- `evfilter_load_evtype`, with the error that its caller fills.
  unfoldable pub load_evtype : Text → Text → Result (Value F)
  load_evtype name s = elim (index_of s evtypes) [
    | none ↦ failed (Err.einval name s ParamType.evtype)
    | some i ↦ done (Value.int (pos i))
  ]

  -- The `switch` of `evf_load_params`.
  unfoldable pub load_value : Param → Text → Text → Result (Value F)
  load_value p name s = elim p.type [
    | ParamType.int ↦ load_int name p.lim s
    | ParamType.evtype ↦ load_evtype name s
    | ParamType.key ↦ load_key name s
    | ParamType.file ↦ load_file s
    | ParamType.str ↦ done (Value.str s)
    | ParamType.bool ↦ load_bool name s
    | ParamType.float ↦ load_float name s
  ]

-- `evfilter_count_params`; `none` is a read behind a table that has no last row.
unfoldable pub count_params : List Param → Option ℕ
count_params [] = none
count_params (p ∷ ps) = elim p.name [ none ↦ some 0 | some n ↦ Option.map suc (count_params ps) ]

-- `evfilter_find_possition`, likewise: `fault` behind the table, `none` for a name not in it.
unfoldable pub find_possition : Text → List Param → Result (Option ℕ)
find_possition name [] = fault
find_possition name (p ∷ ps) = elim p.name [
  | none ↦ done none
  | some n ↦
      let rest = find_possition name ps >>= λ i. done (Option.map suc i) in
      if case_eq n name then done (some 0) else rest
]

-- The value that a row of `values` holds already, and a write to it.
abbrev pub value_at : List (Option Text) → ℕ → Option Text
value_at vs i = elim (get_elem? vs i) [ none ↦ none | some v ↦ v ]

-- The row of a name is looked for and its value kept, if it is the first for that row; then
-- comes what is left to do.
abbrev pub keep_value :
    {R : Type 0}
    → List Param
    → List (Option Text)
    → Text
    → Text
    → (List (Option Text) → Result R)
    → Result R
keep_value ps vs name value more = find_possition name ps >>= λ where_to. elim where_to [
  | none ↦ failed (Err.epname name)
  | some i ↦ elim (value_at vs i) [
    | some _ ↦ failed (Err.eredef name)
    | none ↦ more (set vs i (some value))
  ]
]

-- The first loop of `evf_load_params`: each round takes one name and one value from the text.
-- The code reads the value once the row of the name is found; reading changes nothing but the
-- text, so that an error is the same here.
-- The fuel is the length of the text, since a name takes at least one byte.
unfoldable pub parse_params :
    ℕ → List Param → List (Option Text) → Text → Result (List (Option Text))
parse_params fuel ps vs [] = done vs
parse_params zero ps vs (c ∷ s) = fault
parse_params (suc fuel) ps vs (c ∷ s) =
    let (name, rest) = get_name (c ∷ s) in
    let (value, rest') = get_value rest in
    keep_value ps vs name value (λ vs'. parse_params fuel ps vs' rest')

-- The text of one parameter, or its default.
unfoldable pub text_of : Param → Text → Option Text → Result Text
text_of p name (some v) = done v
text_of p name none = elim p.dflt [ some d ↦ done d | none ↦ failed (Err.emissing name) ]

module _ {F : Type 0} (env : Env F) where
  -- The second loop of `evf_load_params`.
  unfoldable pub load_all : List Param → List (Option Text) → Result (List (Value F))
  load_all [] vs = fault
  load_all (p ∷ ps) [] = elim p.name [ none ↦ done [] | some n ↦ fault ]
  load_all (p ∷ ps) (v ∷ vs) = elim p.name [
    | none ↦ done []
    | some name ↦ text_of p name v >>= λ s.
        load_value env p name s >>= λ x. load_all ps vs >>= λ xs. done (x ∷ xs)
  ]

  -- `evf_load_params`.
  unfoldable pub load_params : Text → List Param → Result (List (Value F))
  load_params cfg ps = elim (count_params ps) [
    | none ↦ fault
    | some n ↦ parse_params (length cfg) ps (replicate n none) cfg >>= load_all ps
  ]

-- The end of each `evf_..._creat`: no memory is an error with `errno`.
unfoldable pub or_errno : {F S : Type 0} → Env F → Option S → Result S
or_errno env (some s) = done s
or_errno env none = failed (Err.errno env.errno)
