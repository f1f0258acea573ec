-- ===== src/Param/Placed.antt =====
-- Which row a value of a parameter list goes to: src/evf_param.c.

use libevfilter.Base.{
  ℕ, suc, ◌≡◌, refl, ap, ◌∙◌, Option, none, some, List, [], ◌∷◌, arith, length, set, Bool-cases,
  Option-cases, inl, inr, if◌then◌else◌,
}
use libevfilter.Base.Text.{Text, case_eq}
use libevfilter.Param.Defs.{Param, Err, Result, done, failed, fault, ◌>>=◌}
use mathlib.Core.Option
use mathlib.Core.Option.{some-injective}
use libevfilter.Param.Total.{IsRead}
use libevfilter.Param.Load.{count_params, find_possition, value_at, keep_value}

-- A value for a row: it is kept if the row has none, and else is an error.
abbrev pub give : Text → Text → Option Text → List (Option Text) → Result (List (Option Text))
give name value none vs = done (some value ∷ vs)
give name value (some old) vs = failed (Err.eredef name)

abbrev pub behind : Option Text → Result (List (Option Text)) → Result (List (Option Text))
behind v (done vs) = done (v ∷ vs)
behind v (failed e) = failed e
behind v fault = fault

-- A value is given to the first row that has its name, up to case; that there is none is an error.
unfoldable pub place : List Param → List (Option Text) → Text → Text → Result (List (Option Text))
place [] vs name value = fault
place (p ∷ ps) [] name value = elim p.name [ none ↦ failed (Err.epname name) | some k ↦ fault ]
place (p ∷ ps) (v ∷ vs) name value =
    let later = behind v (place ps vs name value) in
    elim p.name [
      | none ↦ failed (Err.epname name)
      | some k ↦ if case_eq k name then give name value v vs else later
    ]

-- What a list of names and values gives each row of a table, some rows having theirs already.
unfoldable pub assign :
    List Param → List (Option Text) → List (Text × Text) → Result (List (Option Text))
assign ps vs [] = done vs
assign ps vs ((name, value) ∷ kvs) = place ps vs name value >>= λ vs'. assign ps vs' kvs

pub bind_assoc :
    {A B C : Type 0} (r : Result A) (f : A → Result B) (g : B → Result C)
    → (r >>= f >>= g) ≡ (r >>= λ x. f x >>= g)
bind_assoc (done x) f g = refl
bind_assoc (failed e) f g = refl
bind_assoc fault f g = refl

behind-bind :
    {R : Type 0} (v : Option Text) (r : Result (List (Option Text)))
    (more : List (Option Text) → Result R)
    → (r >>= λ vs. more (v ∷ vs)) ≡ (behind v r >>= more)
behind-bind v (done vs) more = refl
behind-bind v (failed e) more = refl
behind-bind v fault more = refl

give-length :
    (name value : Text) (v : Option Text) (vs : List (Option Text)) (n : ℕ)
    → length vs ≡ n
    → IsRead (suc n) (give name value v vs)
give-length name value none vs n h = ap suc h
give-length name value (some old) vs n h = tt

behind-length :
    (v : Option Text) (r : Result (List (Option Text))) (n : ℕ)
    → IsRead n r
    → IsRead (suc n) (behind v r)
behind-length v (done vs) n h = ap suc h
behind-length v (failed e) n h = tt
behind-length v fault n h = h

-- As many rows as values are left as many.
abbrev pub Counted : List Param → List (Option Text) → Type 0
Counted ps vs = count_params ps ≡ some (length vs)

Counted-cons :
    (p : Param) (ps : List Param) (v : Option Text) (vs : List (Option Text)) (k : Text)
    → p.name ≡ some k
    → Counted (p ∷ ps) (v ∷ vs)
    → Counted ps vs
unfolding count_params
Counted-cons p ps v vs k named c = elim (Option-cases (count_params ps)) [
  | inl endless ↦ absurd (ground (arith, named, endless, c))
  | inr (m, e) ↦
      let more : some (suc m) ≡ some (suc (length vs)) = ground (arith, named, e, c) in
      e ∙ ap some (omega (arith, some-injective _ _ more))
]

Counted-nil : (p : Param) (ps : List Param) (k : Text) → p.name ≡ some k → Counted (p ∷ ps) [] → ⊥
unfolding count_params
Counted-nil p ps k named c = elim (Option-cases (count_params ps)) [
  | inl endless ↦ ground (arith, named, endless, c)
  | inr (m, e) ↦ ground (arith, named, e, c)
]

pub place-length :
    (ps : List Param) (vs : List (Option Text)) (name value : Text)
    → Counted ps vs
    → IsRead (length vs) (place ps vs name value)
unfolding place count_params
place-length [] vs name value c = absurd (ground (arith, c))
place-length (p ∷ ps) [] name value c = elim (Option-cases p.name) [
  | inl last ↦ rw last tt
  | inr (k, named) ↦ absurd (Counted-nil p ps k named c)
]
place-length (p ∷ ps) (v ∷ vs) name value c = elim (Option-cases p.name) [
  | inl last ↦ rw last tt
  | inr (k, named) ↦ elim (Bool-cases (case_eq k name)) [
    | inl hit ↦ rw (named, hit) (give-length name value v vs (length vs) refl)
    | inr miss ↦
        rw (named, miss)
          (behind-length v _ (length vs)
            (place-length ps vs name value (Counted-cons p ps v vs k named c)))
  ]
]

-- What the code does at the row that it has found.
abbrev pub at_row :
    {R : Type 0}
    → List (Option Text)
    → (name value : Text) → (List (Option Text) → Result R)
    → Option ℕ
    → Result R
at_row vs name value more none = failed (Err.epname name)
at_row vs name value more (some i) = elim (value_at vs i) [
  | some _ ↦ failed (Err.eredef name)
  | none ↦ more (set vs i (some value))
]

at_row-shift :
    {R : Type 0} (v : Option Text) (vs : List (Option Text)) (name value : Text)
    (more : List (Option Text) → Result R) (r : Result (Option ℕ))
    → (r >>= (λ i. done (Option.map suc i)) >>= at_row (v ∷ vs) name value more)
      ≡ (r >>= at_row vs name value (λ vs'. more (v ∷ vs')))
at_row-shift v vs name value more fault = refl
at_row-shift v vs name value more (failed e) = refl
at_row-shift v vs name value more (done none) = refl
at_row-shift v vs name value more (done (some i)) = refl

at_row-give :
    {R : Type 0} (v : Option Text) (vs : List (Option Text)) (name value : Text)
    (more : List (Option Text) → Result R)
    → at_row (v ∷ vs) name value more (some 0) ≡ (give name value v vs >>= more)
at_row-give none vs name value more = refl
at_row-give (some old) vs name value more = refl

-- The code's way, by an index, gives the value to that row.
pub keep_value-place :
    {R : Type 0} (ps : List Param) (vs : List (Option Text)) (name value : Text)
    (more : List (Option Text) → Result R)
    → Counted ps vs
    → (find_possition name ps >>= at_row vs name value more) ≡ (place ps vs name value >>= more)
unfolding find_possition place
keep_value-place [] vs name value more c = refl
keep_value-place (p ∷ ps) [] name value more c = elim (Option-cases p.name) [
  | inl last ↦ rw last refl
  | inr (k, named) ↦ absurd (Counted-nil p ps k named c)
]
keep_value-place (p ∷ ps) (v ∷ vs) name value more c = elim (Option-cases p.name) [
  | inl last ↦ rw last refl
  | inr (k, named) ↦ elim (Bool-cases (case_eq k name)) [
    | inl hit ↦ rw (named, hit) (at_row-give v vs name value more)
    | inr miss ↦
        rw (named, miss)
          (at_row-shift v vs name value more (find_possition name ps)
            ∙ keep_value-place ps vs name value (λ vs'. more (v ∷ vs'))
                (Counted-cons p ps v vs k named c)
            ∙ behind-bind v (place ps vs name value) more)
  ]
]

pub keep_value-at_row :
    {R : Type 0} (ps : List Param) (vs : List (Option Text)) (name value : Text)
    (more : List (Option Text) → Result R)
    → keep_value ps vs name value more ≡ (find_possition name ps >>= at_row vs name value more)
keep_value-at_row ps vs name value more = by_row (find_possition name ps)
  where
    by_row :
        (r : Result (Option ℕ))
        → (r >>= λ where_to. elim where_to [
          | none ↦ failed (Err.epname name)
          | some i ↦ elim (value_at vs i) [
            | some _ ↦ failed (Err.eredef name)
            | none ↦ more (set vs i (some value))
          ]
        ])
          ≡ (r >>= at_row vs name value more)
    by_row fault = refl
    by_row (failed e) = refl
    by_row (done none) = refl
    by_row (done (some i)) = refl

-- What follows on a list of `n` values, for which it is known to be the same.
pub bind_read :
    {R : Type 0} (n : ℕ) (r : Result (List (Option Text))) (f g : List (Option Text) → Result R)
    → IsRead n r
    → ((vs : List (Option Text)) → length vs ≡ n → f vs ≡ g vs)
    → (r >>= f) ≡ (r >>= g)
bind_read n (done vs) f g l h = h vs l
bind_read n (failed e) f g l h = refl
bind_read n fault f g l h = refl
