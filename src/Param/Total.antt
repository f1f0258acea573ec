-- ===== src/Param/Total.antt =====
-- Splitting a parameter list always ends: src/evf_param.c, src/evf_func.c.
use mathlib.Core.Option
use libevfilter.Base.{
  ℕ, zero, suc, ◌≤◌, ◌≡◌, ◌∙◌, inl, inr, Bool, Option, none, some, List, [], ◌∷◌, arith, ◌==◌,
  length, set, Bool-cases, Option-cases, length-set,
}
use libevfilter.Base.Text.{Text, isspace, case_eq}
use libevfilter.Param.Defs.{Param, Err, Result, done, failed, fault}
use libevfilter.Param.Parse.{
  eat_spaces, cut, ends_name, skip_equals, get_name, value_from, is_quote, get_value,
}
use libevfilter.Param.Load.{count_params, find_possition, value_at, parse_params}

length-eat_spaces : (s : Text) → length (eat_spaces s) ≤ length s
unfolding eat_spaces
length-eat_spaces [] = omega arith
length-eat_spaces (c ∷ s) = ground (arith, length-eat_spaces s)

length-cut : (stop : ℕ → Bool) (s : Text) → length (cut stop s).1 ≤ length s
unfolding cut
length-cut stop [] = omega arith
length-cut stop (c ∷ s) = ground (arith, length-cut stop s)

-- A cut takes a byte at least.
length-cut_cons : (stop : ℕ → Bool) (c : ℕ) (s : Text) → length (cut stop (c ∷ s)).1 ≤ length s
unfolding cut
length-cut_cons stop c s = ground (arith, length-cut stop s)

length-skip_equals : (s : Text) → length (skip_equals s) ≤ length s
unfolding skip_equals
length-skip_equals [] = omega arith
length-skip_equals (c ∷ s) = ground arith

cut_spaces : (c : ℕ) (s : Text) → length (cut ends_name (eat_spaces (c ∷ s))).1 ≤ length s
unfolding eat_spaces
cut_spaces c s = elim (Bool-cases (isspace c)) [
  | inl space ↦ rw space (omega (arith, length-cut ends_name (eat_spaces s), length-eat_spaces s))
  | inr word ↦ rw word (length-cut_cons ends_name c s)
]

-- A name takes a byte at least, and a value adds none.
pub length-get_name : (c : ℕ) (s : Text) → length (get_name (c ∷ s)).1 ≤ length s
unfolding get_name
length-get_name c s =
    let rest = (cut ends_name (eat_spaces (c ∷ s))).1 in
    omega (arith, length-skip_equals (eat_spaces rest), length-eat_spaces rest, cut_spaces c s)

length-value_from : (s : Text) → length (value_from s).1 ≤ length s
unfolding value_from
length-value_from [] = omega arith
length-value_from (c ∷ s) = elim (Bool-cases (is_quote c)) [
  | inl quote ↦ rw quote (omega (arith, length-cut (λ b. b == c) s))
  | inr plain ↦ rw plain (omega (arith, length-cut isspace (c ∷ s)))
]

pub length-get_value : (s : Text) → length (get_value s).1 ≤ length s
unfolding get_value
length-get_value s = omega (arith, length-value_from (eat_spaces s), length-eat_spaces s)

-- A table with its last row is searched without a fault, and a name is found in one of its rows.
find_possition_total :
    (name : Text) (ps : List Param) (n : ℕ)
    → count_params ps ≡ some n
    → (r : Option ℕ) × (find_possition name ps ≡ done r)
unfolding count_params find_possition
find_possition_total name [] n h = absurd (ground arith)
find_possition_total name (p ∷ ps) n h = elim (Option-cases p.name) [
  | inl last ↦ (none, ground arith)
  | inr (k, named) ↦ elim (Option-cases (count_params ps)) [
    | inl endless ↦ absurd (ground arith)
    | inr (m, e) ↦
        let (r, found) = find_possition_total name ps m e in
        elim (Bool-cases (case_eq k name)) [
          | inl hit ↦ (some 0, ground arith)
          | inr miss ↦ (Option.map suc r, ground arith)
        ]
  ]
]

-- What is read is a list of the length of the table, or an error.
abbrev pub IsRead : ℕ → Result (List (Option Text)) → Type 0
IsRead n (done vs) = length vs ≡ n
IsRead n (failed e) = Unit
IsRead n fault = ⊥

-- The end of one round, whatever row and value the name has.
round_total :
    (n : ℕ) (name : Text) (vs : List (Option Text)) (rest : ℕ → Result (List (Option Text)))
    → ((i : ℕ) → IsRead n (rest i))
    → (r : Option ℕ)
    → IsRead n (elim r [
      | none ↦ failed (Err.epname name)
      | some i ↦ elim (value_at vs i) [ some _ ↦ failed (Err.eredef name) | none ↦ rest i ]
    ])
round_total n name vs rest h none = tt
round_total n name vs rest h (some i) =
    elim (value_at vs i)
      as (λ o. IsRead n (elim o [ some _ ↦ failed (Err.eredef name) | none ↦ rest i ])) [
        | some v ↦ tt
        | none ↦ h i
      ]

pub parse_params_total :
    (fuel : ℕ) (ps : List Param) (vs : List (Option Text)) (s : Text) (n : ℕ)
    → count_params ps ≡ some n
    → length vs ≡ n
    → length s ≤ fuel
    → IsRead n (parse_params fuel ps vs s)
unfolding parse_params
parse_params_total zero ps vs [] n h l f = l
parse_params_total (suc fuel) ps vs [] n h l f = l
parse_params_total zero ps vs (c ∷ s) n h l f = absurd (omega arith)
parse_params_total (suc fuel) ps vs (c ∷ s) n h l f =
    let (name, rest) = get_name (c ∷ s) in
    let (value, rest') = get_value rest in
    let (r, e) = find_possition_total name ps n h in
    rw e (
      round_total n name vs (λ i. parse_params fuel ps (set vs i (some value)) rest')
        (λ i.
          parse_params_total fuel ps (set vs i (some value)) rest' n h
            (length-set vs i (some value) ∙ l)
            (omega (arith, length-get_name c s, length-get_value rest)))
        r)
