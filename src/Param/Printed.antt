-- ===== src/Param/Printed.antt =====
-- What `evf_load_params` makes of a printed list: src/evf_param.c.

use libevfilter.Base.{
  ℕ, zero, suc, ◌+◌, ◌-◌, ◌≤◌, ◌≡◌, refl, sym, ap, ◌∙◌, Option, none, some, List, [], ◌∷◌, ◌++◌,
  append-nil, arith, length, replicate, length-replicate, All, length-append,
}
use libevfilter.Base.Text.{Text}
use libevfilter.Param.Defs.{Param, Err, Result, done, failed, fault, ◌>>=◌, Env}
use libevfilter.Param.Typed.{load_params-some}
use libevfilter.Param.Parse.{eat_spaces, cut, skip_equals, get_name}
use libevfilter.Param.Load.{count_params, find_possition, parse_params, load_all, load_params}
use libevfilter.Param.RoundTrip.{IsPair, print, print_then}
use libevfilter.Param.Placed.{assign}

length-print : (kvs : List (Text × Text)) → length kvs ≤ length (print kvs)
unfolding print
length-print [] = omega arith
length-print ((name, value) ∷ kvs) = omega (
  arith,
  length-print kvs,
  length-append name (b'=' ∷ (value ++ b' ' ∷ print kvs)),
  length-append value (b' ' ∷ print kvs),
)

-- The fuel that is left when the names and values are read.
left_over : List (Text × Text) → Text → ℕ
left_over kvs s = length (print kvs ++ s) - length kvs

bind-done : {A : Type 0} (r : Result A) → (r >>= λ x. done x) ≡ r
bind-done (done x) = refl
bind-done (failed e) = refl
bind-done fault = refl

bind_failed :
    {A B C : Type 0} (r : Result A) {f : A → Result B} {e : Err} (g : B → Result C)
    → ((x : A) → f x ≡ failed e)
    → (r >>= f >>= g) ≡ (r >>= λ _. failed e)
bind_failed (done x) g h = rw (h x) refl
bind_failed (failed e) g h = refl
bind_failed fault g h = refl

blank_fails :
    (fuel : ℕ) (ps : List Param) (vs : List (Option Text))
    → 1 ≤ fuel
    → find_possition [] ps ≡ done none
    → parse_params fuel ps vs (b' ' ∷ []) ≡ failed (Err.epname [])
unfolding parse_params get_name eat_spaces cut skip_equals
blank_fails zero ps vs more nameless = absurd (omega arith)
blank_fails (suc fuel) ps vs more nameless = rw nameless refl

module _ {F : Type 0} (env : Env F) (ps : List Param) (n : ℕ) (kvs : List (Text × Text)) where
  load_params-print :
      (s : Text)
      → count_params ps ≡ some n
      → All IsPair kvs
      → load_params env (print kvs ++ s) ps ≡ (
          (assign ps (replicate n none) kvs >>= λ vs. parse_params (left_over kvs s) ps vs s)
          >>= load_all env ps)
  unfolding print left_over
  load_params-print s h all =
      let fuel : length (print kvs ++ s) ≡ length kvs + left_over kvs s =
        omega (arith, length-print kvs, length-append (print kvs) s) in
      load_params-some env (print kvs ++ s) ps n h
      ∙ ap (λ f. parse_params f ps (replicate n none) (print kvs ++ s) >>= load_all env ps) fuel
      ∙ ap (λ r. r >>= load_all env ps)
          (print_then kvs (left_over kvs s) ps (replicate n none) s
            (h ∙ ap some (sym (length-replicate n none))) all)

  -- Names and values that are printed, with a blank behind each, are read as the same names and
  -- values, in their order: each goes to the first row of its name, up to case, the first name that
  -- has no row, or whose row has a value already, is refused with the error that says so, and then
  -- every row is loaded.
  pub load_params_inverts_print :
      count_params ps ≡ some n
      → All IsPair kvs
      → load_params env (print kvs) ps ≡ (assign ps (replicate n none) kvs >>= load_all env ps)
  unfolding parse_params
  load_params_inverts_print h all =
      ap (λ t. load_params env t ps) (sym (append-nil (print kvs)))
      ∙ load_params-print [] h all
      ∙ ap (λ r. r >>= load_all env ps) (bind-done (assign ps (replicate n none) kvs))

  -- One blank more at the end, and nothing is loaded: the loop takes it for a name without a
  -- letter, which no row has, after whatever error the names in front of it are.
  pub load_params_refuses_blank :
      count_params ps ≡ some n
      → All IsPair kvs
      → find_possition [] ps ≡ done none
      → load_params env (print kvs ++ b' ' ∷ []) ps
        ≡ (assign ps (replicate n none) kvs >>= λ _. failed (Err.epname []))
  unfolding left_over
  load_params_refuses_blank h all nameless =
      load_params-print (b' ' ∷ []) h all
      ∙ bind_failed (assign ps (replicate n none) kvs) (load_all env ps)
          (λ vs. blank_fails (left_over kvs (b' ' ∷ [])) ps vs more nameless)
    where
      more : 1 ≤ left_over kvs (b' ' ∷ [])
      more = omega (arith, length-print kvs, length-append (print kvs) (b' ' ∷ []))
