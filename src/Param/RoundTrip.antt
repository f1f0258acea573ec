-- ===== src/Param/RoundTrip.antt =====
-- What a parameter list is read as: src/evf_param.c.

use libevfilter.Base.{
  ℕ, suc, ◌+◌, ◌≡◌, refl, ap, ◌∙◌, Bool, true, false, Option, some, List, [], ◌∷◌, ◌++◌,
  append_assoc, arith, ◌==◌, length, All, sym,
}
use libevfilter.Base.Text.{Text, isspace}
use libevfilter.Param.Defs.{Param, Result, ◌>>=◌}
use libevfilter.Param.Parse.{
  eat_spaces, cut, ends_name, skip_equals, get_name, value_from, is_quote, get_value,
}
use libevfilter.Param.Placed.{
  assign, place, bind_assoc, place-length, keep_value-place, keep_value-at_row, bind_read,
}
use libevfilter.Param.Load.{count_params, keep_value, parse_params}

-- A word: bytes that are no white space.
abbrev pub IsWord : Text → Type 0
IsWord = All (λ c. isspace c ≡ false)

-- A name: a word without `=`.
abbrev pub IsName : Text → Type 0
IsName = All (λ c. ends_name c ≡ false)

-- A value that stands without quotes: a word that begins with no quote and no `=`.
abbrev pub IsPlain : Text → Type 0
IsPlain [] = ⊥
IsPlain (c ∷ s) = (is_quote c ≡ false) × ((c == b'=') ≡ false) × IsWord (c ∷ s)

abbrev pub IsPair : Text × Text → Type 0
IsPair (name, value) = IsName name × IsPlain value

-- Names and values, as a text of `name=value` with a blank behind each.
unfoldable pub print : List (Text × Text) → Text
print [] = []
print ((name, value) ∷ kvs) = name ++ (b'=' ∷ (value ++ b' ' ∷ print kvs))

cut_word :
    (stop : ℕ → Bool) (w : Text) (c : ℕ) (rest : Text)
    → All (λ b. stop b ≡ false) w
    → stop c ≡ true
    → cut stop (w ++ c ∷ rest) ≡ (w, rest)
unfolding cut
cut_word stop [] c rest h e = rw e
cut_word stop (b ∷ w) c rest h e = rw (cut_word stop w c rest h.1 e, h.0)

eat_spaces_word : (c : ℕ) (s : Text) → isspace c ≡ false → eat_spaces (c ∷ s) ≡ c ∷ s
unfolding eat_spaces
eat_spaces_word c s h = rw h refl

-- A name and the value behind it.
eat_spaces_name :
    (name rest : Text) → IsName name → eat_spaces (name ++ b'=' ∷ rest) ≡ name ++ b'=' ∷ rest
unfolding eat_spaces
eat_spaces_name [] rest h = refl
eat_spaces_name (c ∷ name) rest h = eat_spaces_word c (name ++ b'=' ∷ rest) (ground (arith))

get_name_print :
    (name rest : Text) (c : ℕ)
    → IsName name
    → isspace c ≡ false
    → (c == b'=') ≡ false
    → get_name (name ++ b'=' ∷ c ∷ rest) ≡ (name, c ∷ rest)
unfolding get_name skip_equals
get_name_print name rest c h space equals =
    rw
      (
        eat_spaces_name name (c ∷ rest) h,
        cut_word ends_name name b'=' (c ∷ rest) h refl,
        eat_spaces_word c rest space,
        equals,
      )
      refl

get_value_print :
    (value rest : Text) → IsPlain value → get_value (value ++ b' ' ∷ rest) ≡ (value, rest)
unfolding get_value value_from
get_value_print [] rest h = absurd h
get_value_print (c ∷ value) rest (quote, equals, word) =
    rw
      (
        eat_spaces_word c (value ++ b' ' ∷ rest) word.0,
        quote,
        cut_word isspace (c ∷ value) b' ' rest word refl,
      )
      refl

-- One round of the loop, from the name that is read on, and from its value on.
abbrev keep : ℕ → List Param → List (Option Text) → Text → Text × Text → Result (List (Option Text))
keep fuel ps vs name (value, s) = keep_value ps vs name value (λ vs'. parse_params fuel ps vs' s)

abbrev round : ℕ → List Param → List (Option Text) → Text × Text → Result (List (Option Text))
round fuel ps vs (name, rest) = keep fuel ps vs name (get_value rest)

parse_params-print :
    (name value s : Text) (fuel : ℕ) (ps : List Param) (vs : List (Option Text))
    → IsPair (name, value)
    → parse_params (suc fuel) ps vs (name ++ (b'=' ∷ (value ++ b' ' ∷ s)))
      ≡ keep_value ps vs name value (λ vs'. parse_params fuel ps vs' s)
unfolding parse_params
parse_params-print name [] s fuel ps vs (word, plain) = absurd plain
parse_params-print [] (c ∷ value) s fuel ps vs (word, plain) =
    ap (round fuel ps vs) (get_name_print [] (value ++ b' ' ∷ s) c tt plain.2.0 plain.1)
    ∙ ap (keep fuel ps vs []) (get_value_print (c ∷ value) s plain)
parse_params-print (b ∷ name) (c ∷ value) s fuel ps vs (word, plain) =
    ap (round fuel ps vs) (get_name_print (b ∷ name) (value ++ b' ' ∷ s) c word plain.2.0 plain.1)
    ∙ ap (keep fuel ps vs (b ∷ name)) (get_value_print (c ∷ value) s plain)

print-cons :
    (name value s : Text) (kvs : List (Text × Text))
    → print ((name, value) ∷ kvs) ++ s ≡ name ++ (b'=' ∷ (value ++ b' ' ∷ (print kvs ++ s)))
unfolding print
print-cons name value s kvs =
    append_assoc name (b'=' ∷ (value ++ b' ' ∷ print kvs)) s
    ∙ ap (λ t. name ++ (b'=' ∷ t)) (append_assoc value (b' ' ∷ print kvs) s)

-- The loop reads what is printed as the names and values that it was printed from.
pub print_then :
    (kvs : List (Text × Text)) (fuel : ℕ) (ps : List Param) (vs : List (Option Text)) (s : Text)
    → count_params ps ≡ some (length vs)
    → All IsPair kvs
    → parse_params (length kvs + fuel) ps vs (print kvs ++ s)
      ≡ (assign ps vs kvs >>= λ vs'. parse_params fuel ps vs' s)
unfolding print assign
print_then [] fuel ps vs s c h =
    let e : 0 + fuel ≡ fuel = omega arith in ap (λ n. parse_params n ps vs s) e
print_then ((name, value) ∷ kvs) fuel ps vs s c h =
    let more : length ((name, value) ∷ kvs) + fuel ≡ suc (length kvs + fuel) = omega arith in
    let rest =
      λ (vs' : List (Option Text)). parse_params (length kvs + fuel) ps vs' (print kvs ++ s) in
    let placed = place ps vs name value in
    ap (λ n. parse_params n ps vs (print ((name, value) ∷ kvs) ++ s)) more
    ∙ ap (parse_params (suc (length kvs + fuel)) ps vs) (print-cons name value s kvs)
    ∙ parse_params-print name value (print kvs ++ s) (length kvs + fuel) ps vs h.0
    ∙ keep_value-at_row ps vs name value rest
    ∙ keep_value-place ps vs name value rest c
    ∙ bind_read (length vs) placed rest
        (λ vs'. assign ps vs' kvs >>= λ vs₂. parse_params fuel ps vs₂ s)
        (place-length ps vs name value c)
        (λ vs' l. print_then kvs fuel ps vs' s (c ∙ ap some (sym l)) h.1)
    ∙ sym (bind_assoc placed (λ vs'. assign ps vs' kvs) (λ vs₂. parse_params fuel ps vs₂ s))
