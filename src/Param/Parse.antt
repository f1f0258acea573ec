-- ===== src/Param/Parse.antt =====
-- The text of a parameter list, `name = value ...`: `evf_eat_spaces` of src/evf_func.c, and
-- `evfilter_get_name` and `evfilter_get_value` of src/evf_param.c.
-- Both write a NUL behind what they return and move on: here each gives its text and the rest.
use libevfilter.Base.{ℕ, Bool, ◌||◌, [], ◌∷◌, ◌==◌, if◌then◌else◌}
use libevfilter.Base.Text.{Text, isspace}

-- `evf_eat_spaces`.
unfoldable pub eat_spaces : Text → Text
eat_spaces [] = []
eat_spaces (c ∷ s) = let rest = eat_spaces s in if isspace c then rest else c ∷ s

-- The text up to the first byte that the test takes, and what stands behind that byte.
unfoldable pub cut : (ℕ → Bool) → Text → Text × Text
cut stop [] = ([], [])
cut stop (c ∷ s) = let (word, rest) = cut stop s in if stop c then ([], s) else (c ∷ word, rest)

-- What ends a name, an open value, and a value in quotes.
abbrev pub ends_name : ℕ → Bool
ends_name c = isspace c || (c == b'=')

-- `if (**str == '=') (*str)++;`
unfoldable pub skip_equals : Text → Text
skip_equals [] = []
skip_equals (c ∷ s) = if c == b'=' then s else c ∷ s

-- `evfilter_get_name`.
unfoldable pub get_name : Text → Text × Text
get_name s =
    let (name, rest) = cut ends_name (eat_spaces s) in (name, skip_equals (eat_spaces rest))

unfoldable pub is_quote : ℕ → Bool
is_quote c = (c == 34) || (c == 39)

-- The value from its first byte on: `enc` is that byte, if it is a quote.
unfoldable pub value_from : Text → Text × Text
unfolding cut is_quote
value_from [] = ([], [])
value_from (c ∷ s) = if is_quote c then cut (λ b. b == c) s else cut isspace (c ∷ s)

-- `evfilter_get_value`.
unfoldable pub get_value : Text → Text × Text
get_value s = value_from (eat_spaces s)
