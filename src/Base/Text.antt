-- ===== src/Base/Text.antt =====
-- C strings as lists of bytes without the terminating NUL, and what string.h and ctype.h say of
-- them in the C locale.
use Prim.Native.Nat.{ℕ, ◌+◌}
use Prim.Native.Char.{code}
use Prim.Native.String.{String}
use mathlib.Core.Path.{◌≡◌, refl}
use mathlib.Core.Bool.{Bool, true, false, ◌&&◌, ◌||◌}
use mathlib.Core.List.{List, [], ◌∷◌}
use native.Mathlib.Omega.{arith}
use libevfilter.Base.Tests.{ltb, leb, ◌==◌, if◌then◌else◌}

abbrev pub Text : Type 0
Text = List ℕ

-- The bytes of an ASCII literal.
abbrev pub codes : String → Text
codes String.[] = []
codes (String.◌∷◌ c s) = code c ∷ codes s

-- `isspace`: space, \t, \n, \v, \f, \r.
abbrev pub isspace : ℕ → Bool
isspace c = (c == 32) || (leb 9 c && leb c 13)

-- `tolower`.
abbrev pub tolower : ℕ → ℕ
tolower c = if leb b'A' c && leb c b'Z' then c + 32 else c

-- The sign of `strcasecmp`.
pub data Order : Type 0 where
  below same above : Order

unfoldable pub strcasecmp : Text → Text → Order
strcasecmp [] [] = same
strcasecmp [] (b ∷ t) = below
strcasecmp (a ∷ s) [] = above
strcasecmp (a ∷ s) (b ∷ t) =
    if ltb (tolower a) (tolower b)
    then below
    else if ltb (tolower b) (tolower a)
    then above
    else strcasecmp s t

abbrev pub is_same : Order → Bool
is_same same = true
is_same _ = false

-- `!strcasecmp(s, t)`.
unfoldable pub case_eq : Text → Text → Bool
unfolding strcasecmp
case_eq s t = is_same (strcasecmp s t)

pub strcasecmp_refl : (s : Text) → strcasecmp s s ≡ same
unfolding strcasecmp
strcasecmp_refl [] = refl
strcasecmp_refl (a ∷ s) = ground (arith, strcasecmp_refl s)

pub case_eq_refl : (s : Text) → case_eq s s ≡ true
unfolding case_eq
case_eq_refl s = ground (arith, strcasecmp_refl s)

-- `strcasecmp` is an order on texts up to case.
pub strcasecmp_same : (s t u : Text) → strcasecmp s t ≡ same → strcasecmp s u ≡ strcasecmp t u
unfolding strcasecmp
strcasecmp_same [] [] u h = refl
strcasecmp_same [] (b ∷ t) u h = ground arith
strcasecmp_same (a ∷ s) [] u h = ground arith
strcasecmp_same (a ∷ s) (b ∷ t) [] h = refl
strcasecmp_same (a ∷ s) (b ∷ t) (c ∷ u) h =
    heads (tolower a) (tolower b) (tolower c) (strcasecmp_same s t u) h
  where
    heads :
        (x y z : ℕ)
        → (strcasecmp s t ≡ same → strcasecmp s u ≡ strcasecmp t u)
        → (if ltb x y then below else if ltb y x then above else strcasecmp s t) ≡ same
        → (if ltb x z then below else if ltb z x then above else strcasecmp s u)
          ≡ (if ltb y z then below else if ltb z y then above else strcasecmp t u)
    heads x y z ih k = ground (arith, ih)

pub strcasecmp_flip : (s t : Text) → strcasecmp s t ≡ below → strcasecmp t s ≡ above
unfolding strcasecmp
strcasecmp_flip [] [] h = ground arith
strcasecmp_flip [] (b ∷ t) h = refl
strcasecmp_flip (a ∷ s) [] h = ground arith
strcasecmp_flip (a ∷ s) (b ∷ t) h = heads (tolower a) (tolower b) (strcasecmp_flip s t) h
  where
    heads :
        (x y : ℕ)
        → (strcasecmp s t ≡ below → strcasecmp t s ≡ above)
        → (if ltb x y then below else if ltb y x then above else strcasecmp s t) ≡ below
        → (if ltb y x then below else if ltb x y then above else strcasecmp t s) ≡ above
    heads x y ih k = ground (arith, ih)

-- `!strcmp(s, t)`.
unfoldable pub text_eq : Text → Text → Bool
text_eq [] [] = true
text_eq [] (b ∷ t) = false
text_eq (a ∷ s) [] = false
text_eq (a ∷ s) (b ∷ t) = (a == b) && text_eq s t
