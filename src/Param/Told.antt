-- ===== src/Param/Told.antt =====
-- Errors as text: src/evf_err.c, with the names of types of src/evf_param.c.
use libevfilter.Base.{
  ℕ, ◌≡◌, refl, sym, ap, Option, none, some, List, [], ◌∷◌, ◌++◌, ◌==◌, if◌then◌else◌, get_elem?,
  append_assoc,
}
use libevfilter.Base.Int.{ℤ, pos}
use libevfilter.Base.Text.{Text, codes}
use libevfilter.Param.Defs.{
  ParamType, key, evtype, int, float, str, file, bool, Err, errno, efname, epname, emissing, einval,
  erange, eredef, nofname, noparams,
}

abbrev pub evf_type_names : List Text
evf_type_names =
    codes "Key"
    ∷ codes "Keys"
    ∷ codes "Integer"
    ∷ codes "Float"
    ∷ codes "String"
    ∷ codes "Path to file"
    ∷ codes "Bool"
    ∷ []

-- `evf_get_type_name`; `none` reads outside of the table.
unfoldable pub get_type_name : ℕ → Option Text
get_type_name type = get_elem? evf_type_names type

-- `union evf_err` as it lies in memory, with the numbers of its enumerations.
pub record ErrUnion : Type 0 where
  pub type : ℕ
  pub err_no : ℕ
  pub etype : ℕ
  pub ptype : ℕ
  pub name : Text
  pub value : Text

-- `strerror` and `%i`.
pub record Words : Type 0 where
  pub strerror : ℕ → Text
  pub decimal : ℤ → Text

abbrev line : Text → Text
line t = t ++ (b'\n' ∷ [])

-- A text in quotes, in front of another one.
abbrev quoted : Text → Text → Text
quoted t behind = b'`' ∷ (t ++ (b'\'' ∷ behind))

-- "Invalid value", with the name of the type that was expected.
abbrev expected : ErrUnion → Option Text → Option Text
expected err none = none
expected err (some type_name) = some (
    codes "Invalid value "
    ++ quoted err.value (
        codes " for parameter "
        ++ quoted err.name (codes ". Expected " ++ (type_name ++ line (codes ".")))))

-- The `switch` over the type of a parse error.
unfoldable pub print_param : Words → ErrUnion → Option Text
unfolding get_type_name
print_param words err =
    if err.etype == 2
    then some (codes "Parameter " ++ quoted err.name (line (codes " is missing.")))
    else if err.etype == 1
    then some (codes "Invalid parameter " ++ quoted err.name (line (codes ".")))
    else if err.etype == 0
    then some (codes "Invalid filter name " ++ quoted err.name (line (codes ".")))
    else if err.etype == 3
    then expected err (get_type_name err.ptype)
    else if err.etype == 4
    then some (codes "Parameter " ++ quoted err.name (line (codes " out of range.")))
    else if err.etype == 5
    then some (codes "Parameter " ++ quoted err.name (line (codes " redefined.")))
    else if err.etype == 6
    then some (line (codes "Missing expected FilterName directive."))
    else if err.etype == 7
    then some (line (codes "Missing expected filter parameters section ended by EndFilter."))
    else some (
        codes "Internal Error: Invalid error number ("
        ++ (words.decimal (pos err.ptype) ++ line (codes ") !")))

-- `evf_err_print`: what is printed.
unfoldable pub err_print : Words → ErrUnion → Option Text
unfolding print_param
err_print words err =
    if err.type == 0
    then some (line (codes "Operation was succesfull."))
    else if err.type == 1
    then some (codes "Errno: " ++ line (words.strerror err.err_no))
    else if err.type == 2
    then print_param words err
    else some (
        codes "Internal Error: Invalid error type ("
        ++ (words.decimal (pos err.type) ++ line (codes ") !")))

-- `enum evf_param_t`.
abbrev pub number_of_type : ParamType → ℕ
number_of_type key = 0
number_of_type evtype = 1
number_of_type int = 2
number_of_type float = 3
number_of_type str = 4
number_of_type file = 5
number_of_type bool = 6

-- The members that the code sets for an error, over what lies in the union.
abbrev pub union_of : ErrUnion → Err → ErrUnion
union_of u (errno n) = record u { type = 1; err_no = n }
union_of u (efname t) = record u { type = 2; etype = 0; name = t }
union_of u (epname t) = record u { type = 2; etype = 1; name = t }
union_of u (emissing t) = record u { type = 2; etype = 2; name = t }
union_of u (einval t v type) = record u {
  type = 2;
  etype = 3;
  name = t;
  value = v;
  ptype = number_of_type type;
}
union_of u (erange t lim) = record u { type = 2; etype = 4; name = t }
union_of u (eredef t) = record u { type = 2; etype = 5; name = t }
union_of u nofname = record u { type = 2; etype = 6 }
union_of u noparams = record u { type = 2; etype = 7 }

-- What an error is about.
abbrev pub subject : Words → Err → Text
subject words (errno n) = words.strerror n
subject words (efname t) = t
subject words (epname t) = t
subject words (emissing t) = t
subject words (einval t v type) = t
subject words (erange t lim) = t
subject words (eredef t) = t
subject words nofname = codes "FilterName"
subject words noparams = codes "EndFilter"

-- A text that is printed has a part.
abbrev pub Says : Text → Option Text → Type 0
Says t o = (before behind : Text) × (o ≡ some (before ++ (t ++ behind)))

expected-Says : (err : ErrUnion) (type_name : Text) → Says err.name (expected err (some type_name))
expected-Says err type_name = (
  codes "Invalid value `" ++ (err.value ++ codes "' for parameter `"),
  _,
  ap (λ t. some (codes "Invalid value `" ++ t)) (sym (append_assoc err.value _ _)),
)

type_name-Says :
    (err : ErrUnion) (type : ParamType)
    → Says err.name (expected err (get_type_name (number_of_type type)))
unfolding get_type_name
type_name-Says err key = expected-Says err (codes "Key")
type_name-Says err evtype = expected-Says err (codes "Keys")
type_name-Says err int = expected-Says err (codes "Integer")
type_name-Says err float = expected-Says err (codes "Float")
type_name-Says err str = expected-Says err (codes "String")
type_name-Says err file = expected-Says err (codes "Path to file")
type_name-Says err bool = expected-Says err (codes "Bool")

-- Each error of the library is printed, whatever lies in the members that it does not set: no name
-- of a type is looked up outside of the table, and the text has what the error is about.
pub err_print-Says :
    (words : Words) (u : ErrUnion) (e : Err)
    → Says (subject words e) (err_print words (union_of u e))
unfolding err_print
err_print-Says words u (errno n) = (codes "Errno: ", b'\n' ∷ [], refl)
err_print-Says words u (efname t) = (codes "Invalid filter name `", _, refl)
err_print-Says words u (epname t) = (codes "Invalid parameter `", _, refl)
err_print-Says words u (emissing t) = (codes "Parameter `", _, refl)
err_print-Says words u (einval t v type) = type_name-Says (union_of u (einval t v type)) type
err_print-Says words u (erange t lim) = (codes "Parameter `", _, refl)
err_print-Says words u (eredef t) = (codes "Parameter `", _, refl)
err_print-Says words u nofname = (codes "Missing expected ", _, refl)
err_print-Says words u noparams =
    (codes "Missing expected filter parameters section ended by ", _, refl)
