-- ===== src/Param/Defs.antt =====
-- Parameter tables and errors: src/evf_param.h, src/evf_err.h, src/evf_priv.h.
use libevfilter.Base.{ℕ, Bool, Option, none, some}
use libevfilter.Base.Int.{ℤ}
use libevfilter.Base.Text.{Text}

-- `enum evf_param_t`.
pub data ParamType : Type 0 where
  key evtype int float str file bool : ParamType

-- `struct evf_lim_int`.
pub record LimInt : Type 0 where
  pub min : ℤ
  pub max : ℤ

-- `struct evf_param`; the name is NULL in the row that ends a table. The member `desc` is
-- printed by clients only.
pub record Param : Type 0 where
  pub name : Option Text
  pub type : ParamType
  pub lim : Option LimInt
  pub dflt : Option Text

-- A row of a table, and the row that ends it.
abbrev pub row : Text → ParamType → Option LimInt → Option Text → Param
row n t l d = record { name = some n; type = t; lim = l; dflt = d }

abbrev pub last_row : Param
last_row = record { name = none; type = key; lim = none; dflt = none }

-- `union evf_err` with `enum evf_err_par_t`; each error carries the members that are filled.
pub data Err : Type 0 where
  errno : ℕ → Err
  efname : Text → Err
  epname : Text → Err
  emissing : Text → Err
  einval : Text → Text → ParamType → Err
  erange : Text → LimInt → Err
  eredef : Text → Err
  nofname : Err
  noparams : Err

-- `fault` is a read or write outside of an object, or a call at the wrong types.
pub data Result {ℓ} (A : Type ℓ) : Type ℓ where
  done : A → Result A
  failed : Err → Result A
  fault : Result A

infixl 5 ◌>>=◌
abbrev pub ◌>>=◌ {ℓ κ} : {A : Type ℓ} {B : Type κ} → Result A → (A → Result B) → Result B
done a >>= f = f a
failed e >>= f = failed e
fault >>= f = fault

-- `stdout`, `stderr`, or the file that `fopen` has opened.
pub data File : Type 0 where
  stdout stderr : File
  opened : Text → File

-- What is stored through one pointer of the argument list of `evf_load_params`.
pub data Value (F : Type 0) : Type 0 where
  int : ℤ → Value F
  float : F → Value F
  str : Text → Value F
  file : File → Value F

-- What the code takes from its surroundings: the C library, and the table of keys.
pub record Env (F : Type 0) : Type 0 where
  -- the number that is read, and the text behind it
  pub strtol : Text → ℤ × Text
  pub strtof : Text → F × Text
  -- does `fopen` give a file?
  pub can_open : Text → Bool
  -- does `malloc` give memory?
  pub has_memory : Bool
  pub errno : ℕ
  -- `keyparser_getkey`, negative for a name that is not found
  pub getkey : Text → ℤ
