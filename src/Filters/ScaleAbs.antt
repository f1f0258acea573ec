-- ===== src/Filters/ScaleAbs.antt =====
-- src/filters/scale_abs.c: absolute coordinates are scaled to the range of `int`.
use libevfilter.Base.{Bool, Option, some, none, List, [], ◌∷◌, ◌==◌, not, if◌then◌else◌}
use libevfilter.Base.Int.{ℤ, ◌-ℤ◌, to_int}
use libevfilter.Base.Text.{Text, codes}
use libevfilter.Event.{ev_abs, abs_x, abs_y, Next, Modify, pass}
use libevfilter.Param.Defs.{ParamType, Param, row, last_row, Result, fault, ◌>>=◌, Value, Env}
use libevfilter.Param.Load.{load_params, or_errno}

-- `struct scale`.
pub record Scale : Type 0 where
  pub maxx : ℤ
  pub maxy : ℤ
  pub maxp : ℤ
  pub minx : ℤ
  pub miny : ℤ
  pub minp : ℤ

-- `scaled a b` is `1.00 * INT_MAX * a / b` on `double`, converted to `int`.
unfoldable pub modify : {D : Type 0} → (scaled : ℤ → ℤ → ℤ) → Next D → Modify Scale D
modify scaled next s ev d =
    if not (ev.type == ev_abs)
    then pass next s ev d
    else if ev.code == abs_x
    then pass next s (record ev { value = scaled (to_int (ev.value -ℤ s.minx)) s.maxx }) d
    else if ev.code == abs_y
    then pass next s (record ev { value = scaled (to_int (ev.value -ℤ s.miny)) s.maxy }) d
    else pass next s ev d

-- `evf_scale_abs_alloc`.
unfoldable pub alloc : Bool → (maxx maxy maxp minx miny minp : ℤ) → Option Scale
alloc has_memory maxx maxy maxp minx miny minp =
    if has_memory
    then some
        (record { maxx = maxx; maxy = maxy; maxp = maxp; minx = minx; miny = miny; minp = minp })
    else none

abbrev pub scale_params : List Param
scale_params =
    row (codes "maxx") ParamType.int none none
    ∷ row (codes "maxy") ParamType.int none none
    ∷ row (codes "maxp") ParamType.int none (some (codes "32767"))
    ∷ row (codes "minx") ParamType.int none (some (codes "0"))
    ∷ row (codes "miny") ParamType.int none (some (codes "0"))
    ∷ row (codes "minp") ParamType.int none (some (codes "32767"))
    ∷ last_row
    ∷ []

unfoldable pub from_values : {F : Type 0} → Env F → List (Value F) → Result Scale
unfolding alloc
from_values env
      (Value.int maxx
        ∷ Value.int maxy
        ∷ Value.int maxp
        ∷ Value.int minx
        ∷ Value.int miny
        ∷ Value.int minp
        ∷ []) =
    or_errno env (alloc env.has_memory maxx maxy maxp minx miny minp)
from_values env _ = fault

-- `evf_scale_abs_creat`.
unfoldable pub creat : {F : Type 0} → Env F → Text → Result Scale
unfolding from_values
creat env params = load_params env params scale_params >>= from_values env
