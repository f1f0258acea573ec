-- ===== src/Tests/Params.antt =====
-- Parameter lists for src/evf_param.c.
use libevfilter.Base.{
  ℕ, ◌+◌, ◌*◌, ◌-◌, ◌≡◌, refl, true, false, ◌&&◌, leb, if◌then◌else◌, none, List, [], ◌∷◌,
  replicate,
}
use libevfilter.Base.Int.{ℤ, pos, negsuc}
use libevfilter.Base.Text.{Text, codes, case_eq, strcasecmp}
use libevfilter.Param.Defs.{◌>>=◌, Env, done, stdout}
use libevfilter.Param.Parse.{is_quote}
use libevfilter.Param.Load.{
  count_params, load_params, load_all, load_value, load_file, text_of, parse_params, or_errno,
}
use libevfilter.Param.Typed.{IsLoaded, load_params_total}
use libevfilter.Param.RoundTrip.{print}
use libevfilter.Param.Placed.{assign}
use libevfilter.Param.Printed.{load_params_inverts_print}
use libevfilter.Filters.SpeedMod
use libevfilter.Filters.Dump
use libevfilter.Filters.Abs2Rel

-- Decimal digits, read as `strtol` reads them.
unfoldable pub digits : Text → ℕ → ℕ × Text
digits [] n = (n, [])
digits (c ∷ s) n =
    let more = digits s (n * 10 + (c - 48)) in if leb 48 c && leb c 57 then more else (n, c ∷ s)

abbrev number : Text → ℤ × Text
number s = let (n, rest) = digits s 0 in (pos n, rest)

-- Surroundings with memory, in which no file can be opened and one key has a name.
abbrev pub toy_env : Env ℤ
toy_env = record {
  strtol = number;
  strtof = number;
  can_open = λ s. false;
  has_memory = true;
  errno = 2;
  getkey = λ s. if case_eq s (codes "KEY_A") then pos 30 else negsuc 0;
}

abbrev speeds : List (Text × Text)
speeds = (codes "xmod", codes "3") ∷ (codes "YMOD", codes "4") ∷ []

load_params_total_example :
    IsLoaded toy_env SpeedMod.relspeed_params
      (load_params toy_env (codes "xmod = '3' ymod=4") SpeedMod.relspeed_params)
unfolding count_params
load_params_total_example =
    load_params_total toy_env (codes "xmod = '3' ymod=4") SpeedMod.relspeed_params 2 refl

load_params_inverts_print_example : load_params toy_env (print speeds) SpeedMod.relspeed_params ≡ (
    assign SpeedMod.relspeed_params (replicate 2 none) speeds
    >>= load_all toy_env SpeedMod.relspeed_params)
unfolding count_params is_quote
load_params_inverts_print_example =
    load_params_inverts_print toy_env SpeedMod.relspeed_params 2 speeds refl (
      ((refl, (refl, (refl, (refl, tt)))), (refl, refl, (refl, tt))),
      (((refl, (refl, (refl, (refl, tt)))), (refl, refl, (refl, tt))), tt),
    )

abbrev pub no_touch : Abs2Rel.Abs2Rel
no_touch = record {
  xstate = pos 0;
  ystate = pos 0;
  relx = pos 0;
  rely = pos 0;
  last_absx = pos 0;
  last_absy = pos 0;
}

-- Without any parameter the dump filter is made, by the defaults of its table.
dump_defaults : Dump.creat toy_env [] ≡ done (record { f = stdout; prefix = [] })
unfolding Dump.creat Dump.alloc load_params load_all count_params load_value load_file text_of
    parse_params case_eq strcasecmp or_errno
dump_defaults = refl
