-- ===== src/Config/Load.antt =====
-- src/evf_loader.c: the filters of a configuration file.
use libevfilter.Base.{
  ℕ, zero, suc, ◌+◌, ◌-◌, ◌^◌, Bool, ◌&&◌, Option, none, some, List, [], ◌∷◌, ◌++◌, ltb,
  if◌then◌else◌, length, take, drop,
}
use libevfilter.Base.Text.{Text, codes, case_eq}
use libevfilter.Param.Defs.{Err, Result, done, failed}
use libevfilter.Param.Defs
use libevfilter.Param.Parse.{eat_spaces, skip_equals}
use libevfilter.FilterList.{filter_load}
use libevfilter.Config.Stream.{Io, ended, fault, unfinished, ◌>>=◌, feof, read_line}

-- `!strncasecmp(word, s, strlen(word))`.
abbrev pub begins_with : Text → Text → Bool
begins_with word s = case_eq word (take (length word) s)

abbrev pub filter_name : Text
filter_name = codes "FilterName"

abbrev pub end_filter : Text
end_filter = codes "EndFilter"

-- The name behind the word `FilterName`; one byte behind the word is passed over, whatever it is.
unfoldable pub name_of : Text → Text
name_of line = take 255 (eat_spaces (skip_equals (eat_spaces (drop 11 line))))

abbrev pub name_line : Text × Text → Option Text × Text
name_line (line, rest) =
    ((if begins_with filter_name line then some (name_of line) else none), rest)

-- `get_filter_name`; `none` is the result -1.
unfoldable pub get_filter_name : Text → Io (Option Text × Text)
get_filter_name s = read_line s >>= λ r. ended (name_line r)

-- A difference of two `size_t`, which wraps at 64 bits.
abbrev pub size_sub : ℕ → ℕ → ℕ
size_sub a b = if ltb a b then a + 2 ^ 64 - b else a - b

-- Has `buf`, of which `room` bytes are left, place for a line and its separator?
abbrev pub has_room : ℕ → Text → Bool
has_room room line = ltb 0 room && ltb (length line) (size_sub room 2)

-- The size of the array `params` of `evf_load_filters`.
abbrev pub params_size : ℕ
params_size = 4096

-- What a round of the loop of `get_filter_params` does with its line; `again` is the next round. The
-- line, its separator and a NUL are written behind `params`: `fault` if the array ends before.
unfoldable pub param_line :
    (Text → ℕ → Text → Io (Option Text × Text)) → Text → ℕ → Text × Text → Io (Option Text × Text)
param_line again params room (line, rest) =
    if case_eq line end_filter
    then ended (some params, rest)
    else if feof rest
    then ended (none, rest)
    else if has_room room line
    then (let more = again (params ++ (line ++ b' ' ∷ [])) (size_sub room (length line + 1)) rest in
        if ltb params_size (length params + length line + 2) then fault else more)
    else again params room rest

-- The loop, `params` being what it has written; `none` is the result -2.
unfoldable pub params_from : ℕ → Text → ℕ → Text → Io (Option Text × Text)
unfolding param_line
params_from zero params room s = unfinished
params_from (suc fuel) params room s = read_line s >>= param_line (params_from fuel) params room

-- `get_filter_params` into that array.
unfoldable pub get_filter_params : Text → Io (Option Text × Text)
unfolding params_from
get_filter_params s = params_from (suc (length s)) [] params_size s

-- The list of filters that is returned, or the error and the filters that are freed.
pub data Loaded (S : Type 0) : Type 0 where
  loaded : List S → Loaded S
  refused : Err → List S → Loaded S

module _ {S : Type 0} (evf_creat : List (Text → Result S)) where
  -- A round of the loop of `evf_load_filters` from its end to its beginning; `again` is the next
  -- round, and a filter is appended to the list.
  unfoldable pub filter_made :
      (List S → Text → Io (Loaded S)) → List S → Text → Result S → Io (Loaded S)
  filter_made again filters rest Defs.fault = fault
  filter_made again filters rest (failed e) = ended (refused e filters)
  filter_made again filters rest (done f) =
      if feof rest then ended (loaded (filters ++ f ∷ [])) else again (filters ++ f ∷ []) rest

  unfoldable pub params_read :
      (List S → Text → Io (Loaded S)) → List S → Text → Option Text × Text → Io (Loaded S)
  unfolding filter_made
  params_read again filters name (none, rest) = ended (refused Err.noparams filters)
  params_read again filters name (some params, rest) =
      filter_made again filters rest (filter_load evf_creat name params)

  unfoldable pub name_read :
      (List S → Text → Io (Loaded S)) → List S → Option Text × Text → Io (Loaded S)
  unfolding params_read
  name_read again filters (none, rest) =
      if feof rest then ended (loaded filters) else ended (refused Err.nofname filters)
  name_read again filters (some name, rest) =
      if feof rest
      then ended (loaded filters)
      else get_filter_params rest >>= params_read again filters name

  -- The loop of `evf_load_filters`, without the message behind it, which prints `filter_list`.
  unfoldable pub filters_from : ℕ → List S → Text → Io (Loaded S)
  unfolding name_read
  filters_from zero filters s = unfinished
  filters_from (suc fuel) filters s = get_filter_name s >>= name_read (filters_from fuel) filters

  -- `evf_load_filters` of a file that `fopen` has opened, and of one that it has not.
  unfoldable pub load_filters : (errno : ℕ) → Option Text → Io (Loaded S)
  unfolding filters_from
  load_filters errno none = ended (refused (Err.errno errno) [])
  load_filters errno (some s) = filters_from (suc (length s)) [] s

  -- `evf_load_filters_compose`, with what `fopen` finds at a path.
  unfoldable pub load_filters_compose :
      (errno : ℕ) → Bool → (Text → Option Text) → (path file : Text) → Io (Loaded S)
  unfolding load_filters
  load_filters_compose errno has_memory fopen path file =
      if has_memory
      then load_filters errno (fopen (path ++ file))
      else ended (refused (Err.errno errno) [])
