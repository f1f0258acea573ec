-- ===== src/Config/Printed.antt =====
-- A configuration file is read as what it was printed from: src/evf_loader.c.
use libevfilter.Base.{
  take_all, ℕ, zero, suc, ◌<◌, ◌≤◌, ◌≡◌, refl, ap, ◌∙◌, arith, true, false, none, some, List, [],
  ◌∷◌, ◌++◌, if◌then◌else◌, length, All, take, length-append,
}
use libevfilter.Base.Text.{Text, case_eq, case_eq_refl}
use libevfilter.Param.Defs.{Err, Result, done, failed}
use libevfilter.Param.Defs
use libevfilter.Param.Parse.{eat_spaces, skip_equals}
use libevfilter.FilterList.{filter_load}
use libevfilter.Config.Stream.{Io, ended, fault, ◌>>=◌, is_newline}
use libevfilter.Config.Lines.{read_line-nil, IsLine, StartsDark, read_line-line, eat_spaces-dark}
use libevfilter.Config.Load.{
  begins_with, filter_name, end_filter, name_of, name_line, get_filter_name, get_filter_params,
  Loaded, loaded, refused, name_read, params_read, filter_made, filters_from, load_filters,
}
use libevfilter.Config.Sections.{
  Section, print_lines, print_file, join, StartsName, IsSection, print_lines-dark, feof-print_lines,
  get_filter_params-print,
}

length-le-print_lines : (ls : List Text) (rest : Text) → length rest ≤ length (print_lines ls rest)
length-le-print_lines [] rest = omega arith
length-le-print_lines (l ∷ ls) rest =
    omega (arith, length-le-print_lines ls rest, length-append l (b'\n' ∷ print_lines ls rest))

skip_equals-name : (name : Text) → StartsName name → skip_equals name ≡ name
unfolding skip_equals
skip_equals-name [] h = absurd h
skip_equals-name (c ∷ s) h = rw h.1 refl

StartsName-dark : (name : Text) → StartsName name → StartsDark name
StartsName-dark [] h = absurd h
StartsName-dark (c ∷ s) h = h.0

name_of-print :
    (name : Text)
    → StartsName name
    → length name < 256
    → name_of (filter_name ++ (b'=' ∷ name)) ≡ name
unfolding name_of
name_of-print name h short =
    let dark = eat_spaces-dark name (StartsName-dark name h) in
    ap (λ t. take 255 (eat_spaces (skip_equals t))) dark
    ∙ ap (λ t. take 255 (eat_spaces t)) (skip_equals-name name h)
    ∙ ap (take 255) dark
    ∙ take_all 255 name (omega arith)

name-IsLine :
    (name : Text)
    → All (λ b. is_newline b ≡ false) name
    → length name < 256
    → IsLine (filter_name ++ (b'=' ∷ name))
name-IsLine name flat short = (
  refl,
  refl,
  (refl, (refl, (refl, (refl, (refl, (refl, (refl, (refl, (refl, (refl, (refl, flat))))))))))),
  omega arith,
)

begins_with-print : (name : Text) → begins_with filter_name (filter_name ++ (b'=' ∷ name)) ≡ true
begins_with-print name = case_eq_refl filter_name

get_filter_name-print :
    (name rest : Text)
    → StartsName name
    → All (λ b. is_newline b ≡ false) name
    → length name < 256
    → StartsDark rest
    → get_filter_name ((filter_name ++ (b'=' ∷ name)) ++ (b'\n' ∷ rest)) ≡ ended (some name, rest)
unfolding get_filter_name
get_filter_name-print name rest h flat short d =
    let line = filter_name ++ (b'=' ∷ name) in
    ap (λ r. r >>= λ p. ended (name_line p))
      (read_line-line line rest (name-IsLine name flat short) d)
    ∙ ap (λ b. ended ((if b then some (name_of line) else none), rest)) (begins_with-print name)
    ∙ ap (λ t. ended (some t, rest)) (name_of-print name h short)

module _ {S : Type 0} (evf_creat : List (Text → Result S)) where
  -- A filter that is made is appended to the list, and the first that is not ends it.
  abbrev keep : List S → (List S → Io (Loaded S)) → Result S → Io (Loaded S)
  keep filters more Defs.fault = fault
  keep filters more (failed e) = ended (refused e filters)
  keep filters more (done f) = more (filters ++ f ∷ [])

  -- The filters of the sections, one after the other.
  unfoldable pub load_each : List Section → List S → Io (Loaded S)
  load_each [] filters = ended (loaded filters)
  load_each (f ∷ fs) filters =
      keep filters (load_each fs) (filter_load evf_creat f.name (join f.params))

  print_file-dark : (fs : List Section) → StartsDark (print_file fs)
  print_file-dark [] = tt
  print_file-dark (f ∷ fs) = refl

  length-print_file : (fs : List Section) → length fs ≤ length (print_file fs)
  length-print_file [] = omega arith
  length-print_file (f ∷ fs) =
      let rest = print_file fs in
      let tail = end_filter ++ (b'\n' ∷ rest) in
      omega (
        arith,
        length-print_file fs,
        length-le-print_lines f.params tail,
        length-append f.name (b'\n' ∷ print_lines f.params tail),
      )

  filter_made-keep :
      (fs : List Section) (again : List S → Text → Io (Loaded S)) (filters : List S) (r : Result S)
      → ((filters' : List S) → again filters' (print_file fs) ≡ load_each fs filters')
      → filter_made evf_creat again filters (print_file fs) r ≡ keep filters (load_each fs) r
  unfolding filter_made load_each
  filter_made-keep fs again filters Defs.fault h = refl
  filter_made-keep fs again filters (failed e) h = refl
  filter_made-keep [] again filters (done x) h = refl
  filter_made-keep (f ∷ fs) again filters (done x) h = h (filters ++ x ∷ [])

  filters_from-print :
      (fs : List Section) (fuel : ℕ) (filters : List S)
      → All IsSection fs
      → length fs < fuel
      → filters_from evf_creat fuel filters (print_file fs) ≡ load_each fs filters
  unfolding filters_from load_each get_filter_name case_eq
  filters_from-print fs zero filters h f = absurd (omega arith)
  filters_from-print [] (suc fuel) filters h f =
      ap
        (λ r.
          (r >>= λ p. ended (name_line p))
          >>= name_read evf_creat (filters_from evf_creat fuel) filters)
        read_line-nil
  filters_from-print (s ∷ fs) (suc fuel) filters (v, h) f =
      let rest = print_file fs in
      let params = print_lines s.params (end_filter ++ (b'\n' ∷ rest)) in
      let again = filters_from evf_creat fuel in
      ap (λ r. r >>= name_read evf_creat again filters)
        (get_filter_name-print s.name params v.starts v.flat v.name_short
          (print_lines-dark s.params (end_filter ++ (b'\n' ∷ rest)) v.lines refl))
      ∙ ap
          (λ b.
            if b
            then ended (loaded filters)
            else get_filter_params params >>= params_read evf_creat again filters s.name)
          (feof-print_lines s.params (end_filter ++ (b'\n' ∷ rest)) refl)
      ∙ ap (λ r. r >>= params_read evf_creat again filters s.name)
          (get_filter_params-print s.params rest v.lines v.params_short (print_file-dark fs))
      ∙ filter_made-keep fs again filters (filter_load evf_creat s.name (join s.params))
          (λ filters'. filters_from-print fs fuel filters' h (omega arith))

  -- A file that is printed from sections with names of at most 255 bytes, at most 4093 bytes of
  -- parameters and lines of at most 4095 gives the filters that `evf_filter_load` makes of them,
  -- in their order, each from its name and its lines with a blank behind each; the first section
  -- that it refuses gives its error, and the filters in front of it are freed.
  pub load_filters-print :
      (errno : ℕ) (fs : List Section)
      → All IsSection fs
      → load_filters evf_creat errno (some (print_file fs)) ≡ load_each fs []
  unfolding load_filters
  load_filters-print errno fs h =
      filters_from-print fs (suc (length (print_file fs))) [] h
        (omega (arith, length-print_file fs))
