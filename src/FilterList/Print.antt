-- ===== src/FilterList/Print.antt =====
-- What src/evf_filter.c tells of filters: names, descriptions and the list of a line.
use libevfilter.Base.{ℕ, zero, suc, ◌≡◌, refl, Option, none, some, List, [], ◌∷◌, ◌++◌, length}
use libevfilter.Base.Text.{Text, codes}
use libevfilter.Msg.{evf_info}
use libevfilter.FilterList.{Ptr, Node}
use libevfilter.FilterList.Chain.{IsChain}

-- The members of `struct evf_filter` that are told; `status` is what that function stores in the
-- buffer, if there is one.
pub record Info : Type 0 where
  pub name : Text
  pub desc : Text
  pub status : Option Text

-- `evf_filter_get_name` and `evf_filter_get_desc`.
abbrev pub filter_get_name : Info → Text
filter_get_name f = f.name

abbrev pub filter_get_desc : Info → Text
filter_get_desc f = f.desc

-- A message of `evf_filters_print`: its type and its text.
abbrev pub told : Text → ℕ × Text
told t = (evf_info, codes " -> " ++ t)

abbrev pub line_of : Info → ℕ × Text
line_of f = elim f.status [ none ↦ told (filter_get_name f) | some t ↦ told t ]

-- The loop of `evf_filters_print` with the message behind it, from a filter on; `none` is an access
-- to memory that is not allocated or the end of the fuel.
unfoldable pub print_from : ℕ → Ptr → (Ptr → Option Node) → (Ptr → Info) → Option (List (ℕ × Text))
print_from zero p cell info = none
print_from (suc fuel) p cell info = elim (cell p) [
  | none ↦ none
  | some n ↦ elim n.next [
    | none ↦ some (told (filter_get_name (info p)) ∷ [])
    | some q ↦ elim (print_from fuel q cell info) [
      | none ↦ none
      | some ms ↦ some (line_of (info p) ∷ ms)
    ]
  ]
]

-- `evf_filters_print`: NULL is read through.
unfoldable pub filters_print :
    ℕ → Option Ptr → (Ptr → Option Node) → (Ptr → Info) → Option (List (ℕ × Text))
unfolding print_from
filters_print fuel none cell info = none
filters_print fuel (some p) cell info = print_from fuel p cell info

-- One message to each filter, of which the last does not tell its status.
abbrev pub lines_of : (Ptr → Info) → Ptr → List Ptr → List (ℕ × Text)
lines_of info p [] = told (info p).name ∷ []
lines_of info p (q ∷ ps) = line_of (info p) ∷ lines_of info q ps

-- From a filter of a list on, the messages are those of the filters behind it, in their order.
pub filters_print_lem :
    (p : Ptr) (ps : List Ptr) (cell : Ptr → Option Node) (info : Ptr → Info)
    → IsChain cell (some p) (p ∷ ps)
    → filters_print (length (p ∷ ps)) (some p) cell info ≡ some (lines_of info p ps)
unfolding filters_print print_from
filters_print_lem p [] cell info (e, (n, f, c)) = rw (f, c) refl
filters_print_lem p (q ∷ ps) cell info (e, (n, f, (e', c))) =
    let rest = filters_print_lem q ps cell info (refl, c) in rw (f, e', rest) refl
