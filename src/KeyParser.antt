-- ===== src/KeyParser.antt =====
-- src/keyparser/key_parser.c: keys by their names.
pub mod Table
pub mod Search
pub mod Lost
pub mod Named
pub mod Tool
use libevfilter.Base.{
  ℕ, zero, suc, ◌+◌, ◌/◌, Bool, true, false, ◌&&◌, Option, none, some, List, [], ◌∷◌, ◌==◌,
  if◌then◌else◌, length, get_elem?,
}
use libevfilter.Base.Int.{ℤ, pos, negsuc, ◌==ℤ◌}
use libevfilter.Base.Text.{Text, Order, below, same, above, strcasecmp}

-- The loop of `keyparser_getkey`: the index at which the name stands. The outer `none` is a read
-- behind the table or the end of the fuel, the inner one the code's -1.
unfoldable pub search_from : ℕ → Text → List Text → (left right : ℕ) → Option (Option ℕ)
search_from zero name names left right = none
search_from (suc fuel) name names left right =
    let mid = (left + right) / 2 in
    elim (get_elem? names mid) [
      | none ↦ none
      | some key ↦ elim (strcasecmp name key) [
        | same ↦ some (some mid)
        | above ↦
            let rest = search_from fuel name names mid right in
            if mid == left then some none else rest
        | below ↦
            let rest = search_from fuel name names left mid in
            if mid == right then some none else rest
      ]
    ]

-- Fuel for a table: each round that goes on takes at least one name away.
unfoldable pub search : Text → List Text → Option (Option ℕ)
unfolding search_from
search name names = search_from (length names + 1) name names 0 (length names)

-- `keyparser_getkey` over the names and the values of the table.
unfoldable pub getkey : List Text → List ℤ → Text → Option ℤ
unfolding search
getkey names values name = elim (search name names) [
  | none ↦ none
  | some none ↦ some (negsuc 0)
  | some (some i) ↦ get_elem? values i
]

-- `keyparser_getname`; the outer `none` is a read behind a table, the inner one NULL.
unfoldable pub getname : List Text → List ℤ → ℤ → Option (Option Text)
getname names [] key = some none
getname [] (v ∷ values) key = if v ==ℤ key then none else getname [] values key
getname (n ∷ names) (v ∷ values) key =
    let rest = getname names values key in if v ==ℤ key then some (some n) else rest
