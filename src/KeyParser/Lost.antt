-- ===== src/KeyParser/Lost.antt =====
-- Names of src/keyparser/keys.h that `keyparser_getkey` does not find, since the table is not
-- sorted as strcasecmp sorts.
use libevfilter.Base.{ℕ, suc, ◌≡◌, refl, true, false, none, some, List, [], ◌∷◌, ◌==◌, map}
use libevfilter.Base.Text.{Text, codes, strcasecmp}
use libevfilter.KeyParser.{search}
use libevfilter.KeyParser.Table.{key_names}

-- The names from index `i` on that the search does not find at their index.
abbrev pub lost_from : List Text → ℕ → List Text → List Text
lost_from names i [] = []
lost_from names i (n ∷ rest) =
    let later = lost_from names (suc i) rest in
    elim (search n names) [
      | none ↦ n ∷ later
      | some none ↦ n ∷ later
      | some (some j) ↦ elim (j == i) [ true ↦ later | false ↦ n ∷ later ]
    ]

-- Of the 418 names of the table, `keyparser_getkey` finds each at its own index, but for five
-- names that it does not find there although the table has them.
pub lost_names :
    lost_from key_names 0 key_names
    ≡ map codes (
        "Key_Brightness_Zero" ∷ "Key_Deletefile" ∷ "Key_Del_Line" ∷ "Key_Ins_Line"
        ∷ "Key_Videophone" ∷ [])
unfolding search strcasecmp
lost_names = refl
