-- ===== src/Tests/Keys.antt =====
-- Searches for src/keyparser/key_parser.c.
use libevfilter.Base.{ℕ, ◌≡◌, arith, Option, some, List, [], ◌∷◌}
use libevfilter.Base.Text.{Text, codes}
use libevfilter.KeyParser.{search}
use libevfilter.KeyParser.Search.{IsFound, search_total}

abbrev three_keys : List Text
three_keys = codes "KEY_A" ∷ codes "KEY_B" ∷ codes "KEY_C" ∷ []

search_total_example :
    (r : Option ℕ) × (search (codes "KEY_D") three_keys ≡ some r)
    × IsFound (codes "KEY_D") three_keys r
search_total_example = search_total (codes "KEY_D") three_keys (omega arith)
