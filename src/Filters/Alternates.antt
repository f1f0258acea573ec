-- ===== src/Filters/Alternates.antt =====
-- Events that switch something on and off in turn.
use libevfilter.Base.{◌≡◌, sym, not, Bool, List, [], ◌∷◌, ◌++◌, if◌then◌else◌, subst}
use libevfilter.Base.Int.{pos}
use libevfilter.Event.{Event}

-- From the state `b` each event has the value of the other state, up to the state `c`.
abbrev pub Alternates : Bool → List Event → Bool → Type 0
Alternates b [] c = b ≡ c
Alternates b (ev ∷ evs) c = (ev.value ≡ (if b then pos 0 else pos 1)) × Alternates (not b) evs c

pub Alternates-append :
    (b : Bool) (xs ys : List Event) (c d : Bool)
    → Alternates b xs c
    → Alternates c ys d
    → Alternates b (xs ++ ys) d
Alternates-append b [] ys c d h k = subst (λ s. Alternates s ys d) (sym h) k
Alternates-append b (x ∷ xs) ys c d h k = (h.0, Alternates-append (not b) xs ys c d h.1 k)
