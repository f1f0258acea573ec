-- ===== src/Line/CleanUp.antt =====
-- The ways out of the creation of a line: src/evf_line.c.
use libevfilter.Base.{
  ℕ, ◌≡◌, ◌⊎◌, inl, inr, refl, sym, ap, ◌∙◌, arith, Bool, true, false, Option, none, some, List, [],
  ◌∷◌, ◌++◌, ltb, if◌then◌else◌, length, append_assoc, append-nil, All, Bool-cases,
}
use libevfilter.Base.Text.{Text}
use libevfilter.Param.Defs.{Err}
use libevfilter.FilterList.{Ptr, Node, Memory}
use libevfilter.FilterList.Chain.{IsChain, IsChain-put, is_in, AreApart}
use libevfilter.FilterList.Freed.{free_from_total}
use libevfilter.Line.{
  World, Created, line_refused, close, free, free_all, new_filter, begin_of, open_input_device,
  give_up, build, create_filters, refuse, create_line, create,
}
use libevfilter.Line.Create.{line_of, setup, IsWanted, filters_last-chain, create_loaded-line}

abbrev pub to_list : Option Ptr → List Ptr
to_list none = []
to_list (some p) = p ∷ []

-- What `malloc` gave is none of the filters.
abbrev pub IsAway : Option Ptr → List Ptr → Type 0
IsAway o ps = All (λ a. is_in a ps ≡ false) (to_list o)

free-freed : (o : Option Ptr) (m : Memory) → (free o m).freed ≡ m.freed ++ to_list o
unfolding free
free-freed none m = sym (append-nil m.freed)
free-freed (some p) m = refl

free-IsChain :
    (o root : Option Ptr) (ps : List Ptr) (m : Memory)
    → IsAway o ps
    → IsChain m.cell root ps
    → IsChain (free o m).cell root ps
unfolding free
free-IsChain none root ps m h c = c
free-IsChain (some p) root ps m h c = IsChain-put m.cell p none root ps h.0 c

new_filter-freed : (o : Option Ptr) (n : Node) (m : Memory) → (new_filter o n m).freed ≡ m.freed
unfolding new_filter
new_filter-freed none n m = refl
new_filter-freed (some p) n m = refl

new_filter-IsChain :
    (o : Option Ptr) (n : Node) (root : Option Ptr) (ps : List Ptr) (m : Memory)
    → IsAway o ps
    → IsChain m.cell root ps
    → IsChain (new_filter o n m).cell root ps
unfolding new_filter
new_filter-IsChain none n root ps m h c = c
new_filter-IsChain (some p) n root ps m h c = IsChain-put m.cell p (some n) root ps h.0 c

free_all_lem :
    (ps : List Ptr) (m : Memory)
    → IsChain m.cell (begin_of ps) ps
    → AreApart ps
    → (m' : Memory) × (free_all (length ps) (begin_of ps) m ≡ some m') × (m'.freed ≡ m.freed ++ ps)
unfolding free_all
free_all_lem ps m c h =
    let (r, m', run, log) = free_from_total ps (begin_of ps) none m c h in
    (m', simp (free_all, run), log)

-- All of a line that was allocated, in the order in which it is freed.
abbrev pub held : List Ptr → (line commit barrier : Option Ptr) → List Ptr
held ps none c b = ps
held ps (some l) c b = to_list c ++ (to_list b ++ (ps ++ l ∷ []))

give_up_lem :
    (fd : ℕ) (input_device : Text) (l : Ptr) (c b : Option Ptr) (ps : List Ptr) (w : World)
    → IsAway c ps
    → IsAway b ps
    → IsChain w.memory.cell (begin_of ps) ps
    → AreApart ps
    → (m : Memory) × (give_up (length ps) l (line_of fd input_device (begin_of ps) ps) c b w
        ≡ some (close fd (record w { memory = m })))
      × (m.freed ≡ w.memory.freed ++ held ps (some l) c b)
unfolding give_up free
give_up_lem fd input_device l c b ps w hc hb chain h =
    let m₁ = free c w.memory in
    let m₂ = free b m₁ in
    let (m₃, run, log) =
      free_all_lem ps m₂
        (free-IsChain b (begin_of ps) ps m₁ hb (free-IsChain c (begin_of ps) ps w.memory hc chain))
        h in
    let all =
      log
      ∙ ap (λ f. f ++ ps) (free-freed b m₁ ∙ ap (λ f. f ++ to_list b) (free-freed c w.memory)) in
    (free (some l) m₃, simp (give_up, run), ap (λ f. f ++ l ∷ []) all ∙ simp append_assoc)

-- What the result of a creation is, when it is given up.
abbrev IsGivenUp :
    (fd errno : ℕ) (ps : List Ptr) (l c b : Option Ptr) → World → Option (Created × World) → Type 0
IsGivenUp fd errno ps l c b w r =
    (m : Memory) × (r ≡ some (line_refused (Err.errno errno), close fd (record w { memory = m })))
    × (m.freed ≡ w.memory.freed ++ held ps l c b)

build-IsGivenUp :
    (errno fd : ℕ) (input_device : Text) (barriers : Bool) (l : Ptr) (c b : Option Ptr)
    (ps : List Ptr) (w : World)
    → (c ≡ none) ⊎ ((barriers ≡ true) × (b ≡ none))
    → IsAway c ps
    → IsAway b ps
    → IsChain w.memory.cell (begin_of ps) ps
    → AreApart ps
    → IsGivenUp fd errno ps
        (some l)
        c
        b
        w
        (build (length ps) errno barriers l (line_of fd input_device (begin_of ps) ps) c b w)
unfolding build
build-IsGivenUp errno fd input_device barriers l none b ps w short hc hb chain h =
    let (m, run, log) = give_up_lem fd input_device l none b ps w hc hb chain h in
    (m, simp (build, run), log)
build-IsGivenUp errno fd input_device barriers l (some c) none ps w (inr (on, _)) hc hb chain h =
    let (m, run, log) = give_up_lem fd input_device l (some c) none ps w hc hb chain h in
    (m, simp (build, on, run), log)
build-IsGivenUp errno fd input_device barriers l (some c) none ps w (inl e) hc hb chain h =
    ground (arith, e)
build-IsGivenUp errno fd input_device barriers l (some c) (some b) ps w (inl e) hc hb chain h =
    ground (arith, e)
build-IsGivenUp errno fd input_device barriers l (some c) (some b) ps w (inr (_, e)) hc hb chain h =
    ground (arith, e)

-- The barrier's memory, if one is asked for.
abbrev pub barrier_of : (use_barriers : ℕ) → Option Ptr → Option Ptr
barrier_of u b = if ltb 0 u then b else none

still_short :
    {l : Ptr} (u : ℕ) (c b : Option Ptr)
    → (some l ≡ none) ⊎ ((c ≡ none) ⊎ ((ltb 0 u ≡ true) × (b ≡ none)))
    → (c ≡ none) ⊎ ((ltb 0 u ≡ true) × (barrier_of u b ≡ none))
still_short u c b (inl e) = ground (arith, e)
still_short u c b (inr (inl e)) = inl e
still_short u c b (inr (inr (on, e))) = inr (on, rw (on, e) refl)

-- If the memory for the line, for the commit filter or for a barrier that is asked for cannot be
-- had, `evf_line_create` gives the error, every filter of the profile and all that was allocated
-- is freed once each, and the descriptor is closed once.
pub create_frees :
    (fd errno : ℕ) (ps : List Ptr) (l b c : Option Ptr) (junk priv : Option Ptr)
    (input_device : Text) (u : ℕ) (even_empty : Bool) (w : World)
    → (l ≡ none) ⊎ ((c ≡ none) ⊎ ((ltb 0 u ≡ true) × (b ≡ none)))
    → IsAway c ps
    → IsAway b ps
    → IsChain w.memory.cell (begin_of ps) ps
    → AreApart ps
    → IsWanted even_empty ps
    → (m : Memory) × (create (setup fd errno ps l b c junk) input_device priv u even_empty w
        ≡ some (line_refused (Err.errno errno), close fd (record w { memory = m })))
      × (m.freed ≡ w.memory.freed ++ held ps l c (barrier_of u b))
unfolding create open_input_device create_line create_filters
create_frees fd errno ps none b c junk priv input_device u even_empty w short hc hb chain h wanted =
    let (m, run, log) = free_all_lem ps w.memory chain h in
    (
      m,
      create_loaded-line (setup fd errno ps none b c junk) input_device priv u even_empty fd ps w
            wanted
          ∙ ap (refuse errno fd w) run,
      log,
    )
create_frees fd errno ps (some l) b c junk priv input_device u even_empty w short hc hb chain h
      wanted =
    let s = setup fd errno ps (some l) b c junk in
    let nc : Node = record { free = some priv; next = none } in
    let nb : Node = record { free = none; next = junk } in
    let m₁ = new_filter c nc w.memory in
    let b' = barrier_of u b in
    let m₂ = new_filter b' nb m₁ in
    let hb' : IsAway b' ps = elim (Bool-cases (ltb 0 u)) [
      | inl on ↦ rw on hb
      | inr off ↦ rw off tt
    ] in
    let (m, run, log) =
      build-IsGivenUp errno fd input_device (ltb 0 u) l c b' ps (record w { memory = m₂ })
        (still_short u c b short) hc hb'
        (new_filter-IsChain b' nb (begin_of ps) ps m₁ hb'
          (new_filter-IsChain c nc (begin_of ps) ps w.memory hc chain))
        h in
    (
      m,
      create_loaded-line s input_device priv u even_empty fd ps w wanted
          ∙ ap (create_filters (length ps) s input_device priv u fd (begin_of ps) w l)
              (filters_last-chain ps w.memory chain)
          ∙ run,
      log
          ∙ ap (λ f. f ++ held ps (some l) c b')
              (new_filter-freed b' nb m₁ ∙ new_filter-freed c nc w.memory),
    )
