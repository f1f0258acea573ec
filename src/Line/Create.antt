-- ===== src/Line/Create.antt =====
-- Creating a line: src/evf_line.c.
use libevfilter.Base.{
  ℕ, ◌≡◌, ◌≢◌, ◌⊎◌, inl, inr, refl, sym, ap, subst, ◌∙◌, arith, Bool, true, false, Option, none,
  some, List, [], ◌∷◌, ◌++◌, ◌==◌, ltb, if◌then◌else◌, length, append_assoc, append-nil, All,
}
use libevfilter.Base.Text.{Text}
use libevfilter.FilterList.{Ptr, Node, Memory, put, filters_last}
use libevfilter.FilterList.Chain.{IsChain, IsChain-put, is_in, AreApart}
use libevfilter.FilterList.Attach.{Line, set_next}
use libevfilter.FilterList.Freed.{is_in-apart, last_of, last_from-chain, put_last}
use libevfilter.Config.Load.{loaded}
use libevfilter.Line.{
  Setup, World, line_made, new_filter, begin_of, open_input_device, put_behind, put_barrier,
  build_with, build, create_filters, create_line, create_loaded, create,
}

-- The last filter of a list that may be empty.
abbrev pub last_or_none : List Ptr → Option Ptr
last_or_none [] = none
last_or_none (p ∷ ps) = some (last_of p ps)

-- The filters that a list is created with: those of the profile, the barrier and the commit
-- filter.
abbrev pub own_filters : (use_barriers : ℕ) → List Ptr → (barrier commit : Ptr) → List Ptr
own_filters u ps b c = (ps ++ (if ltb 0 u then b ∷ [] else [])) ++ c ∷ []

-- The filters of the profile are a list in memory, and what `malloc` gives is not one of them.
pub record IsReady (m : Memory) (ps : List Ptr) (b c : Ptr) : Type 0 where
  pub chain : IsChain m.cell (begin_of ps) ps
  pub apart : AreApart ps
  pub fresh : All (λ a. is_in a (b ∷ c ∷ []) ≡ false) ps
  pub differ : (b == c) ≡ false

put_barrier-some :
    (line : Line) (b c : Ptr) (n : Node) (m : Memory)
    → m.cell b ≡ some n
    → put_barrier line b c m ≡ put_behind line b (set_next b n (some c) m)
unfolding put_barrier
put_barrier-some line b c n m e = simp (put_barrier, e)

module _ (fd : ℕ) (input_device : Text) where
  -- A line whose filters are `ps`, with `root` for its first one.
  abbrev pub line_of : Option Ptr → List Ptr → Line
  line_of root ps = record {
    begin = root;
    last = last_or_none ps;
    fd = fd;
    input_device = input_device;
  }

  -- A filter, with others behind it, is put behind the filters `ps`.
  pub put_behind_lem :
      (f : Ptr) (qs ps : List Ptr) (m : Memory)
      → IsChain m.cell (begin_of ps) ps
      → AreApart ps
      → IsChain m.cell (some f) qs
      → All (λ a. is_in a qs ≡ false) ps
      → (root : Option Ptr) × (m' : Memory) × (put_behind (line_of (begin_of ps) ps) f m
          ≡ some (line_of root ps, m'))
        × IsChain m'.cell root (ps ++ qs)
        × (m'.freed ≡ m.freed)
        × ((a : Ptr) → is_in a ps ≡ false → m'.cell a ≡ m.cell a)
  unfolding put_behind
  put_behind_lem f qs [] m c h cq d = (some f, m, refl, cq, refl, λ a k. refl)
  put_behind_lem f qs (p ∷ ps) m c h cq d =
      let (n, at, within, chain) = put_last m.cell p ps (some f) qs c h cq d in
      let e = last_of p ps in
      (some p, set_next e n (some f) m, rw at refl, chain, refl, λ a k. ground (arith, within, k))

  -- The barrier, with the commit filter behind it.
  pub put_barrier_lem :
      (b c : Ptr) (nb nc : Node) (ps : List Ptr) (m : Memory)
      → m.cell b ≡ some nb
      → m.cell c ≡ some nc
      → nc.next ≡ none
      → IsChain m.cell (begin_of ps) ps
      → AreApart ps
      → All (λ a. is_in a (b ∷ c ∷ []) ≡ false) ps
      → (b == c) ≡ false
      → (root : Option Ptr) × (m' : Memory) × (put_barrier (line_of (begin_of ps) ps) b c m
          ≡ some (line_of root ps, m'))
        × IsChain m'.cell root (ps ++ b ∷ c ∷ [])
        × (m'.freed ≡ m.freed)
        × (m'.cell c ≡ some nc)
  unfolding put_barrier
  put_barrier_lem b c nb nc ps m eb ec ends chain h d differ =
      let m₁ = set_next b nb (some c) m in
      let still : m₁.cell c ≡ some nc = ground (arith, ec, differ) in
      let away : is_in b ps ≡ false = is_in-apart b ps (b ∷ c ∷ []) d (ground arith) in
      let away' : is_in c ps ≡ false = is_in-apart c ps (b ∷ c ∷ []) d (ground arith) in
      let two : IsChain m₁.cell (some b) (b ∷ c ∷ []) =
        (refl, (record nb { next = some c }, ground arith, (refl, (nc, still, ends)))) in
      let (root, m', run, chain', log, same) =
        put_behind_lem b (b ∷ c ∷ []) ps m₁
          (IsChain-put m.cell b (some (record nb { next = some c })) (begin_of ps) ps away chain) h
          two d in
      (
        root,
        m',
        put_barrier-some (line_of (begin_of ps) ps) b c nb m eb ∙ run,
        chain',
        log,
        same c away' ∙ still,
      )

-- An input device that is opened, with the filters of its profile, and what `malloc` gives for the
-- line, the barrier and the commit filter.
abbrev pub setup :
    (fd errno : ℕ) → List Ptr → (line barrier commit : Option Ptr) → (junk : Option Ptr) → Setup
setup fd errno ps l b c junk = record {
  opened = some fd;
  is_input = true;
  errno = errno;
  profile = loaded ps;
  line_memory = l;
  commit_memory = c;
  barrier_memory = b;
  junk = junk;
}

-- Everything that the creation asks for is given.
abbrev pub working :
    (fd errno : ℕ) → List Ptr → (line barrier commit : Ptr) → (junk : Option Ptr) → Setup
working fd errno ps l b c junk = setup fd errno ps (some l) (some b) (some c) junk

-- The memory when the filters of a line are allocated.
abbrev pub commit_node : Option Ptr → Node
commit_node priv = record { free = some priv; next = none }

abbrev allocated : Bool → (b c : Ptr) (priv junk : Option Ptr) → Memory → Memory
allocated barriers b c priv junk m =
    new_filter (if barriers then some b else none) (record { free = none; next = junk })
      (new_filter (some c) (commit_node priv) m)

pub fresh_commit :
    (ps : List Ptr) (b c : Ptr)
    → All (λ a. is_in a (b ∷ c ∷ []) ≡ false) ps
    → All (λ a. is_in a (c ∷ []) ≡ false) ps
fresh_commit [] b c h = tt
fresh_commit (p ∷ ps) b c h = (ground (arith, h.0), fresh_commit ps b c h.1)

-- What is built of it.
built_lem :
    (fuel errno fd : ℕ) (input_device : Text) (barriers : Bool) (l b c : Ptr)
    (priv junk : Option Ptr) (ps : List Ptr) (w : World)
    → IsReady w.memory ps b c
    → (root : Option Ptr) × (m' : Memory) × (build fuel errno barriers l
          (line_of fd input_device (begin_of ps) ps)
          (some c)
          (if barriers then some b else none)
          (record w { memory = allocated barriers b c priv junk w.memory })
        ≡ some (line_made l (line_of fd input_device root ps), record w { memory = m' }))
      × IsChain m'.cell root ((ps ++ (if barriers then b ∷ [] else [])) ++ c ∷ [])
      × (m'.freed ≡ w.memory.freed)
      × (m'.cell c ≡ some (commit_node priv))
unfolding build new_filter
built_lem fuel errno fd input_device true l b c priv junk ps w r =
    let m = allocated true b c priv junk w.memory in
    let away : is_in b ps ≡ false = is_in-apart b ps (b ∷ c ∷ []) r.fresh (ground arith) in
    let away' : is_in c ps ≡ false = is_in-apart c ps (b ∷ c ∷ []) r.fresh (ground arith) in
    let chain =
      IsChain-put (put c (some (commit_node priv)) w.memory.cell) b
        (some (record { free = none; next = junk })) (begin_of ps) ps away
        (IsChain-put w.memory.cell c (some (commit_node priv)) (begin_of ps) ps away' r.chain) in
    let (root, m', run, chain', log, at) =
      put_barrier_lem fd input_device b c (record { free = none; next = junk }) (commit_node priv)
        ps m (ground arith) (ground (arith, r.differ)) refl chain r.apart r.fresh r.differ in
    (
      root,
      m',
      ap (build_with l (record w { memory = m })) run,
      subst (IsChain m'.cell root) (sym (append_assoc ps (b ∷ []) (c ∷ []))) chain',
      log,
      at,
    )
built_lem fuel errno fd input_device false l b c priv junk ps w r =
    let m = allocated false b c priv junk w.memory in
    let away : is_in c ps ≡ false = is_in-apart c ps (b ∷ c ∷ []) r.fresh (ground arith) in
    let chain =
      IsChain-put w.memory.cell c (some (commit_node priv)) (begin_of ps) ps away r.chain in
    let alone : IsChain m.cell (some c) (c ∷ []) = (refl, (commit_node priv, ground arith, refl)) in
    let (root, m', run, chain', log, same) =
      put_behind_lem fd input_device c (c ∷ []) ps m chain r.apart alone
        (fresh_commit ps b c r.fresh) in
    (
      root,
      m',
      ap (build_with l (record w { memory = m })) run,
      subst (λ qs. IsChain m'.cell root (qs ++ c ∷ [])) (sym (append-nil ps)) chain',
      log,
      same c away ∙ ground arith,
    )

pub filters_last-chain :
    (ps : List Ptr) (m : Memory)
    → IsChain m.cell (begin_of ps) ps
    → filters_last (length ps) (begin_of ps) m ≡ some (last_or_none ps)
unfolding filters_last
filters_last-chain [] m c = refl
filters_last-chain (p ∷ ps) m c = rw (last_from-chain m.cell p ps c) refl

-- Is a list made, when it may have no filter of its own?
abbrev pub IsWanted : Bool → List Ptr → Type 0
IsWanted even_empty ps = (even_empty ≡ true) ⊎ (ps ≢ [])

pub create_loaded-line :
    (s : Setup) (input_device : Text) (priv : Option Ptr) (u : ℕ) (even_empty : Bool) (fd : ℕ)
    (ps : List Ptr) (w : World)
    → IsWanted even_empty ps
    → create_loaded s input_device priv u even_empty fd (loaded ps) w
      ≡ create_line (length ps) s input_device priv u fd (begin_of ps) w
unfolding create_loaded
create_loaded-line s input_device priv u even_empty fd [] w (inl yes_even) = rw yes_even refl
create_loaded-line s input_device priv u even_empty fd [] w (inr nonempty) = absurd (nonempty refl)
create_loaded-line s input_device priv u even_empty fd (p ∷ ps) w h = refl

-- With all that it asks for, and the filters of the profile as a list in memory, `evf_line_create`
-- gives a line of these filters in their order, then the barrier, if there is one, and then the
-- commit filter; `end` is the last filter of the profile, and nothing is freed or closed.
pub create_links :
    (fd errno : ℕ) (ps : List Ptr) (l b c : Ptr) (junk priv : Option Ptr) (input_device : Text)
    (u : ℕ) (even_empty : Bool) (w : World)
    → IsReady w.memory ps b c
    → IsWanted even_empty ps
    → (root : Option Ptr) × (m' : Memory) × (create
          (working fd errno ps l b c junk)
          input_device
          priv
          u
          even_empty
          w
        ≡ some (line_made l (line_of fd input_device root ps), record w { memory = m' }))
      × IsChain m'.cell root (own_filters u ps b c)
      × (m'.freed ≡ w.memory.freed)
      × (m'.cell c ≡ some (commit_node priv))
unfolding create open_input_device create_line create_filters
create_links fd errno ps l b c junk priv input_device u even_empty w r h =
    let s = working fd errno ps l b c junk in
    let (root, m', run, chain, log, at) =
      built_lem (length ps) errno fd input_device (ltb 0 u) l b c priv junk ps w r in
    (
      root,
      m',
      create_loaded-line s input_device priv u even_empty fd ps w h
          ∙ ap (create_filters (length ps) s input_device priv u fd (begin_of ps) w l)
              (filters_last-chain ps w.memory r.chain)
          ∙ run,
      chain,
      log,
      at,
    )
