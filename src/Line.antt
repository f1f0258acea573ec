-- ===== src/Line.antt =====
-- src/evf_line.c: a device with the line of filters that its events go through. The list of the
-- filters is that of src/evf_filter.c, with its memory.
pub mod Create
pub mod Destroy
pub mod CleanUp
use libevfilter.Base.{
  ℕ, zero, suc, Bool, true, false, not, ◌&&◌, Option, none, some, List, [], ◌∷◌, ◌++◌, ltb,
  if◌then◌else◌, length,
}
use libevfilter.Base.Int.{ℤ, pos, negsuc}
use libevfilter.Base.Text.{Text}
use libevfilter.Event.{Event, Next}
use libevfilter.Param.Defs.{Err}
use libevfilter.FilterList.{Ptr, Node, Memory, put, free_from, filters_free, filters_last}
use libevfilter.FilterList.Attach.{Line, set_next}
use libevfilter.Config.Load.{Loaded, loaded, refused}

-- What the calls of the kernel and of `malloc` give: `opened` is none if `open` fails, `is_input`
-- says whether the descriptor is that of an input device, and `profile` is the result of
-- `evf_load_system_profile`, with a filter for its address. `junk` lies in the memory of the
-- barrier, whose member `next` is not set by its allocation.
pub record Setup : Type 0 where
  pub opened : Option ℕ
  pub is_input : Bool
  pub errno : ℕ
  pub profile : Loaded Ptr
  pub line_memory : Option Ptr
  pub commit_memory : Option Ptr
  pub barrier_memory : Option Ptr
  pub junk : Option Ptr

-- The memory of the filters, all that `free` was called with, and all that was closed.
pub record World : Type 0 where
  pub memory : Memory
  pub closed : List ℕ

-- The results of `evf_line_create`: a line, NULL without an error, and NULL with one.
pub data Created : Type 0 where
  line_made : Ptr → Line → Created
  no_line : Created
  line_refused : Err → Created

abbrev pub close : ℕ → World → World
close fd w = record w { closed = w.closed ++ (fd ∷ []) }

-- `free` of memory without what the filter has in it.
unfoldable pub free : Option Ptr → Memory → Memory
free none m = m
free (some p) m = record { cell = put p none m.cell; freed = m.freed ++ (p ∷ []) }

-- `evf_filters_free` whose result is not used.
unfoldable pub free_all : ℕ → Option Ptr → Memory → Option Memory
free_all fuel root m = elim (free_from fuel root none m) [ none ↦ none | some (_, m') ↦ some m' ]

-- A filter that is allocated.
unfoldable pub new_filter : Option Ptr → Node → Memory → Memory
new_filter none n m = m
new_filter (some p) n m = record m { cell = put p (some n) m.cell }

abbrev pub begin_of : List Ptr → Option Ptr
begin_of [] = none
begin_of (p ∷ ps) = some p

-- `open_input_device`: a descriptor that is closed because it is no input device is returned.
unfoldable pub open_input_device : Setup → World → Option ℕ × World
open_input_device s w = elim s.opened [
  | none ↦ (none, w)
  | some fd ↦ (some fd, (if s.is_input then w else close fd w))
]

-- The barrier, or the commit filter if there is none, is put behind the last filter of the line.
unfoldable pub put_behind : Line → Ptr → Memory → Option (Line × Memory)
put_behind line filter m = elim line.begin [
  | none ↦ some (record line { begin = some filter }, m)
  | some b ↦ elim line.last [
    | none ↦ none
    | some e ↦ elim (m.cell e) [ none ↦ none | some n ↦ some (line, set_next e n (some filter) m) ]
  ]
]

-- `fbarrier->next = fcommit` and what follows on it.
unfoldable pub put_barrier : Line → (barrier commit : Ptr) → Memory → Option (Line × Memory)
unfolding put_behind
put_barrier line b c m = elim (m.cell b) [
  | none ↦ none
  | some n ↦ put_behind line b (set_next b n (some c) m)
]

-- The way out when a filter cannot be allocated.
unfoldable pub give_up : ℕ → Ptr → Line → (commit barrier : Option Ptr) → World → Option World
unfolding free free_all
give_up fuel l line c b w = elim (free_all fuel line.begin (free b (free c w.memory))) [
  | none ↦ none
  | some m ↦ some (close line.fd (record w { memory = free (some l) m }))
]

abbrev pub build_with : Ptr → World → Option (Line × Memory) → Option (Created × World)
build_with l w none = none
build_with l w (some (line, m)) = some (line_made l line, record w { memory = m })

-- `evf_line_create` behind the allocations; `barrier` is none without `use_barriers`.
unfoldable pub build :
    (fuel errno : ℕ) (use_barriers : Bool)
    → Ptr
    → Line
    → (commit barrier : Option Ptr) → World
    → Option (Created × World)
unfolding give_up put_barrier put_behind
build fuel errno use_barriers l line (some c) (some b) w =
    build_with l w
      (if use_barriers then put_barrier line b c w.memory else put_behind line c w.memory)
build fuel errno use_barriers l line (some c) none w =
    if use_barriers
    then elim (give_up fuel l line (some c) none w) [
      | none ↦ none
      | some w' ↦ some (line_refused (Err.errno errno), w')
    ]
    else build_with l w (put_behind line c w.memory)
build fuel errno use_barriers l line none b w = elim (give_up fuel l line none b w) [
  | none ↦ none
  | some w' ↦ some (line_refused (Err.errno errno), w')
]

-- From `evf_filters_last` on, with its result.
unfoldable pub create_filters :
    ℕ
    → Setup
    → Text
    → (priv : Option Ptr) (use_barriers : ℕ) (fd : ℕ) → Option Ptr
    → World
    → Ptr
    → Option (Option Ptr)
    → Option (Created × World)
unfolding new_filter build
create_filters fuel s input_device priv use_barriers fd begin w l none = none
create_filters fuel s input_device priv use_barriers fd begin w l (some last) =
    let line : Line = record { begin = begin; last = last; fd = fd; input_device = input_device } in
    let barriers = ltb 0 use_barriers in
    let m = new_filter s.commit_memory (record { free = some priv; next = none }) w.memory in
    let barrier = if barriers then s.barrier_memory else none in
    let m' = new_filter barrier (record { free = none; next = s.junk }) m in
    build fuel s.errno barriers l line s.commit_memory barrier (record w { memory = m' })

-- The way out without memory for the line, when the filters are freed.
abbrev pub refuse : (errno fd : ℕ) → World → Option Memory → Option (Created × World)
refuse errno fd w none = none
refuse errno fd w (some m) =
    some (line_refused (Err.errno errno), close fd (record w { memory = m }))

-- From the allocation of the line on: `fuel` has a round for each filter that is loaded.
unfoldable pub create_line :
    ℕ
    → Setup
    → Text
    → (priv : Option Ptr) (use_barriers : ℕ) (fd : ℕ) → Option Ptr
    → World
    → Option (Created × World)
unfolding free_all create_filters
create_line fuel s input_device priv use_barriers fd begin w = elim s.line_memory [
  | none ↦ refuse s.errno fd w (free_all fuel begin w.memory)
  | some l ↦
      create_filters fuel s input_device priv use_barriers fd begin w l
        (filters_last fuel begin w.memory)
]

-- From the profile on.
unfoldable pub create_loaded :
    Setup
    → Text
    → (priv : Option Ptr) (use_barriers : ℕ) (even_empty : Bool) (fd : ℕ) → Loaded Ptr
    → World
    → Option (Created × World)
unfolding create_line
create_loaded s input_device priv use_barriers even_empty fd (refused e freed) w =
    some (line_refused e, close fd w)
create_loaded s input_device priv use_barriers even_empty fd (loaded []) w =
    if not even_empty
    then some (no_line, close fd w)
    else create_line 0 s input_device priv use_barriers fd none w
create_loaded s input_device priv use_barriers even_empty fd (loaded (p ∷ ps)) w =
    create_line (length (p ∷ ps)) s input_device priv use_barriers fd (some p) w

-- `evf_line_create`; `none` is an access to memory that is not allocated.
unfoldable pub create :
    Setup
    → Text
    → (priv : Option Ptr) (use_barriers : ℕ) (even_empty : Bool) → World
    → Option (Created × World)
unfolding open_input_device create_loaded
create s input_device priv use_barriers even_empty w =
    let (opened, w') = open_input_device s w in
    elim opened [
      | none ↦ some (line_refused (Err.errno s.errno), w')
      | some fd ↦ create_loaded s input_device priv use_barriers even_empty fd s.profile w'
    ]

-- `evf_line_destroy`, with what it returns.
unfoldable pub destroy : ℕ → Ptr → Line → World → Option (Option Ptr × World)
unfolding free
destroy fuel l line w = elim (filters_free fuel line.begin w.memory) [
  | none ↦ none
  | some (priv, m) ↦ some (priv, close line.fd (record w { memory = free (some l) m }))
]

-- What `read` gives: an event, or the error that it sets.
pub data Read : Type 0 where
  event : Event → Read
  gone : Read
  again : Read
  broken : Read

-- `evf_line_process`; `junk` is what lies in the variable for the event, and without data it is
-- what the filters get.
unfoldable pub process : {D : Type 0} → Next D → (junk : Event) → Read → D → Option (ℤ × D)
process begin junk (event ev) d = elim (begin ev d) [
  | none ↦ none
  | some (_, d') ↦ some (pos 0, d')
]
process begin junk gone d = some (negsuc 0, d)
process begin junk again d = elim (begin junk d) [ none ↦ none | some (_, d') ↦ some (pos 0, d') ]
process begin junk broken d = some (negsuc 0, d)
