-- ===== src/Handle.antt =====
-- src/evf_handle.c: named handles, which carry events from one filter line to another.
-- The list behind the static variable `handles` is modelled with the memory that its nodes lie in,
-- since a filter keeps a pointer to its handle.
pub mod Connect
pub mod Faults
use libevfilter.Base.{
  ℕ, ◌+◌, ◌-◌, Bool, true, false, Option, none, some, List, [], ◌∷◌, ltb, ◌==◌, if◌then◌else◌, take,
}
use libevfilter.Base.Text.{Text, case_eq}
use libevfilter.Event.{Event, Next}

abbrev pub Ptr : Type 0
Ptr = ℕ

-- `struct evf_handle`. A filter is known by its address, and `send` by a number.
pub record Handle : Type 0 where
  pub name : Text
  pub refcount : ℕ
  pub filter : Option Ptr
  pub send : ℕ

-- The allocated handles, and the list `handles` from its head on.
pub record Store : Type 0 where
  pub cell : Ptr → Option Handle
  pub handles : List Ptr

abbrev pub handle_max : ℕ
handle_max = 64

abbrev pub write : Ptr → Option Handle → Store → Store
write p h s = record s { cell = λ a. if a == p then h else s.cell a }

-- `handle_alloc` with what `malloc` returns; the name is cut to 63 bytes.
unfoldable pub handle_alloc : Option Ptr → Text → Store → Option Ptr × Store
handle_alloc none name s = (none, s)
handle_alloc (some p) name s =
    let h : Handle = record { name = take 63 name; refcount = 0; filter = none; send = 0 } in
    (some p, record (write p (some h) s) { handles = p ∷ s.handles })

-- `handle_free` walks to the node in front of `self`: the list from the second node on.
unfoldable pub unlink : Ptr → List Ptr → List Ptr
unlink self [] = []
unlink self (a ∷ []) = a ∷ []
unlink self (a ∷ b ∷ rest) = if b == self then a ∷ rest else a ∷ unlink self (b ∷ rest)

-- Does a node stand in front of `self`?
unfoldable pub has_front : Ptr → List Ptr → Bool
has_front self [] = false
has_front self (a ∷ []) = false
has_front self (a ∷ b ∷ rest) = if b == self then true else has_front self (b ∷ rest)

-- If that node is the head, `handles` is set to what stands behind `self`.
unfoldable pub unlink_root : Ptr → List Ptr → List Ptr
unfolding unlink
unlink_root self [] = []
unlink_root self (a ∷ []) = a ∷ []
unlink_root self (a ∷ b ∷ rest) = if b == self then rest else a ∷ unlink self (b ∷ rest)

-- `handle_free`.
unfoldable pub handle_free : Ptr → Store → Store
unfolding has_front unlink_root
handle_free self s =
    if has_front self s.handles
    then record (write self none s) { handles = unlink_root self s.handles }
    else s

-- `handle_lookup`; the outer `none` is a read of freed memory.
unfoldable pub lookup_from : Text → (Ptr → Option Handle) → List Ptr → Option (Option Ptr)
lookup_from name cell [] = some none
lookup_from name cell (p ∷ rest) = elim (cell p) [
  | none ↦ none
  | some h ↦
      let later = lookup_from name cell rest in if case_eq h.name name then some (some p) else later
]

unfoldable pub handle_lookup : Text → Store → Option (Option Ptr)
unfolding lookup_from
handle_lookup name s = lookup_from name s.cell s.handles

-- `h->refcount++`; `int` cannot overflow, since each step is one filter in memory.
unfoldable pub retain : Ptr → Store → Option Store
retain p s = elim (s.cell p) [
  | none ↦ none
  | some h ↦ some (write p (some (record h { refcount = h.refcount + 1 })) s)
]

-- `evf_handle_create` with what `malloc` would return.
unfoldable pub create : Option Ptr → Text → Store → Option (Option Ptr × Store)
unfolding handle_lookup retain handle_alloc
create mem name s = elim (handle_lookup name s) [
  | none ↦ none
  | some (some p) ↦ elim (retain p s) [ none ↦ none | some s' ↦ some (some p, s') ]
  | some none ↦
      let (made, s') = handle_alloc mem name s in
      elim made [
        | none ↦ some (none, s')
        | some p ↦ elim (retain p s') [ none ↦ none | some s'' ↦ some (some p, s'') ]
      ]
]

-- `evf_handle_destroy`.
unfoldable pub destroy : Ptr → Store → Option Store
unfolding handle_free
destroy p s = elim (s.cell p) [
  | none ↦ none
  | some h ↦
      if ltb 1 h.refcount
      then some (write p (some (record h { refcount = h.refcount - 1 })) s)
      else elim h.filter [ none ↦ some (handle_free p s) | some f ↦ some s ]
]

-- `evf_handle_detach`.
unfoldable pub detach : Text → Store → Option Store
unfolding handle_lookup handle_free
detach name s = elim (handle_lookup name s) [
  | none ↦ none
  | some none ↦ some s
  | some (some p) ↦ elim (s.cell p) [
    | none ↦ none
    | some h ↦
        if ltb 0 h.refcount
        then some (write p (some (record h { filter = none })) s)
        else some (handle_free p s)
  ]
]

-- The result of `evf_handle_attach`: 0, 1 without memory, and 2 with the filter that is attached
-- already.
pub data Attached : Type 0 where
  attached : Attached
  no_memory : Attached
  taken : Ptr → Attached

abbrev pub put_filter : Ptr → Handle → (filter : Ptr) → (send : ℕ) → Store → Store
put_filter p h f g s = write p (some (record h { filter = some f; send = g })) s

-- `evf_handle_attach`.
unfoldable pub attach :
    Option Ptr → Text → (filter : Ptr) → (send : ℕ) → Store → Option (Attached × Store)
unfolding handle_lookup handle_alloc
attach mem name f g s = elim (handle_lookup name s) [
  | none ↦ none
  | some none ↦
      let (made, s') = handle_alloc mem name s in
      elim made [
        | none ↦ some (no_memory, s')
        | some p ↦ elim (s'.cell p) [
          | none ↦ none
          | some h ↦ some (attached, put_filter p h f g s')
        ]
      ]
  | some (some p) ↦ elim (s.cell p) [
    | none ↦ none
    | some h ↦ elim h.filter [
      | none ↦ some (attached, put_filter p h f g s)
      | some old ↦ some (taken old, s)
    ]
  ]
]

-- `evf_handle_send`: `call` is the call of a `send` function at a filter.
unfoldable pub handle_send :
    {D : Type 0} → (ℕ → Ptr → Next D) → Store → Ptr → Event → D → Option (Event × D)
handle_send call s p ev d = elim (s.cell p) [
  | none ↦ none
  | some h ↦ elim h.filter [ none ↦ some (ev, d) | some f ↦ call h.send f ev d ]
]
