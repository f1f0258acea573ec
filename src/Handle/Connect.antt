-- ===== src/Handle/Connect.antt =====
-- Two filters that meet at a handle: src/evf_handle.c.
use libevfilter.Base.{
  take_all, ℕ, ◌+◌, ◌≤◌, ◌≡◌, refl, sym, subst, true, Option, none, some, List, ◌∷◌, arith, length,
  take,
}
use libevfilter.Base.Text.{Text, case_eq, case_eq_refl}
use libevfilter.Event.{Event, Next}
use libevfilter.Handle.{
  Ptr, Handle, Store, write, lookup_from, handle_lookup, create, attached, put_filter, attach,
  handle_send,
}

-- A handle at the head of the list is found by its name.
lookup_head :
    (s : Store) (p : Ptr) (rest : List Ptr) (h : Handle) (name : Text)
    → s.handles ≡ p ∷ rest
    → s.cell p ≡ some h
    → h.name ≡ name
    → handle_lookup name s ≡ some (some p)
unfolding handle_lookup
lookup_head s p rest h name l c n =
    rw (l, lookup_from)
      (ground (arith, subst (λ k. case_eq k name ≡ true) (sym n) (case_eq_refl name)))

create_found :
    (mem : Option Ptr) (name : Text) (s : Store) (p : Ptr) (h : Handle)
    → handle_lookup name s ≡ some (some p)
    → s.cell p ≡ some h
    → create mem name s ≡ some (some p, write p (some (record h { refcount = h.refcount + 1 })) s)
unfolding create
create_found mem name s p h l c = ground arith

attach_found :
    (mem : Option Ptr) (name : Text) (f : Ptr) (g : ℕ) (s : Store) (p : Ptr) (h : Handle)
    → handle_lookup name s ≡ some (some p)
    → s.cell p ≡ some h
    → h.filter ≡ none
    → attach mem name f g s ≡ some (attached, put_filter p h f g s)
unfolding attach
attach_found mem name f g s p h l c e = ground arith

-- What `handle_alloc` makes of a name that fits.
abbrev fresh_handle : Text → Handle
fresh_handle name = record { name = name; refcount = 0; filter = none; send = 0 }

abbrev with_head : Ptr → Handle → Store → Store
with_head p h s = record (write p (some h) s) { handles = p ∷ s.handles }

create_new :
    (p : Ptr) (name : Text) (s : Store)
    → handle_lookup name s ≡ some none
    → length name ≤ 63
    → (h : Handle) × (s₁ : Store) × (create (some p) name s ≡ some (some p, s₁))
      × (s₁.handles ≡ p ∷ s.handles)
      × (s₁.cell p ≡ some h)
      × (h.name ≡ name)
      × (h.filter ≡ none)
      × (h.refcount ≡ 1)
unfolding create
create_new p name s l k =
    let h : Handle = record { name = take 63 name; refcount = 1; filter = none; send = 0 } in
    (
      h,
      write p (some h) (with_head p (record h { refcount = 0 }) s),
      ground arith,
      refl,
      ground arith,
      take_all 63 name k,
      refl,
      refl,
    )

attach_new :
    (p : Ptr) (name : Text) (f : Ptr) (g : ℕ) (s : Store)
    → handle_lookup name s ≡ some none
    → length name ≤ 63
    → (h : Handle) × (s₁ : Store) × (attach (some p) name f g s ≡ some (attached, s₁))
      × (s₁.handles ≡ p ∷ s.handles)
      × (s₁.cell p ≡ some h)
      × (h.name ≡ name)
      × (h.filter ≡ some f)
      × (h.send ≡ g)
unfolding attach
attach_new p name f g s l k =
    let h : Handle = record { name = take 63 name; refcount = 0; filter = some f; send = g } in
    (
      h,
      put_filter p (record h { filter = none; send = 0 }) f g
          (with_head p (record h { filter = none; send = 0 }) s),
      ground arith,
      refl,
      ground arith,
      take_all 63 name k,
      refl,
      refl,
    )

module _ {D : Type 0} (call : ℕ → Ptr → Next D) (p : Ptr) (mem : Option Ptr) (name : Text) (f : Ptr)
    (g : ℕ) (s : Store) where
  send_lem :
      (t : Store) (h : Handle) (ev : Event) (d : D)
      → t.cell p ≡ some h
      → h.filter ≡ some f
      → h.send ≡ g
      → handle_send call t p ev d ≡ call g f ev d
  unfolding handle_send
  send_lem t h ev d c e k = ground arith

  -- For a name of at most 63 bytes that no handle has, and memory for one handle: if a filter is
  -- attached first and a sender connects then, the sender gets the handle that was made, with the
  -- sender counted, and each event that it sends reaches the filter's `send` function.
  pub attach-create :
      handle_lookup name s ≡ some none
      → length name ≤ 63
      → (s₁ s₂ : Store) × (attach (some p) name f g s ≡ some (attached, s₁))
        × (create mem name s₁ ≡ some (some p, s₂))
        × ((ev : Event) (d : D) → handle_send call s₂ p ev d ≡ call g f ev d)
  attach-create l k =
      let (h, s₁, e, hd, c, n, ef, eg) = attach_new p name f g s l k in
      let h' : Handle = record h { refcount = h.refcount + 1 } in
      let s₂ = write p (some h') s₁ in
      (
        s₁,
        s₂,
        e,
        create_found mem name s₁ p h (lookup_head s₁ p s.handles h name hd c n) c,
        λ ev d. send_lem s₂ h' ev d (ground arith) ef eg,
      )

  -- The other way round: for a name of at most 63 bytes that no handle has, and memory for one
  -- handle, a sender that connects first makes the handle, and its events reach the filter that is
  -- attached then. The order in which the two ends come does not matter.
  pub create-attach :
      handle_lookup name s ≡ some none
      → length name ≤ 63
      → (s₁ s₂ : Store) × (create (some p) name s ≡ some (some p, s₁))
        × (attach mem name f g s₁ ≡ some (attached, s₂))
        × ((ev : Event) (d : D) → handle_send call s₂ p ev d ≡ call g f ev d)
  create-attach l k =
      let (h, s₁, e, hd, c, n, ef, one) = create_new p name s l k in
      let h' : Handle = record h { filter = some f; send = g } in
      let s₂ = put_filter p h f g s₁ in
      (
        s₁,
        s₂,
        e,
        attach_found mem name f g s₁ p h (lookup_head s₁ p s.handles h name hd c n) c ef,
        λ ev d. send_lem s₂ h' ev d (ground arith) refl refl,
      )
