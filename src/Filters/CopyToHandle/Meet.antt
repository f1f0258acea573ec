-- ===== src/Filters/CopyToHandle/Meet.antt =====
-- Two lines that meet at a handle: src/filters/copy_to_handle.c, src/filters/get_from_handle.c and
-- src/evf_handle.c.
use libevfilter.Base.{
  ℕ, ◌≤◌, ◌≡◌, refl, ◌∙◌, true, ◌&&◌, ◌==◌, if◌then◌else◌, map, arith, Option, none, some, List, [],
  ◌∷◌, ◌++◌, length, take, append_assoc, append-nil,
}
use libevfilter.Base.Text.{Text}
use libevfilter.Event.{Event, Next}
use libevfilter.Handle.{Ptr, Store, handle_lookup, handle_send, create, attach, attached}
use libevfilter.Handle.Connect.{attach-create, create-attach}
use libevfilter.Filters.AtHandle.{Outs, to_line, feed, feed-cons}
use libevfilter.Filters.CopyToHandle.{CopyToHandle, modify, alloc}
use libevfilter.Filters.GetFromHandle.{GetFromHandle}
use libevfilter.Filters.GetFromHandle

-- The line behind the filter that gets the events: it takes each event down, in the list `handle`,
-- and leaves it changed by a function, as a filter does that writes to the event.
abbrev pub receive : (Event → Event) → Next Outs
receive alter ev o = some (alter ev, record o { handle = o.handle ++ (ev ∷ []) })

-- The call of a `modify` function at a filter: the one filter that can be called is `g`, which
-- lies at `self` and has the function `send`.
abbrev pub arrive :
    (self : Ptr) (send : ℕ)
    → GetFromHandle
    → (Event → Event)
    → (called : ℕ) → (at : Ptr) → Next Outs
arrive self send g alter called at ev o =
    if (called == send) && (at == self)
    then elim (GetFromHandle.modify (receive alter) g ev o) [
      | none ↦ none
      | some (_, ev', o') ↦ some (ev', o')
    ]
    else none

arrive-receive :
    (self : Ptr) (send : ℕ) (g : GetFromHandle) (alter : Event → Event) (ev : Event) (o : Outs)
    → arrive self send g alter send self ev o ≡ receive alter ev o
unfolding GetFromHandle.modify
arrive-receive self send g alter ev o =
    let called : (send == send) ≡ true = ground arith in
    let at : (self == self) ≡ true = ground arith in rw (called, at) refl

-- What both lines get: the copying filter's line gets each event as the other line has left it.
abbrev pub met : (Event → Event) → List Event → Outs → Outs
met alter evs o = record { line = o.line ++ map alter evs; handle = o.handle ++ evs }

modify-receive :
    (send : Ptr → Next Outs) (c : CopyToHandle) (alter : Event → Event) (ev : Event) (o : Outs)
    → send c.handle ev o ≡ receive alter ev o
    → modify send to_line c ev o ≡ some (c, alter ev, met alter (ev ∷ []) o)
unfolding modify
modify-receive send c alter ev o h = simp (modify, h)

feed_copies :
    (send : Ptr → Next Outs) (c : CopyToHandle) (alter : Event → Event)
    → ((ev : Event) (o : Outs) → send c.handle ev o ≡ receive alter ev o)
    → (evs : List Event) (o : Outs) → feed (modify send to_line) c evs o ≡ some (c, met alter evs o)
unfolding feed
feed_copies send c alter h [] o = rw (append-nil o.line, append-nil o.handle) refl
feed_copies send c alter h (ev ∷ evs) o =
    feed-cons (modify send to_line) c ev evs o (modify-receive send c alter ev o (h ev o)) (
      feed_copies send c alter h evs (met alter (ev ∷ []) o)
      ∙ (rw
          (append_assoc o.line (alter ev ∷ []) (map alter evs), append_assoc o.handle (ev ∷ []) evs)
          refl))

alloc-create :
    (mem : Option Ptr) (name : Text) (p : Ptr) (s s' : Store)
    → create mem name s ≡ some (some p, s')
    → alloc true mem name s ≡ some (some (record { handle = p; name = name }), s')
unfolding alloc
alloc-create mem name p s s' e = simp (alloc, e)

alloc-attach :
    (self : Ptr) (mem : Option Ptr) (send : ℕ) (name : Text) (s s' : Store)
    → attach mem name self send s ≡ some (attached, s')
    → GetFromHandle.alloc (some self) mem send name s
      ≡ some (some (record { name = take 63 name }), s')
unfolding GetFromHandle.alloc GetFromHandle.if_attached
alloc-attach self mem send name s s' e = simp (GetFromHandle.alloc, e)

module _ (p : Ptr) (mem : Option Ptr) (name : Text) (self : Ptr) (send : ℕ) (s : Store)
    (alter : Event → Event) (new : handle_lookup name s ≡ some none) (fits : length name ≤ 63) where
  abbrev getter : GetFromHandle
  getter = record { name = take 63 name }

  abbrev copier : CopyToHandle
  copier = record { handle = p; name = name }

  -- For a name of at most 63 bytes that no handle has, and memory for the filters and for one
  -- handle: if the filter that gets the events is made first and the one that copies them then,
  -- both are made, and every event of a stream arrives at that filter, by its own function and
  -- address, once each and in the stream's order, and then leaves along the copying filter's line,
  -- as the line that got it has left it.
  pub get_then_copy :
      (g : GetFromHandle) × (c : CopyToHandle) × (s₁ s₂ : Store) × (GetFromHandle.alloc
          (some self)
          (some p)
          send
          name
          s
        ≡ some (some g, s₁))
      × (alloc true mem name s₁ ≡ some (some c, s₂))
      × ((evs : List Event) (o : Outs)
          → feed (modify (handle_send (arrive self send g alter) s₂) to_line) c evs o
            ≡ some (c, met alter evs o))
  unfolding GetFromHandle.modify
  get_then_copy =
      let (s₁, s₂, made, found, sent) =
        attach-create (arrive self send getter alter) p mem name self send s new fits in
      (
        getter,
        copier,
        s₁,
        s₂,
        alloc-attach self (some p) send name s s₁ made,
        alloc-create mem name p s₁ s₂ found,
        feed_copies (handle_send (arrive self send getter alter) s₂) copier alter
            (λ ev o. sent ev o ∙ arrive-receive self send getter alter ev o),
      )

  -- For a name of at most 63 bytes that no handle has, and memory for the filters and for one
  -- handle: if the filter that copies the events is made first and the one that gets them then,
  -- both are made, and every event of a stream arrives at that filter, by its own function and
  -- address, once each and in the stream's order, and then leaves along the copying filter's line,
  -- as the line that got it has left it.
  pub copy_then_get :
      (g : GetFromHandle) × (c : CopyToHandle) × (s₁ s₂ : Store) × (alloc true (some p) name s
        ≡ some (some c, s₁))
      × (GetFromHandle.alloc (some self) mem send name s₁ ≡ some (some g, s₂))
      × ((evs : List Event) (o : Outs)
          → feed (modify (handle_send (arrive self send g alter) s₂) to_line) c evs o
            ≡ some (c, met alter evs o))
  unfolding GetFromHandle.modify
  copy_then_get =
      let (s₁, s₂, found, made, sent) =
        create-attach (arrive self send getter alter) p mem name self send s new fits in
      (
        getter,
        copier,
        s₁,
        s₂,
        alloc-create (some p) name p s s₁ found,
        alloc-attach self mem send name s₁ s₂ made,
        feed_copies (handle_send (arrive self send getter alter) s₂) copier alter
            (λ ev o. sent ev o ∙ arrive-receive self send getter alter ev o),
      )
