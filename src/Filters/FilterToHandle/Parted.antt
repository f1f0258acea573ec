-- ===== src/Filters/FilterToHandle/Parted.antt =====
-- Which way the events of src/filters/filter_to_handle.c take.
use libevfilter.Base.{
  select-append, ◌≡◌, refl, sym, ap, ◌∙◌, arith, Bool, true, false, not, ◌&&◌, some, List, [], ◌∷◌,
  ◌++◌, select, append_assoc, append-nil, Bool-cases, inl, inr,
}
use libevfilter.Base.Int.{ℤ, pos}
use libevfilter.Event.{Event, Next, nonzero}
use libevfilter.Handle.{Ptr}
use libevfilter.Filters.AtHandle.{Outs, to_line, to_handle, feed, feed-cons}
use libevfilter.Filters.FilterToHandle.{FilterToHandle, is_sync_event, is_chosen, modify}

-- The filter with lists of events behind it.
abbrev pub send : Ptr → Next Outs
send h = to_handle

-- The events that are no sync events, of the chosen type and code or not.
abbrev pub busy : Event → Bool
busy ev = not (is_sync_event ev)

abbrev pub stays : (type code : ℤ) → Event → Bool
stays type code ev = busy ev && not (is_chosen type code ev)

abbrev pub leaves : (type code : ℤ) → Event → Bool
leaves type code ev = busy ev && is_chosen type code ev

-- What the filter does with one event.
record Step (p : FilterToHandle) (ev : Event) (o : Outs) : Type 0 where
  after : FilterToHandle
  outs : Outs
  is : modify send to_line p ev o ≡ some (after, ev, outs)
  kept : ◌≡◌ {A = ℤ × ℤ} (after.type, after.code) (p.type, p.code)
  on_line : select busy outs.line ≡ select busy o.line ++ select (stays p.type p.code) (ev ∷ [])
  on_handle :
      select busy outs.handle ≡ select busy o.handle ++ select (leaves p.type p.code) (ev ∷ [])

-- A sync event counts on neither side, wherever it goes.
quiet :
    (xs : List Event) (ev : Event) (test : Event → Bool)
    → is_sync_event ev ≡ true
    → (select busy (xs ++ ev ∷ []) ≡ select busy xs ++ select (λ e. busy e && test e) (ev ∷ []))
      × (select busy xs ≡ select busy xs ++ select (λ e. busy e && test e) (ev ∷ []))
quiet xs ev test sync =
    (select-append busy xs (ev ∷ []) ∙ (rw sync refl), rw sync (sym (append-nil (select busy xs))))

sync-Step : (p : FilterToHandle) (ev : Event) (o : Outs) → is_sync_event ev ≡ true → Step p ev o
unfolding modify
sync-Step p ev o sync =
    let on_line = quiet o.line ev (λ e. not (is_chosen p.type p.code e)) sync in
    let on_handle = quiet o.handle ev (is_chosen p.type p.code) sync in
    elim (Bool-cases (nonzero p.sync_flag)) [
      | inl on ↦ elim (Bool-cases (nonzero p.ev_flag)) [
        | inl both ↦ record {
          after = p;
          outs = record { line = o.line ++ ev ∷ []; handle = o.handle ++ ev ∷ [] };
          is = rw (sync, on, both) refl;
          kept = refl;
          on_line = on_line.0;
          on_handle = on_handle.0;
        }
        | inr one ↦ record {
          after = p;
          outs = record o { handle = o.handle ++ ev ∷ [] };
          is = rw (sync, on, one) refl;
          kept = refl;
          on_line = on_line.1;
          on_handle = on_handle.0;
        }
      ]
      | inr off ↦ elim (Bool-cases (is_chosen p.type p.code ev)) [
        | inl chosen ↦ record {
          after = record p { sync_flag = pos 1; ev_flag = pos 0 };
          outs = record o { handle = o.handle ++ ev ∷ [] };
          is = rw (sync, off, chosen) refl;
          kept = refl;
          on_line = on_line.1;
          on_handle = on_handle.0;
        }
        | inr left ↦ record {
          after = record p { ev_flag = pos 1 };
          outs = record o { line = o.line ++ ev ∷ [] };
          is = rw (sync, off, left) refl;
          kept = refl;
          on_line = on_line.0;
          on_handle = on_handle.1;
        }
      ]
    ]

-- An event that is no sync event.
modify-leave :
    (p : FilterToHandle) (ev : Event) (o : Outs)
    → is_sync_event ev ≡ false
    → is_chosen p.type p.code ev ≡ true
    → modify send to_line p ev o
      ≡ some (
        record p { sync_flag = pos 1; ev_flag = pos 0 },
        ev,
        record o { handle = o.handle ++ ev ∷ [] },
      )
unfolding modify
modify-leave p ev o other chosen = rw (other, chosen) refl

modify-stay :
    (p : FilterToHandle) (ev : Event) (o : Outs)
    → is_sync_event ev ≡ false
    → is_chosen p.type p.code ev ≡ false
    → modify send to_line p ev o
      ≡ some (record p { ev_flag = pos 1 }, ev, record o { line = o.line ++ ev ∷ [] })
unfolding modify
modify-stay p ev o other left = rw (other, left) refl

-- A sync event behind one that has left.
modify-sync :
    (p : FilterToHandle) (ev : Event) (o : Outs)
    → is_sync_event ev ≡ true
    → nonzero p.sync_flag ≡ true
    → nonzero p.ev_flag ≡ false
    → modify send to_line p ev o ≡ some (p, ev, record o { handle = o.handle ++ ev ∷ [] })
unfolding modify
modify-sync p ev o sync on off = rw (sync, on, off) refl

step : (p : FilterToHandle) (ev : Event) (o : Outs) → Step p ev o
step p ev o = elim (Bool-cases (is_sync_event ev)) [
  | inl sync ↦ sync-Step p ev o sync
  | inr other ↦ elim (Bool-cases (is_chosen p.type p.code ev)) [
    | inl chosen ↦ record {
      after = record p { sync_flag = pos 1; ev_flag = pos 0 };
      outs = record o { handle = o.handle ++ ev ∷ [] };
      is = modify-leave p ev o other chosen;
      kept = refl;
      on_line = rw (other, chosen) (sym (append-nil (select busy o.line)));
      on_handle = select-append busy o.handle (ev ∷ []) ∙ (rw (other, chosen) refl);
    }
    | inr left ↦ record {
      after = record p { ev_flag = pos 1 };
      outs = record o { line = o.line ++ ev ∷ [] };
      is = modify-stay p ev o other left;
      kept = refl;
      on_line = select-append busy o.line (ev ∷ []) ∙ (rw (other, left) refl);
      on_handle = rw (other, left) (sym (append-nil (select busy o.handle)));
    }
  ]
]

-- What one event and those behind it add to a list.
added :
    (chosen : ℤ × ℤ → Event → Bool) (q q' : ℤ × ℤ) (a b c : List Event) (ev : Event)
    (evs : List Event)
    → q' ≡ q
    → b ≡ a ++ select (chosen q) (ev ∷ [])
    → c ≡ b ++ select (chosen q') evs
    → c ≡ a ++ select (chosen q) (ev ∷ evs)
added chosen q q' a b c ev evs kept first rest =
    rest
    ∙ ap (λ k. b ++ select (chosen k) evs) kept
    ∙ ap (λ xs. xs ++ select (chosen q) evs) first
    ∙ append_assoc a (select (chosen q) (ev ∷ [])) (select (chosen q) evs)
    ∙ ap (λ xs. a ++ xs) (sym (select-append (chosen q) (ev ∷ []) evs))

-- Whatever the flags hold at first, over any stream the filter does not fail, and of the events
-- that are no sync events exactly those of its type and code leave through the handle and all
-- others along the line, each once and in their order.
pub feed_parts :
    (evs : List Event) (p : FilterToHandle) (o : Outs)
    → (p' : FilterToHandle) × (o' : Outs) × (feed (modify send to_line) p evs o ≡ some (p', o'))
      × (select busy o'.line ≡ select busy o.line ++ select (stays p.type p.code) evs)
      × (select busy o'.handle ≡ select busy o.handle ++ select (leaves p.type p.code) evs)
unfolding feed
feed_parts [] p o =
    (p, o, refl, sym (append-nil (select busy o.line)), sym (append-nil (select busy o.handle)))
feed_parts (ev ∷ evs) p o =
    let s = step p ev o in
    let (p', o', run, on_line, on_handle) = feed_parts evs s.after s.outs in
    (
      p',
      o',
      feed-cons (modify send to_line) p ev evs o s.is run,
      added (λ q. stays q.0 q.1) (p.type, p.code) (s.after.type, s.after.code) (select busy o.line)
          (select busy s.outs.line) (select busy o'.line) ev evs s.kept s.on_line on_line,
      added (λ q. leaves q.0 q.1) (p.type, p.code) (s.after.type, s.after.code)
          (select busy o.handle) (select busy s.outs.handle) (select busy o'.handle) ev evs s.kept
          s.on_handle on_handle,
    )

-- An event that stays on the line loses its sync event, if one that leaves comes between them: the
-- sync event goes to the handle only.
pub sync_lost :
    (p : FilterToHandle) (ev₁ ev₂ sync : Event) (o : Outs)
    → stays p.type p.code ev₁ ≡ true
    → leaves p.type p.code ev₂ ≡ true
    → is_sync_event sync ≡ true
    → (p' : FilterToHandle) × (feed (modify send to_line) p (ev₁ ∷ ev₂ ∷ sync ∷ []) o
        ≡ some (
          p',
          record { line = o.line ++ ev₁ ∷ []; handle = (o.handle ++ ev₂ ∷ []) ++ sync ∷ [] },
        ))
unfolding feed
sync_lost p ev₁ ev₂ sync o h₁ h₂ h =
    let p₁ : FilterToHandle = record p { ev_flag = pos 1 } in
    let p₂ : FilterToHandle = record p { sync_flag = pos 1; ev_flag = pos 0 } in
    let o₁ : Outs = record o { line = o.line ++ ev₁ ∷ [] } in
    let o₂ : Outs = record o₁ { handle = o.handle ++ ev₂ ∷ [] } in
    (
      p₂,
      feed-cons (modify send to_line) p ev₁ (ev₂ ∷ sync ∷ []) o
          (modify-stay p ev₁ o (ground (arith, h₁)) (ground (arith, h₁)))
          (feed-cons (modify send to_line) p₁ ev₂ (sync ∷ []) o₁
            (modify-leave p₁ ev₂ o₁ (ground (arith, h₂)) (ground (arith, h₂)))
            (feed-cons (modify send to_line) p₂ sync [] o₂ (modify-sync p₂ sync o₂ h refl refl)
              refl)),
    )
