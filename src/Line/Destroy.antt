-- ===== src/Line/Destroy.antt =====
-- A line that is created and destroyed: src/evf_line.c.
use libevfilter.Base.{
  ℕ, ◌≡◌, refl, sym, ap, subst, ◌∙◌, arith, Bool, true, false, Option, none, some, List, [], ◌∷◌,
  ◌++◌, ltb, if◌then◌else◌, length, append_assoc, append-nil,
}
use libevfilter.Base.Text.{Text}
use libevfilter.FilterList.{Ptr, Memory, free_from, filters_free}
use libevfilter.FilterList.Chain.{AreApart}
use libevfilter.FilterList.Attach.{Line}
use libevfilter.FilterList.Freed.{AreApart-append, free_from-value}
use libevfilter.Line.{World, line_made, close, free, open_input_device, create, destroy}
use libevfilter.Line.Create.{
  own_filters, IsReady, line_of, working, commit_node, fresh_commit, IsWanted, create_links,
}

own_filters-AreApart :
    (barriers : Bool) (ps : List Ptr) (b c : Ptr) (w : World)
    → IsReady w.memory ps b c
    → AreApart ((ps ++ (if barriers then b ∷ [] else [])) ++ c ∷ [])
own_filters-AreApart true ps b c w r =
    subst AreApart (sym (append_assoc ps (b ∷ []) (c ∷ [])))
      (AreApart-append ps (b ∷ c ∷ []) r.apart (ground (arith, r.differ)) r.fresh)
own_filters-AreApart false ps b c w r =
    subst (λ qs. AreApart (qs ++ c ∷ [])) (sym (append-nil ps))
      (AreApart-append ps (c ∷ []) r.apart (refl, tt) (fresh_commit ps b c r.fresh))

pub destroy-some :
    (fuel : ℕ) (l : Ptr) (line : Line) (w : World) (v : Option Ptr) (m : Memory)
    → free_from fuel line.begin none w.memory ≡ some (some v, m)
    → destroy fuel l line w ≡ some (v, close line.fd (record w { memory = free (some l) m }))
unfolding destroy filters_free
destroy-some fuel l line w v m e = simp (destroy, filters_free, e)

-- A line that is created with all that it asks for and destroyed gives the `priv` of its creation
-- back; its filters, in their order, and then the line are freed once each, and the descriptor is
-- closed once.
pub create-destroy :
    (fd errno : ℕ) (ps : List Ptr) (l b c : Ptr) (junk priv : Option Ptr) (input_device : Text)
    (u : ℕ) (even_empty : Bool) (w : World)
    → IsReady w.memory ps b c
    → IsWanted even_empty ps
    → (line : Line) × (w₁ w₂ : World) × (create
          (working fd errno ps l b c junk)
          input_device
          priv
          u
          even_empty
          w
        ≡ some (line_made l line, w₁))
      × (destroy (length (own_filters u ps b c)) l line w₁ ≡ some (priv, w₂))
      × (w₂.memory.freed ≡ w.memory.freed ++ (own_filters u ps b c ++ l ∷ []))
      × (w₂.closed ≡ w.closed ++ fd ∷ [])
unfolding free
create-destroy fd errno ps l b c junk priv input_device u even_empty w r h =
    let (root, m, run, chain, log, at) =
      create_links fd errno ps l b c junk priv input_device u even_empty w r h in
    let front = ps ++ (if ltb 0 u then b ∷ [] else []) in
    let (m', frees, log') =
      free_from-value front c root none m (commit_node priv) priv chain
        (own_filters-AreApart (ltb 0 u) ps b c w r) at refl in
    (
      line_of fd input_device root ps,
      record w { memory = m },
      close fd (record w { memory = free (some l) m' }),
      run,
      destroy-some (length (front ++ c ∷ [])) l (line_of fd input_device root ps)
          (record w { memory = m }) priv m' frees,
      ap (λ f. f ++ l ∷ []) (log' ∙ ap (λ f. f ++ (front ++ c ∷ [])) log)
          ∙ append_assoc w.memory.freed (front ++ c ∷ []) (l ∷ []),
      refl,
    )

-- A descriptor that is not that of an input device is closed and used all the same: with all else
-- given the line is made with it, and when the line is destroyed it is closed once more.
pub closed_twice :
    (fd errno : ℕ) (ps : List Ptr) (l b c : Ptr) (junk priv : Option Ptr) (input_device : Text)
    (u : ℕ) (even_empty : Bool) (w : World)
    → IsReady w.memory ps b c
    → IsWanted even_empty ps
    → (line : Line) × (w₁ w₂ : World) × (create
          (record (working fd errno ps l b c junk) { is_input = false })
          input_device
          priv
          u
          even_empty
          w
        ≡ some (line_made l line, w₁))
      × (destroy (length (own_filters u ps b c)) l line w₁ ≡ some (priv, w₂))
      × (w₂.closed ≡ w.closed ++ fd ∷ fd ∷ [])
unfolding create open_input_device
closed_twice fd errno ps l b c junk priv input_device u even_empty w r h =
    let (line, w₁, w₂, made, gone, _, closed) =
      create-destroy fd errno ps l b c junk priv input_device u even_empty (close fd w) r h in
    (line, w₁, w₂, made, gone, closed ∙ append_assoc w.closed (fd ∷ []) (fd ∷ []))
