-- ===== src/Event/Compose.antt =====
-- A line of filters as a composition: how `modify` calls of src/evf_struct.h nest.
use libevfilter.Base.{
  ◌≡◌, refl, sym, ap, ◌∙◌, Option, none, some, List, [], ◌∷◌, ◌++◌, append_assoc,
}
use libevfilter.Event.{Event, Next, Modify}

-- What is done with a result, if there is one.
abbrev pub bind : {A B : Type 0} → Option A → (A → Option B) → Option B
bind none k = none
bind (some a) k = k a

-- Events in turn, of which the changes are not used.
unfoldable pub send_all : {D : Type 0} → Next D → List Event → D → Option D
send_all next [] d = some d
send_all next (ev ∷ evs) d = bind (next ev d) (λ r. send_all next evs r.1)

-- What a filter does with an event, apart from what stands behind it: its data and the events that
-- it sends.
abbrev pub Step : Type 0 → Type 0
Step S = S → Event → S × List Event

abbrev pub settled : {S D : Type 0} → Option (S × Event × D) → Option (S × D)
settled none = none
settled (some (s, _, d)) = some (s, d)

abbrev pub with_data : {S D : Type 0} → S → Option D → Option (S × D)
with_data s none = none
with_data s (some d) = some (s, d)

-- A filter that does no more than send the events of a step, whatever stands behind it.
pub record Stage : Type 1 where
  pub own : Type 0
  pub modify : {D : Type 0} → Next D → Modify own D
  pub step : Step own
  pub sends :
      {D : Type 0} (next : Next D) (s : own) (ev : Event) (d : D)
      → settled (modify next s ev d) ≡ with_data (step s ev).0 (send_all next (step s ev).1 d)

abbrev pub States : List Stage → Type 0
States [] = Unit
States (f ∷ fs) = f.own × States fs

-- A filter's data beside the state of what is behind it.
abbrev pub nested : {S T D : Type 0} → Option (S × Event × (T × D)) → Option (Event × ((S × T) × D))
nested none = none
nested (some (s, ev, (t, d))) = some (ev, ((s, t), d))

abbrev pub alone : {D : Type 0} → Option (Event × D) → Option (Event × (Unit {0} × D))
alone none = none
alone (some (ev, d)) = some (ev, (tt, d))

-- A line: each filter has the next one behind it, and the last one has `next`.
unfoldable pub line_of : {D : Type 0} (fs : List Stage) → Next D → Next (States fs × D)
line_of [] next ev (t, d) = alone (next ev d)
line_of (f ∷ fs) next ev ((s, t), d) = nested (f.modify (line_of fs next) s ev (t, d))

-- A step over a list of events: the data that is left, and all that is sent.
unfoldable pub steps : {S : Type 0} → Step S → S → List Event → S × List Event
steps step s [] = (s, [])
steps step s (ev ∷ evs) =
    let (s', out) = step s ev in let (s'', outs) = steps step s' evs in (s'', out ++ outs)

-- The filters one after the other, each over the whole list that the one in front of it has sent.
unfoldable pub in_turn : (fs : List Stage) → States fs → List Event → States fs × List Event
unfolding steps
in_turn [] t evs = (t, evs)
in_turn (f ∷ fs) (s, t) evs =
    let (s', out) = steps f.step s evs in let (t', out') = in_turn fs t out in ((s', t'), out')

bind_assoc :
    {A B C : Type 0} (o : Option A) (f : A → Option B) (g : B → Option C)
    → bind (bind o f) g ≡ bind o (λ a. bind (f a) g)
bind_assoc none f g = refl
bind_assoc (some a) f g = refl

bind-ext :
    {A B : Type 0} (o : Option A) (f g : A → Option B) → ((a : A) → f a ≡ g a) → bind o f ≡ bind o g
bind-ext none f g h = refl
bind-ext (some a) f g h = h a

send_all-append :
    {D : Type 0} (next : Next D) (xs ys : List Event) (d : D)
    → send_all next (xs ++ ys) d ≡ bind (send_all next xs d) (λ d'. send_all next ys d')
unfolding send_all
send_all-append next [] ys d = refl
send_all-append next (ev ∷ xs) ys d =
    bind-ext (next ev d) _ _ (λ r. send_all-append next xs ys r.1)
    ∙ sym (bind_assoc (next ev d) (λ r. send_all next xs r.1) (λ d'. send_all next ys d'))

steps-append :
    {S : Type 0} (step : Step S) (s : S) (xs ys : List Event)
    → steps step s (xs ++ ys) ≡ (
      (steps step (steps step s xs).0 ys).0,
      (steps step s xs).1 ++ (steps step (steps step s xs).0 ys).1,
    )
unfolding steps
steps-append step s [] ys = refl
steps-append step s (ev ∷ xs) ys =
    let (s', out) = step s ev in
    ap (λ r. (r.0, out ++ r.1)) (steps-append step s' xs ys)
    ∙ ap (λ t. ((steps step (steps step s' xs).0 ys).0, t)) (sym (append_assoc out _ _))

in_turn-append :
    (fs : List Stage) (t : States fs) (xs ys : List Event)
    → in_turn fs t (xs ++ ys) ≡ (
      (in_turn fs (in_turn fs t xs).0 ys).0,
      (in_turn fs t xs).1 ++ (in_turn fs (in_turn fs t xs).0 ys).1,
    )
unfolding in_turn
in_turn-append [] t xs ys = refl
in_turn-append (f ∷ fs) (s, t) xs ys =
    let (s', out) = steps f.step s xs in
    let (s'', out') = steps f.step s' ys in
    ap (λ r. ((r.0, (in_turn fs t r.1).0), (in_turn fs t r.1).1)) (steps-append f.step s xs ys)
    ∙ ap (λ r. ((s'', r.0), r.1)) (in_turn-append fs t out out')

in_turn-nil : (fs : List Stage) (t : States fs) → in_turn fs t [] ≡ (t, [])
unfolding in_turn
in_turn-nil [] t = refl
in_turn-nil (f ∷ fs) (s, t) = ap (λ r. ((s, r.0), r.1)) (in_turn-nil fs t)

module _ {D : Type 0} (next : Next D) where
  -- The state behind a line when the filters have had all events.
  abbrev pub settled_line : (fs : List Stage) → States fs → List Event → D → Option (States fs × D)
  settled_line fs t evs d = with_data (in_turn fs t evs).0 (send_all next (in_turn fs t evs).1 d)

  bind-nested :
      {S T E : Type 0} (o : Option (S × Event × (T × D))) (k : (S × T) × D → Option E)
      → bind (nested o) (λ r. k r.1) ≡ bind (settled o) (λ r. k ((r.0, r.1.0), r.1.1))
  bind-nested none k = refl
  bind-nested (some (s, ev, (t, d))) k = refl

  bind-with_data :
      {S T E : Type 0} (s : S) (t : T) (o : Option D) (k : S × (T × D) → Option E)
      → bind (with_data s (with_data t o)) k ≡ bind o (λ d. k (s, (t, d)))
  bind-with_data s t none k = refl
  bind-with_data s t (some d) k = refl

  with_data-bind :
      {S : Type 0} (s : S) (o : Option D) (k : D → Option D)
      → with_data s (bind o k) ≡ bind o (λ d. with_data s (k d))
  with_data-bind s none k = refl
  with_data-bind s (some d) k = refl

  with_data-next :
      {S : Type 0} (s : S) (o : Option (Event × D)) (k : D → Option D)
      → with_data s (bind o (λ r. k r.1)) ≡ bind o (λ r. with_data s (k r.1))
  with_data-next s none k = refl
  with_data-next s (some (ev, d)) k = refl

  bind-alone :
      {E : Type 0} (t : Unit {0}) (o : Option (Event × D)) (k : Unit {0} × D → Option E)
      → bind (alone o) (λ r. k r.1) ≡ bind o (λ r. k (t, r.1))
  bind-alone t none k = refl
  bind-alone t (some (ev, d)) k = refl

  line_of_nil :
      (evs : List Event) (t : Unit {0}) (d : D)
      → send_all (line_of [] next) evs (t, d) ≡ with_data t (send_all next evs d)
  unfolding send_all line_of
  line_of_nil [] t d = refl
  line_of_nil (ev ∷ evs) t d =
      bind-alone t (next ev d) (λ r. send_all (line_of [] next) evs r)
      ∙ bind-ext (next ev d) _ _ (λ r. line_of_nil evs t r.1)
      ∙ sym (with_data-next t (next ev d) (λ d. send_all next evs d))

  line_of_cons :
      (f : Stage) (fs : List Stage)
      → ((evs : List Event) (t : States fs) (d : D)
          → send_all (line_of fs next) evs (t, d) ≡ settled_line fs t evs d)
      → (evs : List Event) (s : f.own) (t : States fs) (d : D)
      → send_all (line_of (f ∷ fs) next) evs ((s, t), d) ≡ settled_line (f ∷ fs) (s, t) evs d
  unfolding send_all line_of in_turn steps
  line_of_cons f fs ih [] s t d =
      ap (λ r. with_data r.0 (send_all next r.1 d)) (sym (in_turn-nil (f ∷ fs) (s, t)))
  line_of_cons f fs ih (ev ∷ evs) s t d =
      let (s', out) = f.step s ev in
      let (t', out') = in_turn fs t out in
      let (u, outs) = in_turn (f ∷ fs) (s', t') evs in
      let go : f.own × (States fs × D) → Option (States (f ∷ fs) × D) =
        (λ r. send_all (line_of (f ∷ fs) next) evs ((r.0, r.1.0), r.1.1)) in
      bind-nested (f.modify (line_of fs next) s ev (t, d))
        (λ r. send_all (line_of (f ∷ fs) next) evs r)
      ∙ ap (λ o. bind o go) (f.sends (line_of fs next) s ev (t, d))
      ∙ ap (λ o. bind (with_data s' o) go) (ih out t d)
      ∙ bind-with_data s' t' (send_all next out' d) go
      ∙ bind-ext (send_all next out' d) _ _ (λ d'. line_of_cons f fs ih evs s' t' d')
      ∙ sym (with_data-bind u (send_all next out' d) (λ d'. send_all next outs d'))
      ∙ ap (with_data u) (sym (send_all-append next out' outs d))
      ∙ sym (
          ap (λ r. with_data ((steps f.step s' evs).0, r.0) (send_all next r.1 d))
            (in_turn-append fs t out (steps f.step s' evs).1))

  -- Whatever stands behind a line of filters that send the events of their steps, the line leaves
  -- what is left when each filter has been run over the whole stream that the filter in front of
  -- it has sent, and the events of the last one are sent on.
  pub line_in_turn :
      (fs : List Stage) (evs : List Event) (t : States fs) (d : D)
      → send_all (line_of fs next) evs (t, d) ≡ settled_line fs t evs d
  unfolding in_turn
  line_in_turn [] evs t d = line_of_nil evs t d
  line_in_turn (f ∷ fs) evs (s, t) d = line_of_cons f fs (line_in_turn fs) evs s t d
