-- ===== src/Filters/Dump/Strays.antt =====
-- What the filter of src/filters/dump.c sends and writes.
use libevfilter.Base.{
  ℕ, ◌≡◌, ◌≢◌, refl, sym, ap, subst, ◌∙◌, arith, Bool, true, false, Option, none, some, List, [],
  ◌∷◌, ◌++◌, ltb, ◌==◌, if◌then◌else◌, All, Bool-cases, inl, inr, append_assoc, append-nil,
}
use libevfilter.Base.Text.{Text, codes}
use libevfilter.Event.{Event, Next, ev_key, ev_rel, ev_abs}
use libevfilter.Param.Defs.{File}
use libevfilter.Input.{
  name_in, name_in-known, get_elem?-some, type_names, rel_names, ev_rel_cnt, abs_names, ev_abs_cnt,
}
use libevfilter.Input.Print.{
  Output, Printing, type_line, print_type, print_code, print_key, print_rel, print_abs, print_rest,
  code_line, key_lines, and_value, type_lines, both, input_print,
}
use libevfilter.Filters.Dump.{Dump, dumped, modify}
use libevfilter.Filters.AtHandle.{feed, feed-cons}

-- What reaches the standard output.
abbrev pub on_stdout : Output → Text
on_stdout [] = []
on_stdout ((File.stdout, t) ∷ out) = t ++ on_stdout out
on_stdout ((_, t) ∷ out) = on_stdout out

on_stdout-append : (a b : Output) → on_stdout (a ++ b) ≡ on_stdout a ++ on_stdout b
on_stdout-append [] b = refl
on_stdout-append ((File.stdout, t) ∷ a) b =
    ap (λ u. t ++ u) (on_stdout-append a b) ∙ sym (append_assoc t (on_stdout a) (on_stdout b))
on_stdout-append ((File.stderr, t) ∷ a) b = on_stdout-append a b
on_stdout-append ((File.opened path, t) ∷ a) b = on_stdout-append a b

-- An output that is there, with a text on the standard output.
abbrev Prints : Text → Option Output → Type 0
Prints t o = (out : Output) × (o ≡ some out) × (on_stdout out ≡ t)

Prints-if :
    (t : Text) (b : Bool) (x y : Option Output)
    → (b ≡ true → Prints t x)
    → (b ≡ false → Prints t y)
    → Prints t (if b then x else y)
Prints-if t true x y h k = h refl
Prints-if t false x y h k = k refl

-- The filter with a list of events behind it, and all that is written.
abbrev pub Behind : Type 0
Behind = Output × List Event

abbrev pub record_event : Next Behind
record_event ev (out, evs) = some (ev, (out, evs ++ (ev ∷ [])))

abbrev pub write_out : Output → Behind → Behind
write_out out (out', evs) = (out' ++ out, evs)

abbrev pub dump_to : Text → Text → Dump
dump_to path prefix = record { f = File.opened path; prefix = prefix }

-- What is written of each event in front of its type.
abbrev pub label : Text → Text
label prefix = prefix ++ codes "ev->type:  "

abbrev pub labels : Text → List Event → Text
labels prefix [] = []
labels prefix (ev ∷ evs) = label prefix ++ labels prefix evs

module _ (p : Printing) (path prefix : Text) where
  abbrev file : File
  file = File.opened path

  code_line-Prints :
      (ev : Event) (o : Option Text) → o ≢ none → Prints [] (code_line p file prefix ev o)
  code_line-Prints ev none known = absurd (known refl)
  code_line-Prints ev (some name) known = (_, refl, refl)

  print_code-Prints :
      (bound : ℕ) (names : List Text) (ev : Event)
      → name_in bound names ev.code ≢ none
      → Prints [] (print_code p bound names file prefix ev)
  unfolding print_code
  print_code-Prints bound names ev known = code_line-Prints ev (name_in bound names ev.code) known

  and_value-Prints :
      (ev : Event) (o : Option Output) → Prints [] o → Prints [] (and_value p file prefix ev o)
  and_value-Prints ev o (out, e, t) =
      subst (λ o. Prints [] (and_value p file prefix ev o)) (sym e)
        (_, refl, on_stdout-append out _ ∙ append-nil (on_stdout out) ∙ t)

  -- An event that can be told: its type is not 12, and if it is a key, then its code has a name.
  abbrev pub IsTellable : Event → Type 0
  IsTellable ev = (ev.type ≢ 12) × (ev.type ≡ ev_key → p.getname ev.code ≢ none)

  key_lines-Prints :
      (ev : Event) (o : Option Text) → o ≢ none → Prints [] (key_lines p file prefix ev o)
  key_lines-Prints ev none named = absurd (named refl)
  key_lines-Prints ev (some name) named = (_, refl, refl)

  print_rest-Prints :
      (ev : Event)
      → (ev.type ≡ ev_key → p.getname ev.code ≢ none)
      → Prints [] (print_rest p file prefix ev)
  unfolding print_rest print_key print_rel print_abs
  print_rest-Prints ev named =
      Prints-if [] (ev.type == ev_key) _ _
        (λ key. key_lines-Prints ev (p.getname ev.code) (named (ground (arith, key))))
        (λ _.
          Prints-if [] (ev.type == ev_rel) _ _
            (λ _. and_value-Prints ev _ (
              print_code-Prints ev_rel_cnt rel_names ev
                (name_in-known ev_rel_cnt rel_names ev.code (omega arith))))
            (λ _.
              Prints-if [] (ev.type == ev_abs) _ _
                (λ _.
                  print_code-Prints ev_abs_cnt abs_names ev
                    (name_in-known ev_abs_cnt abs_names ev.code (omega arith)))
                (λ _. ([], refl, refl))))

  type_line-known : (n : ℕ) → n ≢ 12 → type_line p n ≢ none
  unfolding type_line
  type_line-known n other e = elim (Bool-cases (ltb n 13)) [
    | inl low ↦ get_elem?-some type_names n (ground (arith, low, other)) (ground (arith, low, e))
    | inr high ↦ ground (arith, high, e)
  ]

  type_lines-Prints :
      (o : Option Text) → o ≢ none → Prints (label prefix) (type_lines p file prefix o)
  type_lines-Prints none known = absurd (known refl)
  type_lines-Prints (some line) known = (_, refl, append-nil (label prefix))

  both-Prints :
      (a b : Option Output)
      → Prints (label prefix) a
      → Prints [] b
      → Prints (label prefix) (both p a b)
  both-Prints a b (x, e, t) (y, f, u) =
      subst (λ a. Prints (label prefix) (both p a b)) (sym e)
        (subst (λ b. Prints (label prefix) (both p (some x) b)) (sym f)
          (
            x ++ y,
            refl,
            on_stdout-append x y ∙ ap (λ v. on_stdout x ++ v) u ∙ append-nil (on_stdout x) ∙ t,
          ))

  input_print-Prints :
      (ev : Event) → IsTellable ev → Prints (label prefix) (input_print p file prefix ev)
  unfolding input_print print_type
  input_print-Prints ev other =
      both-Prints (print_type p file prefix ev) (print_rest p file prefix ev)
        (type_lines-Prints (type_line p ev.type) (type_line-known ev.type other.0))
        (print_rest-Prints ev other.1)

  modify-label :
      (ev : Event) (out : Output) (sent : List Event)
      → IsTellable ev
      → (out' : Output) × (modify p write_out
            (some record_event)
            (dump_to path prefix)
            ev
            (out, sent)
          ≡ some ((dump_to path prefix), ev, (out', sent ++ (ev ∷ []))))
        × (on_stdout out' ≡ on_stdout out ++ (label prefix))
  unfolding modify
  modify-label ev out sent other =
      let (text, e, t) = input_print-Prints ev other in
      let whole : Output = text ++ ((file, b'\n' ∷ []) ∷ []) in
      (
        out ++ whole,
        ap (λ o. dumped p write_out (some record_event) o (dump_to path prefix) ev (out, sent)) e,
        on_stdout-append out whole
            ∙ ap (λ u. on_stdout out ++ u)
                (on_stdout-append text _ ∙ append-nil (on_stdout text) ∙ t),
      )

  -- For a file that `fopen` has opened, over any stream without events of the type 12 and without
  -- keys whose code has no name, the filter does not fail and sends exactly the events of the
  -- stream. Of each event the prefix and the words in front of its type go to the standard output,
  -- which gets nothing else.
  pub labels_stray :
      (evs : List Event) (out : Output) (sent : List Event)
      → All IsTellable evs
      → (out' : Output) × (feed
            (modify p write_out (some record_event))
            (dump_to path prefix)
            evs
            (out, sent)
          ≡ some ((dump_to path prefix), (out', sent ++ evs)))
        × (on_stdout out' ≡ on_stdout out ++ labels prefix evs)
  unfolding feed
  labels_stray [] out sent others = (
    out,
    ap (λ s. some ((dump_to path prefix), (out, s))) (sym (append-nil sent)),
    sym (append-nil (on_stdout out)),
  )
  labels_stray (ev ∷ evs) out sent (other, others) =
      let (out₁, e, t) = modify-label ev out sent other in
      let (out₂, f, u) = labels_stray evs out₁ (sent ++ (ev ∷ [])) others in
      (
        out₂,
        feed-cons (modify p write_out (some record_event)) (dump_to path prefix) ev evs (out, sent)
              e f
            ∙ ap (λ s. some ((dump_to path prefix), (out₂, s))) (append_assoc sent (ev ∷ []) evs),
        u
            ∙ ap (λ v. v ++ labels prefix evs) t
            ∙ append_assoc (on_stdout out) (label prefix) (labels prefix evs),
      )
