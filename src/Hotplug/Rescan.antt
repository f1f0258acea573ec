-- ===== src/Hotplug/Rescan.antt =====
-- What src/evf_hotplug.c reports of the kernel's events.
use libevfilter.Base.{
  ℕ, zero, suc, ◌+◌, ◌^◌, ◌<◌, ◌≤◌, ◌≡◌, ◌⊎◌, inl, inr, refl, sym, subst, ap, ◌∙◌, arith, Bool,
  true, false, Option, none, some, List, [], ◌∷◌, ◌++◌, ◌==◌, if◌then◌else◌, drop, length,
  length-append, replicate, length-replicate, All, Bool-cases, append_assoc, append-nil,
}
use libevfilter.Base.Int.{pos, ltb_ℤ, to_int, to_int_fits}
use libevfilter.Base.Text.{Text, codes}
use libevfilter.Hotplug.{
  Statics, Host, Inotify, is_event_name, dev_of, c_string, call_if, begins, starts_with, dispatch,
  named, compared, look, rescan_from, rescan, counted_as_int,
}
use libevfilter.Hotplug.Walk.{make_calls}

-- What the kernel tells: the name is followed by `pad` NUL bytes.
pub record Note : Type 0 where
  pub mask : ℕ
  pub name : Text
  pub pad : ℕ

abbrev pub note_len : Note → ℕ
note_len n = length n.name + n.pad

-- A name has no NUL, and one byte behind it at least.
pub record IsNote (n : Note) : Type 0 where
  pub mask_fits : n.mask < 2 ^ 32
  pub len_fits : note_len n < 2 ^ 32
  pub no_nul : All (λ b. 0 < b) n.name
  pub ended : (n.name ≡ []) ⊎ (0 < n.pad)

-- The layout of the fixed part, which `header` writes for a mask and a length.
pub record IsLayout (k : Inotify) (header : ℕ → ℕ → List ℕ) : Type 0 where
  pub positive : 0 < k.size
  pub sized : (m l : ℕ) → length (header m l) ≡ k.size
  pub mask_back :
      (m l : ℕ) (rest : List ℕ) → m < 2 ^ 32 → l < 2 ^ 32 → k.mask (header m l ++ rest) ≡ m
  pub len_back :
      (m l : ℕ) (rest : List ℕ) → m < 2 ^ 32 → l < 2 ^ 32 → k.len (header m l ++ rest) ≡ l

-- The bytes of an event, in front of others.
abbrev note_bytes : (ℕ → ℕ → List ℕ) → Note → List ℕ → List ℕ
note_bytes header n rest = header n.mask (note_len n) ++ (n.name ++ (replicate n.pad 0 ++ rest))

abbrev pub print_notes : (ℕ → ℕ → List ℕ) → List Note → List ℕ
print_notes header [] = []
print_notes header (n ∷ ns) = note_bytes header n (print_notes header ns)

abbrev call_of : Option ℕ → Bool → Text → List (ℕ × Text)
call_of none test dev = []
call_of (some f) test dev = if test then (f, dev) ∷ [] else []

-- The calls that are due for what the kernel tells, in order.
abbrev due_of : Inotify → Statics → Note → List (ℕ × Text)
due_of k s n =
    if is_event_name n.name
    then call_of s.dev_plug (k.in_create n.mask) (dev_of n.name)
      ++ call_of s.dev_unplug (k.in_delete n.mask) (dev_of n.name)
    else []

abbrev pub due : Inotify → Statics → List Note → List (ℕ × Text)
due k s [] = []
due k s (n ∷ ns) = due_of k s n ++ due k s ns

drop-append : {A : Type 0} (xs ys : List A) → drop (length xs) (xs ++ ys) ≡ ys
drop-append [] ys = refl
drop-append (x ∷ xs) ys = drop-append xs ys

no_event : is_event_name [] ≡ false
unfolding is_event_name
no_event = refl

c_string-back :
    (t : Text) (rest : List ℕ) → All (λ b. 0 < b) t → c_string (t ++ (0 ∷ rest)) ≡ some t
unfolding c_string
c_string-back [] rest h = refl
c_string-back (b ∷ t) rest h = ground (arith, h, c_string-back t rest h.1)

begins-back :
    (s t : Text) (rest : List ℕ)
    → All (λ b. 0 < b) s
    → begins s (t ++ (0 ∷ rest)) ≡ some (starts_with s t)
unfolding begins
begins-back [] t rest h = refl
begins-back (a ∷ s) [] rest h =
    let other : (a == 0) ≡ false = ground (arith, h.0) in
    ap (λ b. if b then begins s rest else some false) other
begins-back (a ∷ s) (b ∷ t) rest h = elim (Bool-cases (a == b)) [
  | inl same ↦ rw same (begins-back s t rest h.1)
  | inr other ↦ rw other refl
]

begins_event :
    (name : Text) (rest : List ℕ)
    → begins (codes "event") (name ++ (0 ∷ rest)) ≡ some (is_event_name name)
unfolding is_event_name
begins_event name rest = begins-back (codes "event") name rest (ground arith)

module _ {W : Type 0} (h : Host W) where
  abbrev counted : List (ℕ × Text) → ℕ × W → ℕ × W
  counted cs (nr, w) = (nr + length cs, make_calls h cs w)

  make_calls-append :
      (cs ds : List (ℕ × Text)) (w : W)
      → make_calls h (cs ++ ds) w ≡ make_calls h ds (make_calls h cs w)
  make_calls-append [] ds w = refl
  make_calls-append ((f, dev) ∷ cs) ds w = make_calls-append cs ds (h.call f dev w)

  counted-append :
      (cs ds : List (ℕ × Text)) (r : ℕ × W) → counted ds (counted cs r) ≡ counted (cs ++ ds) r
  counted-append cs ds (nr, w) =
      let lengths : nr + length cs + length ds ≡ nr + length (cs ++ ds) =
        omega (arith, length-append cs ds) in
      ap (λ n. (n, make_calls h ds (make_calls h cs w))) lengths
      ∙ ap (λ v. (nr + length (cs ++ ds), v)) (sym (make_calls-append cs ds w))

  call_if_counts :
      (k : Inotify) (callback : Option ℕ) (test : Bool) (dev : Text) (r : ℕ × W)
      → call_if h k callback test dev r ≡ counted (call_of callback test dev) r
  call_if_counts k none test dev (nr, w) = ap (λ n. (n, w)) (omega arith)
  call_if_counts k (some f) true dev (nr, w) = refl
  call_if_counts k (some f) false dev (nr, w) = ap (λ n. (n, w)) (omega arith)

  both_count :
      (k : Inotify) (s : Statics) (n : Note) (r : ℕ × W)
      → call_if h k s.dev_unplug
          (k.in_delete n.mask)
          (dev_of n.name)
          (call_if h k s.dev_plug (k.in_create n.mask) (dev_of n.name) r)
        ≡ counted
            (call_of s.dev_plug (k.in_create n.mask) (dev_of n.name)
              ++ call_of s.dev_unplug (k.in_delete n.mask) (dev_of n.name))
            r
  both_count k s n r =
      let plugs = call_of s.dev_plug (k.in_create n.mask) (dev_of n.name) in
      let unplugs = call_of s.dev_unplug (k.in_delete n.mask) (dev_of n.name) in
      ap (call_if h k s.dev_unplug (k.in_delete n.mask) (dev_of n.name))
        (call_if_counts k s.dev_plug (k.in_create n.mask) (dev_of n.name) r)
      ∙ call_if_counts k s.dev_unplug (k.in_delete n.mask) (dev_of n.name) (counted plugs r)
      ∙ counted-append plugs unplugs r

  compared_due :
      (k : Inotify) (s : Statics) (n : Note) (mem : List ℕ) (b : Bool) (r : ℕ × W)
      → c_string mem ≡ some n.name
      → compared h k s n.mask mem (some b) r
        ≡ some (
            counted
              (if b
                then call_of s.dev_plug (k.in_create n.mask) (dev_of n.name)
                  ++ call_of s.dev_unplug (k.in_delete n.mask) (dev_of n.name)
                else [])
              r)
  unfolding compared named dispatch
  compared_due k s n mem true r e =
      ap (λ t. named h k s n.mask t r) e ∙ ap some (both_count k s n r)
  compared_due k s n mem false (nr, w) e = ap (λ n. some (n, w)) (omega arith)

  -- The body of the loop, at the place where the kernel has told something.
  module _ (k : Inotify) (header : ℕ → ℕ → List ℕ) (lay : IsLayout k header) where
    note_len_back :
        (n : Note) (rest : List ℕ) → IsNote n → k.len (note_bytes header n rest) ≡ note_len n
    note_len_back n rest is = lay.len_back n.mask (note_len n) _ is.mask_fits is.len_fits

    drop-note :
        (n : Note) (rest : List ℕ)
        → drop k.size (note_bytes header n rest) ≡ n.name ++ (replicate n.pad 0 ++ rest)
    drop-note n rest =
        subst (λ size. drop size (note_bytes header n rest) ≡ n.name ++ (replicate n.pad 0 ++ rest))
          (lay.sized n.mask (note_len n)) (drop-append (header n.mask (note_len n)) _)

    look-note :
        (s : Statics) (mask : ℕ) (name : Text) (pad : ℕ) (rest : List ℕ) (r : ℕ × W)
        → IsNote (record { mask = mask; name = name; pad = pad })
        → look h k s (note_bytes header (record { mask = mask; name = name; pad = pad }) rest) r
          ≡ some (counted (due_of k s (record { mask = mask; name = name; pad = pad })) r)
    unfolding look
    look-note s mask name zero rest (nr, w) is =
        let n : Note = record { mask = mask; name = name; pad = zero } in
        let nameless : name ≡ [] = elim is.ended [
          | inl e ↦ e
          | inr z ↦ absurd (omega (arith, z))
        ] in
        let short : (k.len (note_bytes header n rest) == 0) ≡ true =
          ground (arith, note_len_back n rest is, ap length nameless) in
        let other : is_event_name name ≡ false = ap is_event_name nameless ∙ no_event in
        rw (short, other) (ap (λ i. some (i, w)) (omega arith))
    look-note s mask name (suc p) rest r is =
        let n : Note = record { mask = mask; name = name; pad = suc p } in
        let long : (k.len (note_bytes header n rest) == 0) ≡ false =
          ground (arith, note_len_back n rest is) in
        let mem = name ++ (0 ∷ (replicate p 0 ++ rest)) in
        rw long (
          ap
            (λ m.
              compared h k s m (drop k.size (note_bytes header n rest))
                (begins (codes "event") (drop k.size (note_bytes header n rest))) r)
            (lay.mask_back mask (note_len n) _ is.mask_fits is.len_fits)
          ∙ ap (λ t. compared h k s mask t (begins (codes "event") t) r) (drop-note n rest)
          ∙ ap (λ b. compared h k s mask mem b r) (begins_event name (replicate p 0 ++ rest))
          ∙ compared_due k s n mem (is_event_name name) r
              (c_string-back name (replicate p 0 ++ rest) is.no_nul))

    note_end : Note → List ℕ
    note_end n = header n.mask (note_len n) ++ (n.name ++ replicate n.pad 0)

    note_end-append : (n : Note) (rest : List ℕ) → note_end n ++ rest ≡ note_bytes header n rest
    unfolding note_end
    note_end-append n rest =
        append_assoc (header n.mask (note_len n)) (n.name ++ replicate n.pad 0) rest
        ∙ ap (λ t. header n.mask (note_len n) ++ t) (append_assoc n.name (replicate n.pad 0) rest)

    note_end-behind :
        (pre : List ℕ) (n : Note) (rest : List ℕ)
        → pre ++ note_bytes header n rest ≡ (pre ++ note_end n) ++ rest
    note_end-behind pre n rest =
        ap (λ t. pre ++ t) (sym (note_end-append n rest)) ∙ sym (append_assoc pre (note_end n) rest)

    length-note_end : (n : Note) → length (note_end n) ≡ note_len n + k.size
    unfolding note_end
    length-note_end n = omega (
      arith,
      length-append (header n.mask (note_len n)) (n.name ++ replicate n.pad 0),
      length-append n.name (replicate n.pad 0),
      length-replicate {A = ℕ} n.pad 0,
      lay.sized n.mask (note_len n),
    )

    rescan_from_lem :
        (s : Statics) (ns : List Note) (fuel : ℕ) (buf pre : List ℕ) (r : ℕ × W)
        → All IsNote ns
        → buf ≡ pre ++ print_notes header ns
        → length buf ≤ 1024
        → length ns < fuel
        → rescan_from h k fuel s buf (pos (length pre)) r ≡ some (counted (due k s ns) r)
    unfolding rescan_from
    rescan_from_lem s ns zero buf pre r are e small enough = absurd (omega arith)
    rescan_from_lem s [] (suc fuel) buf pre (nr, w) are e small enough =
        let over : ltb_ℤ (pos (length pre)) (pos (length buf)) ≡ false =
          ground (arith, ap length (e ∙ append-nil pre)) in
        rw over (ap (λ i. some (i, w)) (omega arith))
    rescan_from_lem s (n ∷ ns) (suc fuel) buf pre r (is, are) e small enough =
        let rest = print_notes header ns in
        let here : drop (length pre) buf ≡ note_bytes header n rest =
          ap (drop (length pre)) e ∙ drop-append pre _ in
        let e' : buf ≡ (pre ++ note_end n) ++ rest = e ∙ note_end-behind pre n rest in
        let size : length buf ≡ length (pre ++ note_end n) + length rest =
          ap length e' ∙ length-append (pre ++ note_end n) rest in
        let far : length (pre ++ note_end n) ≡ length pre + (note_len n + k.size) =
          omega (arith, length-append pre (note_end n), length-note_end n) in
        let inside : ltb_ℤ (pos (length pre)) (pos (length buf)) ≡ true =
          ground (arith, size, far, lay.positive) in
        let found : look h k s (drop (length pre) buf) r ≡ some (counted (due_of k s n) r) =
          ap (λ t. look h k s t r) here ∙ look-note s n.mask n.name n.pad rest r is in
        let index : length pre + k.len (drop (length pre) buf) + k.size
            ≡ length (pre ++ note_end n) =
          omega (arith, far, ap k.len here, note_len_back n rest is) in
        let next : to_int (pos (length pre + k.len (drop (length pre) buf) + k.size))
            ≡ pos (length (pre ++ note_end n)) =
          ap (λ i. to_int (pos i)) index
          ∙ to_int_fits (pos (length (pre ++ note_end n))) (omega (arith, size)) in
        rw (inside, found, next)
          (rescan_from_lem s ns fuel buf (pre ++ note_end n) (counted (due_of k s n) r) are e' small
              (omega arith)
            ∙ ap some (counted-append (due_of k s n) (due k s ns) r))

-- If what `read` gives is at most 1024 bytes, which the kernel has written for a list of events,
-- then `evf_hotplug_rescan` reads exactly these events, with fuel for one round to each and one
-- more, and no byte that was not written: it makes the calls that are due for them, in their order,
-- and returns how many.
pub rescan-due :
    {W : Type 0} (h : Host W) (k : Inotify) (header : ℕ → ℕ → List ℕ)
    → IsLayout k header
    → (s : Statics) (ns : List Note) (fuel : ℕ) (w : W) → All IsNote ns
    → length (print_notes header ns) ≤ 1024
    → length ns < fuel
    → rescan h k fuel s (some (print_notes header ns)) w
      ≡ some (pos (length (due k s ns)), make_calls h (due k s ns) w)
unfolding rescan
rescan-due h k header lay s ns fuel w are small enough =
    ap counted_as_int (
      rescan_from_lem h k header lay s ns fuel (print_notes header ns) [] (0, w) are refl small
        enough)
    ∙ ap (λ n. some (pos n, make_calls h (due k s ns) w)) (omega arith)
