-- ===== src/Filters/Status/Fits.antt =====
-- The buffer that `evf_filters_print` gives to the functions `status` is large enough:
-- src/evf_filter.c, src/filters.
use libevfilter.Base.{
  ℕ, ◌+◌, ◌-◌, ◌*◌, ◌≤◌, ◌<◌, ◌≡◌, refl, sym, ap, ◌∙◌, ◌≢◌, inl, inr, ◌⊎◌, Bool, true, false,
  Option, some, List, [], ◌∷◌, ◌++◌, arith, ltb, leb, ◌&&◌, length, Bool-cases, All, append-nil,
  append_assoc, length-append, take_all,
}
use libevfilter.Base.Int.{ℤ, pos, ◌==ℤ◌, ==ℤ→eq}
use libevfilter.Base.Text.{Text, codes}
use libevfilter.KeyParser.Table.{key_names}
use libevfilter.Filters.Btn2Rel.{Btn2Rel}
use libevfilter.Filters.Status.{
  Formats, snprintf, print_behind, name_of_key, put_keys, rows_of, btn2rel_status,
}

-- `len` of `evf_filters_print`.
abbrev pub print_len : ℕ
print_len = 260

-- With a buffer of this size or more, the same text is told: nothing is cut off, no NULL is
-- printed, and nothing is written outside of the buffer.
abbrev pub IsTold : (ℕ → Option Text) → Type 0
IsTold status =
    (t : Text) × (length t < print_len) × ((len : ℕ) → print_len ≤ len → status len ≡ some t)

pub snprintf-IsTold : (t : Text) → length t < print_len → IsTold (λ len. snprintf len t)
snprintf-IsTold t h = (t, h, λ len k. ap some (take_all (len - 1) t (omega arith)))

-- What fits is written whole behind what the buffer holds.
print_behind_fits :
    (len : ℕ) (buf t : Text)
    → length buf + length t < len
    → print_behind len (buf, length buf) t ≡ some (buf ++ t, length (buf ++ t))
unfolding print_behind
print_behind_fits len buf t h =
    let whole = take_all (len - length buf - 1) t (omega arith) in
    let inside : ltb len (length buf) ≡ false = ground arith in
    rw (inside, whole, length-append buf t) refl

abbrev all_short : List Text → Bool
all_short [] = true
all_short (n ∷ ns) = leb (length n) 20 && all_short ns

all_short-All : (ns : List Text) → all_short ns ≡ true → All (λ n. length n ≤ 20) ns
all_short-All [] h = tt
all_short-All (n ∷ ns) h = (ground arith, all_short-All ns (ground arith))

-- No name of the table of keys has more than 20 bytes.
pub key_names_short : All (λ n. length n ≤ 20) key_names
key_names_short = all_short-All key_names refl

is_set : (key : ℤ) → (key ==ℤ pos 0) ≡ false → key ≢ pos 0
is_set key set z = let same : (key ==ℤ pos 0) ≡ true = ap (λ k. k ==ℤ pos 0) z in cc

module _ {F : Type 0} (f : Formats F) where
  -- `keyparser_getname` finds a name for the key.
  abbrev pub IsNamed : ℤ → Type 0
  IsNamed v = (n : Text) × (name_of_key f v ≡ some (some n)) × (length n ≤ 20)

  -- The text of rows: each with a key other than 0 has the row's name and the key's.
  abbrev pub IsListed : List (Text × ℤ) → Text → Type 0
  IsListed [] t = t ≡ []
  IsListed ((dir, key) ∷ rows) t =
      ((key ≡ pos 0) × IsListed rows t)
      ⊎ ((key ≢ pos 0)
          × (n : Text) × (rest : Text) × (name_of_key f key ≡ some (some n))
          × (t ≡ dir ++ (codes ":" ++ (n ++ (codes " " ++ rest))))
          × IsListed rows rest)

  abbrev Rows : List (Text × ℤ) → Type 0
  Rows rows = All (λ r. (length r.0 ≤ 5) × IsNamed r.1) rows

  -- What a row adds.
  abbrev segment : Text → Text → Text
  segment dir n = dir ++ (codes ":" ++ (n ++ codes " "))

  length-segment : (dir n : Text) → length (segment dir n) ≡ length dir + length n + 2
  length-segment dir n =
      omega (arith, length-append dir (codes ":" ++ (n ++ codes " ")), length-append n (codes " "))

  segment-append :
      (dir n t : Text) → segment dir n ++ t ≡ dir ++ (codes ":" ++ (n ++ (codes " " ++ t)))
  segment-append dir n t =
      rw (append_assoc dir (codes ":" ++ (n ++ codes " ")) t)
        (rw (append_assoc n (codes " ") t) refl)

  -- No row, a row whose key is 0, and one that is listed.
  put_keys-nil : (len : ℕ) (b : Text × ℕ) → put_keys f len [] b ≡ some b
  unfolding put_keys
  put_keys-nil len b = refl

  put_keys-skip :
      (len : ℕ) (dir : Text) (key : ℤ) (rows : List (Text × ℤ)) (b : Text × ℕ)
      → (key ==ℤ pos 0) ≡ true
      → put_keys f len ((dir, key) ∷ rows) b ≡ put_keys f len rows b
  unfolding put_keys
  put_keys-skip len dir key rows b e = rw e refl

  put_keys-list :
      (len : ℕ) (dir : Text) (key : ℤ) (rows : List (Text × ℤ)) (b b' : Text × ℕ) (n : Text)
      → (key ==ℤ pos 0) ≡ false
      → name_of_key f key ≡ some (some n)
      → print_behind len b (segment dir n) ≡ some b'
      → put_keys f len ((dir, key) ∷ rows) b ≡ put_keys f len rows b'
  unfolding put_keys
  put_keys-list len dir key rows b b' n e named fits = rw (e) (rw (named) (rw (fits) refl))

  put_keys_fits :
      (rows : List (Text × ℤ)) (buf : Text)
      → Rows rows
      → (t : Text) × IsListed rows t
        × (length t ≤ 27 * length rows)
        × ((len : ℕ)
            → length buf + 27 * length rows < len
            → put_keys f len rows (buf, length buf) ≡ some (buf ++ t, length (buf ++ t)))
  put_keys_fits [] buf r = (
    [],
    refl,
    omega arith,
    λ len h.
        put_keys-nil len (buf, length buf) ∙ ap (λ b. some (b, length b)) (sym (append-nil buf)),
  )
  put_keys_fits ((dir, key) ∷ rows) buf ((short, (n, named, small)), r) =
      elim (Bool-cases (key ==ℤ pos 0)) [
        | inl none_set ↦
            let (t, l, b, e) = put_keys_fits rows buf r in
            (
              t,
              inl (==ℤ→eq key (pos 0) none_set, l),
              omega arith,
              λ len h.
                  put_keys-skip len dir key rows (buf, length buf) none_set ∙ e len (omega arith),
            )
        | inr set ↦
            let part = segment dir n in
            let size = length-segment dir n in
            let whole = length-append buf part in
            let (t, l, b, e) = put_keys_fits rows (buf ++ part) r in
            (
              part ++ t,
              inr (is_set key set, n, t, named, segment-append dir n t, l),
              omega (arith, length-append part t),
              λ len h.
                  put_keys-list len dir key rows (buf, length buf) _ n set named
                    (print_behind_fits len buf part (omega arith))
                  ∙ e len (omega arith)
                  ∙ ap (λ b. some (b, length b)) (append_assoc buf part t),
            )
      ]

  btn2rel_status-print_behind :
      (len : ℕ) (s : Btn2Rel) (b c d : Text × ℕ)
      → print_behind len ([], 0) (codes "Keyboard to mouse ( ") ≡ some b
      → put_keys f len (rows_of f s) b ≡ some c
      → print_behind len c (codes ")") ≡ some d
      → btn2rel_status f len s ≡ some d.0
  unfolding btn2rel_status
  btn2rel_status-print_behind len s b c d h k l =
      rw (h, btn2rel_status) (rw (k, btn2rel_status) (rw (l, btn2rel_status) refl))

  -- If all keys have names, then the rows whose keys are not 0 are told.
  pub btn2rel_status_told :
      (s : Btn2Rel)
      → Rows (rows_of f s)
      → (t : Text) × IsListed (rows_of f s) t
        × (length t ≤ 189)
        × ((len : ℕ)
            → print_len ≤ len
            → btn2rel_status f len s ≡ some (codes "Keyboard to mouse ( " ++ (t ++ codes ")")))
  btn2rel_status_told s r =
      let head = codes "Keyboard to mouse ( " in
      let (t, l, b, e) = put_keys_fits (rows_of f s) head r in
      let size = length-append head t in
      (
        t,
        l,
        b,
        λ len h.
            btn2rel_status-print_behind len s _ _ _ (print_behind_fits len [] head (omega arith))
              (e len (omega arith)) (print_behind_fits len (head ++ t) (codes ")") (omega arith))
            ∙ ap some (append_assoc head t (codes ")")),
      )
