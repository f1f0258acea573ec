-- ===== src/Uinput/Closed.antt =====
-- What src/evf_uinput.c leaves open.
use libevfilter.Base.{
  ℕ, zero, suc, ◌≡◌, refl, sym, ap, subst, ◌∙◌, arith, Bool, true, false, Option, none, some, List,
  [], ◌∷◌, ◌++◌, ◌==◌, if◌then◌else◌, append_assoc,
}
use libevfilter.Base.Int.{ℤ, pos, negsuc}
use libevfilter.Base.Text.{Text}
use libevfilter.Uinput.{
  Call, ioctl, write, close, dev_destroy, set_keys, set_bits, made, on_opened, try_open,
  uinput_create, uinput_destroy, uinput_dev_paths,
}

-- How often a descriptor is closed, and how often the device on it is destroyed.
abbrev pub closes : ℕ → List Call → ℕ
closes fd [] = 0
closes fd (ioctl _ _ ∷ cs) = closes fd cs
closes fd (write _ ∷ cs) = closes fd cs
closes fd (close n ∷ cs) = if n == fd then suc (closes fd cs) else closes fd cs

abbrev pub destroys : ℕ → List Call → ℕ
destroys fd [] = 0
destroys fd (ioctl n dev_destroy ∷ cs) = if n == fd then suc (destroys fd cs) else destroys fd cs
destroys fd (_ ∷ cs) = destroys fd cs

abbrev tally : ℕ → List Call → ℕ × ℕ
tally fd cs = (closes fd cs, destroys fd cs)

-- A client destroys the device that it was given.
abbrev pub undo : ℤ → List Call
undo (pos fd) = uinput_destroy fd
undo (negsuc _) = []

abbrev pub is_made : ℤ → ℕ
is_made (pos _) = 1
is_made (negsuc _) = 0

set_keys-tally : (fd n i : ℕ) (cs : List Call) → tally fd (set_keys fd i n ++ cs) ≡ tally fd cs
set_keys-tally fd zero i cs = refl
set_keys-tally fd (suc n) i cs = set_keys-tally fd n (suc i) cs

set_bits-tally :
    (btn_mouse key_max fd : ℕ) (cs : List Call)
    → tally fd (set_bits btn_mouse key_max fd ++ cs) ≡ tally fd cs
unfolding set_bits
set_bits-tally btn_mouse key_max fd cs = set_keys-tally fd key_max 0 cs

-- What is called for a result, with what a client calls then.
abbrev pub whole : ℤ × List Call → List Call
whole (result, calls) = calls ++ undo result

made-tally :
    (fd : ℕ) (written created : Bool)
    → tally fd (whole (made fd written created)) ≡ (1, is_made (made fd written created).0)
unfolding made uinput_destroy
made-tally fd false created = ground arith
made-tally fd true false = ground arith
made-tally fd true true = ground arith

on_opened-tally :
    (btn_mouse key_max fd : ℕ) (written created : Bool)
    → tally fd (whole (on_opened btn_mouse key_max written created (some fd)))
      ≡ (1, is_made (on_opened btn_mouse key_max written created (some fd)).0)
unfolding on_opened
on_opened-tally btn_mouse key_max fd written created =
    ap (tally fd) (append_assoc (set_bits btn_mouse key_max fd) _ _)
    ∙ set_bits-tally btn_mouse key_max fd (whole (made fd written created))
    ∙ made-tally fd written created

-- If a path can be opened, then, whatever writing to it and making the device do, the calls of
-- `evf_uinput_create`, with those of `evf_uinput_destroy` behind them if a descriptor was returned,
-- close the descriptor exactly once, and destroy the device exactly if it was returned.
pub uinput_closes :
    (btn_mouse key_max fd : ℕ) (opens : Text → Option ℕ) (written created : Bool)
    → try_open opens none uinput_dev_paths ≡ some fd
    → (closes fd (whole (uinput_create btn_mouse key_max opens written created)) ≡ 1)
      × (destroys fd (whole (uinput_create btn_mouse key_max opens written created))
          ≡ is_made (uinput_create btn_mouse key_max opens written created).0)
unfolding uinput_create
uinput_closes btn_mouse key_max fd opens written created opened =
    let told =
      subst
        (λ o.
          tally fd (whole (on_opened btn_mouse key_max written created o))
          ≡ (1, is_made (on_opened btn_mouse key_max written created o).0))
        (sym opened) (on_opened-tally btn_mouse key_max fd written created) in
    (ap (λ t. t.0) told, ap (λ t. t.1) told)
