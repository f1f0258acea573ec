-- ===== src/Daemon/CleanUp/Slots.antt =====
-- The members of the daemon's queue with what belongs to their lines: src/evfd/evfd.c.
use libevfilter.Base.{
  ℕ, ◌≡◌, refl, ◌∙◌, arith, true, false, Option, some, List, [], ◌∷◌, ◌++◌, ◌==◌, length,
  Bool-cases, inl, inr,
}
use libevfilter.FilterList.{Ptr, Node}
use libevfilter.FilterList.Chain.{IsChain, is_in, AreApart}
use libevfilter.FilterList.Attach.{Line}
use libevfilter.Line.Create.{commit_node}
use libevfilter.IoQueue.{Memb}
use libevfilter.Daemon.CleanUp.{number_of}

-- A member of the queue: that of the directory, or that of a line, with the filters of the line
-- up to the commit filter and what that gives back.
pub data Slot : Type 0 where
  directory : Memb → Slot
  with_line : Memb → Line → (front : List Ptr) → (commit : Ptr) → Option Ptr → Slot

abbrev pub memb_of : Slot → Memb
memb_of (directory i) = i
memb_of (with_line i line front c priv) = i

abbrev pub membs_of : List Slot → List Memb
membs_of [] = []
membs_of (s ∷ ss) = memb_of s ∷ membs_of ss

-- What belongs to a member: the filters of its line, and the line.
abbrev pub owned_by : Slot → List Ptr
owned_by (directory i) = []
owned_by (with_line i line front c priv) = (front ++ (c ∷ [])) ++ (i.priv ∷ [])

abbrev pub owned : List Slot → List Ptr
owned [] = []
owned (s ∷ ss) = owned_by s ++ owned ss

abbrev pub fd_of : Slot → List ℕ
fd_of (directory i) = []
fd_of (with_line i line front c priv) = line.fd ∷ []

abbrev pub fds_of : List Slot → List ℕ
fds_of [] = []
fds_of (s ∷ ss) = fd_of s ++ fds_of ss

abbrev pub uinput_of : Slot → List ℕ
uinput_of (directory i) = []
uinput_of (with_line i line front c priv) = number_of priv ∷ []

abbrev pub uinputs_of : List Slot → List ℕ
uinputs_of [] = []
uinputs_of (s ∷ ss) = uinput_of s ++ uinputs_of ss

-- A member is as the daemon has made it.
abbrev pub IsSlot : (Ptr → ℕ) → (Ptr → Option Line) → (Ptr → Option Node) → Slot → Type 0
IsSlot rounds lines cell (directory i) = (i.priv == 0) ≡ true
IsSlot rounds lines cell (with_line i line front c priv) =
    ((i.priv == 0) ≡ false)
    × (lines i.priv ≡ some line)
    × IsChain cell line.begin (front ++ (c ∷ []))
    × (cell c ≡ some (commit_node priv))
    × (rounds i.priv ≡ length (front ++ (c ∷ [])))

abbrev pub AreSlots : (Ptr → ℕ) → (Ptr → Option Line) → (Ptr → Option Node) → List Slot → Type 0
AreSlots rounds lines cell [] = Unit
AreSlots rounds lines cell (s ∷ ss) = IsSlot rounds lines cell s × AreSlots rounds lines cell ss

pub is_in-left : (a : Ptr) (ps qs : List Ptr) → is_in a ps ≡ true → is_in a (ps ++ qs) ≡ true
is_in-left a [] qs h = ground (arith, h)
is_in-left a (p ∷ ps) qs h = ground (arith, h, is_in-left a ps qs)

pub is_in-right : (a : Ptr) (ps qs : List Ptr) → is_in a qs ≡ true → is_in a (ps ++ qs) ≡ true
is_in-right a [] qs h = h
is_in-right a (p ∷ ps) qs h = ground (arith, is_in-right a ps qs h)

pub out_of :
    (a : Ptr) (ps qs : List Ptr)
    → is_in a (ps ++ qs) ≡ false
    → (is_in a ps ≡ false) × (is_in a qs ≡ false)
out_of a ps qs h = (
  elim (Bool-cases (is_in a ps)) [
    | inl within ↦ ground (arith, is_in-left a ps qs within, h)
    | inr without ↦ without
  ],
  elim (Bool-cases (is_in a qs)) [
    | inl within ↦ ground (arith, is_in-right a ps qs within, h)
    | inr without ↦ without
  ],
)

is_in-here : (a : Ptr) (ps : List Ptr) → is_in a (a ∷ ps) ≡ true
is_in-here a ps = ground arith

pub apart_out :
    (a : Ptr) (ps qs : List Ptr) → AreApart (ps ++ qs) → is_in a qs ≡ true → is_in a ps ≡ false
apart_out a [] qs h i = refl
apart_out a (p ∷ ps) qs (h, k) i =
    let rest = apart_out a ps qs k i in
    let within = is_in-right a ps qs i in
    elim (Bool-cases (a == p)) [
      | inl same ↦ ground (arith, same, within, h)
      | inr other ↦ ground (arith, other, rest)
    ]

pub AreApart-left : (ps qs : List Ptr) → AreApart (ps ++ qs) → AreApart ps
AreApart-left [] qs h = tt
AreApart-left (p ∷ ps) qs (h, k) = ((out_of p ps qs h).0, AreApart-left ps qs k)

pub AreApart-right : (ps qs : List Ptr) → AreApart (ps ++ qs) → AreApart qs
AreApart-right [] qs h = h
AreApart-right (p ∷ ps) qs (h, k) = AreApart-right ps qs k

-- Memory that agrees with another one on some filters.
IsChain-agree :
    (cell cell' : Ptr → Option Node) (root : Option Ptr) (ps : List Ptr)
    → ((a : Ptr) → is_in a ps ≡ true → cell' a ≡ cell a)
    → IsChain cell root ps
    → IsChain cell' root ps
IsChain-agree cell cell' root [] same c = c
IsChain-agree cell cell' root (p ∷ ps) same (e, (n, f, c)) = (
  e,
  (
    n,
    same p (is_in-here p ps) ∙ f,
    IsChain-agree cell cell' n.next ps (λ a i. same a (is_in-right a (p ∷ []) ps i)) c,
  ),
)

module _ (rounds : Ptr → ℕ) (lines lines' : Ptr → Option Line)
    (cell cell' : Ptr → Option Node) where
  abbrev Agree : List Ptr → Type 0
  Agree ps = (a : Ptr) → is_in a ps ≡ true → (lines' a ≡ lines a) × (cell' a ≡ cell a)

  IsSlot-Agree :
      (s : Slot) → Agree (owned_by s) → IsSlot rounds lines cell s → IsSlot rounds lines' cell' s
  IsSlot-Agree (directory i) same h = h
  IsSlot-Agree (with_line i line front c priv) same (there, at, chain, ends, enough) =
      let own = front ++ (c ∷ []) in
      (
        there,
        (same i.priv (is_in-right i.priv own _ (is_in-here i.priv []))).0 ∙ at,
        IsChain-agree cell cell' line.begin own (λ a i. (same a (is_in-left a own _ i)).1) chain,
        (same c (is_in-left c own _ (is_in-right c front _ (is_in-here c [])))).1 ∙ ends,
        enough,
      )

  pub AreSlots-Agree :
      (ss : List Slot)
      → Agree (owned ss)
      → AreSlots rounds lines cell ss
      → AreSlots rounds lines' cell' ss
  AreSlots-Agree [] same h = tt
  AreSlots-Agree (s ∷ ss) same (h, k) = (
    IsSlot-Agree s (λ a i. same a (is_in-left a (owned_by s) (owned ss) i)) h,
    AreSlots-Agree ss (λ a i. same a (is_in-right a (owned_by s) (owned ss) i)) k,
  )
