-- ===== src/FilterList/Attach.antt =====
-- Filters that are put into a line which is in use: `evf_line_attach_filter` of src/evf_line.c.
use libevfilter.Base.{ℕ, ◌≡◌, refl, arith, Option, none, some, List, [], ◌∷◌, All, false}
use libevfilter.Base.Text.{Text}
use libevfilter.FilterList.{Ptr, Node, Memory, put}
use libevfilter.FilterList.Chain.{IsChain, IsChain-put, is_in, AreApart}

-- `struct evf_line`; `last` is its member `end`, the last filter in front of the barrier and the
-- commit filter.
pub record Line : Type 0 where
  pub begin : Option Ptr
  pub last : Option Ptr
  pub fd : ℕ
  pub input_device : Text

abbrev pub set_next : Ptr → Node → Option Ptr → Memory → Memory
set_next p n q m = record m { cell = put p (some (record n { next = q })) m.cell }

-- `evf_line_attach_filter`; `none` is an access to freed memory.
unfoldable pub attach_filter : Line → Ptr → Memory → Option (Line × Memory)
attach_filter line filter m = elim line.last [
  | none ↦ elim (m.cell filter) [
    | none ↦ none
    | some f ↦
        some
          (record line { begin = some filter; last = some filter }, set_next filter f line.begin m)
  ]
  | some e ↦ elim (m.cell e) [
    | none ↦ none
    | some n ↦ elim (m.cell filter) [
      | none ↦ none
      | some f ↦ some (line, set_next e n (some filter) (set_next filter f n.next m))
    ]
  ]
]

attach_filter-some :
    (line : Line) (m : Memory) (e f : Ptr) (n nf : Node)
    → line.last ≡ some e
    → m.cell e ≡ some n
    → m.cell f ≡ some nf
    → attach_filter line f m ≡ some (line, set_next e n (some f) (set_next f nf n.next m))
unfolding attach_filter
attach_filter-some line m e f n nf l ce cf = simp (attach_filter, l, ce, cf)

-- The second filter that is attached to a line which has filters stands in front of the first one:
-- `end` is not moved. From a line whose `end` is at `e`, with `qs` behind it, two new filters `f`
-- and `g` that are attached in turn come to stand as `g` and then `f` behind `e`.
pub attach_filter_reverses :
    (line : Line) (m : Memory) (e f g : Ptr) (n nf ng : Node) (qs : List Ptr)
    → line.last ≡ some e
    → m.cell e ≡ some n
    → m.cell f ≡ some nf
    → m.cell g ≡ some ng
    → AreApart (e ∷ f ∷ g ∷ [])
    → All (λ a. is_in a qs ≡ false) (e ∷ f ∷ g ∷ [])
    → IsChain m.cell n.next qs
    → (m₁ m₂ : Memory) × (attach_filter line f m ≡ some (line, m₁))
      × (attach_filter line g m₁ ≡ some (line, m₂))
      × IsChain m₂.cell (some e) (e ∷ g ∷ f ∷ qs)
attach_filter_reverses line m e f g n nf ng qs l ce cf cg a d c =
    let m₁ = set_next e n (some f) (set_next f nf n.next m) in
    let n₁ : Node = record n { next = some f } in
    let m₂ = set_next e n₁ (some g) (set_next g ng (some f) m₁) in
    let n₂ : Node = record n { next = some g } in
    let nf' : Node = record nf { next = n.next } in
    let ng' : Node = record ng { next = some f } in
    let behind = IsChain-put (put g (some ng') m₁.cell) e (some n₂) n.next qs d.0 (
      IsChain-put m₁.cell g (some ng') n.next qs d.1.1.0 (
        IsChain-put (put f (some nf') m.cell) e (some n₁) n.next qs d.0
          (IsChain-put m.cell f (some nf') n.next qs d.1.0 c))) in
    (
      m₁,
      m₂,
      attach_filter-some line m e f n nf l ce cf,
      attach_filter-some line m₁ e g n₁ ng l (ground arith) (ground (arith, a, cg)),
      (
        refl,
        (
          n₂,
          ground arith,
          (refl, (ng', ground (arith, a), (refl, (nf', ground (arith, a), behind)))),
        ),
      ),
    )
