-- ===== src/Filters/Btn2Rel.antt =====
-- src/filters/btn2rel.c: keys move the pointer and press its buttons.
pub mod Directions
use libevfilter.Base.{
  ℕ, zero, suc, ◌+◌, ◌-◌, ◌*◌, ◌%◌, ◌≤◌, ◌<◌, ◌≡◌, refl, ◌≢◌, ◌⊎◌, inl, inr, Bool, true, false, not,
  ◌&&◌, ◌||◌, Option, none, some, List, [], ◌∷◌, ◌++◌, append-nil, append_assoc, arith, ltb, leb,
  ◌==◌, if◌then◌else◌, length, take, select, Bool-cases, set, ap, replicate, length-append,
  length-replicate, length-set,
}
use libevfilter.Base.Int.{
  ℤ, pos, negsuc, ◌+ℤ◌, ◌-ℤ◌, ◌*ℤ◌, ◌==ℤ◌, ◌≤ℤ◌, ltb_ℤ, abs, to_int, to_u16, div_trunc, rem_trunc,
  int_max, InInt, to_int_fits, int_laws,
}
use libevfilter.Base.Text.{Text, codes}
use libevfilter.Event.{
  Event, ev_syn, ev_key, ev_rel, ev_abs, syn_report, rel_x, rel_y, rel_hwheel, rel_wheel, abs_x,
  abs_y, abs_pressure, nonzero, Next, Modify, pass, swallow, emit, run,
}
use libevfilter.Param.Defs.{
  ParamType, LimInt, Param, row, last_row, Result, done, failed, fault, ◌>>=◌, Value, Env,
}
use libevfilter.Param.Load.{load_params, or_errno}

-- `struct btn2rel`.
pub record Btn2Rel : Type 0 where
  pub key_up : ℤ
  pub key_down : ℤ
  pub key_left : ℤ
  pub key_right : ℤ
  pub right_btn : ℤ
  pub middle_btn : ℤ
  pub left_btn : ℤ
  pub eat_next_syn : ℤ

-- The button codes of linux/input.h.
pub record Buttons : Type 0 where
  pub btn_left : ℕ
  pub btn_middle : ℕ
  pub btn_right : ℕ

-- `none` is the early return at a key up event; else the event as it stands behind the test.
unfoldable pub move_key : ℤ → ℕ → ℤ → Event → Option Event
move_key key axis step ev =
    if pos ev.code ==ℤ key
    then (if ev.value ==ℤ pos 0
        then none
        else some (record ev { type = ev_rel; code = axis; value = step }))
    else some ev

-- A key that stands for a button.
unfoldable pub press : ℤ → ℕ → Event → Event
press key button ev = if pos ev.code ==ℤ key then record ev { code = button } else ev

-- The block for key events: four tests for movements and three for buttons, each at the event as
-- the ones above it leave it.
unfoldable pub translate : Buttons → Btn2Rel → Event → Option Event
unfolding move_key press
translate b s ev = elim (move_key s.key_up rel_y (pos 2) ev) [
  | none ↦ none
  | some ev₁ ↦ elim (move_key s.key_down rel_y (negsuc 1) ev₁) [
    | none ↦ none
    | some ev₂ ↦ elim (move_key s.key_left rel_x (negsuc 1) ev₂) [
      | none ↦ none
      | some ev₃ ↦ elim (move_key s.key_right rel_x (pos 2) ev₃) [
        | none ↦ none
        | some ev₄ ↦ some (
            press s.right_btn b.btn_right
              (press s.middle_btn b.btn_middle (press s.left_btn b.btn_left ev₄)))
      ]
    ]
  ]
]

unfoldable pub modify : {D : Type 0} → Buttons → Next D → Modify Btn2Rel D
unfolding translate
modify b next s ev d =
    if (ev.type == ev_syn) && nonzero s.eat_next_syn
    then swallow (record s { eat_next_syn = pos 0 }) ev d
    else if ev.type == ev_key
    then elim (translate b s ev) [
      | none ↦ swallow (record s { eat_next_syn = pos 1 }) ev d
      | some ev' ↦ pass next s ev' d
    ]
    else pass next s ev d

-- `evf_btn2rel_alloc`, its arguments in the order of its header.
unfoldable pub alloc :
    Bool → (down up left right left_btn middle_btn right_btn : ℤ) → Option Btn2Rel
alloc has_memory down up left right left_btn middle_btn right_btn =
    if has_memory
    then some (record {
      key_up = up;
      key_down = down;
      key_left = left;
      key_right = right;
      right_btn = right_btn;
      middle_btn = middle_btn;
      left_btn = left_btn;
      eat_next_syn = pos 0;
    })
    else none

-- A row of the table: all are keys with the default NO_KEY.
abbrev pub key_row : Text → Param
key_row name = row name ParamType.key none (some (codes "NO_KEY"))

abbrev pub btn2rel_params : List Param
btn2rel_params =
    key_row (codes "keyup")
    ∷ key_row (codes "keydown")
    ∷ key_row (codes "keyleft")
    ∷ key_row (codes "keyright")
    ∷ key_row (codes "leftbtn")
    ∷ key_row (codes "middlebtn")
    ∷ key_row (codes "rightbtn")
    ∷ last_row
    ∷ []

-- The call of `evf_btn2rel_alloc` in `evf_btn2rel_creat`.
unfoldable pub from_values : {F : Type 0} → Env F → List (Value F) → Result Btn2Rel
unfolding alloc
from_values env
      (Value.int up
        ∷ Value.int down
        ∷ Value.int left
        ∷ Value.int right
        ∷ Value.int lb
        ∷ Value.int mb
        ∷ Value.int rb
        ∷ []) =
    or_errno env (alloc env.has_memory up down left right lb mb rb)
from_values env _ = fault

-- `evf_btn2rel_creat`.
unfoldable pub creat : {F : Type 0} → Env F → Text → Result Btn2Rel
unfolding from_values
creat env params = load_params env params btn2rel_params >>= from_values env
