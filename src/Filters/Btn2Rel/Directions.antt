-- ===== src/Filters/Btn2Rel/Directions.antt =====
-- Which way src/filters/btn2rel.c moves the pointer.
use libevfilter.Base.{ℕ, ◌<◌, ◌≡◌, ◌≢◌, true, Option, some, List, [], ◌∷◌, arith, All}
use libevfilter.Base.Int.{ℤ, pos, negsuc, ==ℤ_ne}
use libevfilter.Event.{Event, ev_key, ev_rel, rel_x, rel_y, nonzero, emit}
use libevfilter.Filters.Btn2Rel.{Btn2Rel, Buttons, modify, from_values}
use libevfilter.Param.Defs.{Env, Value, done}
use libevfilter.Param.Load.{or_errno}

-- The seven keys of a configuration, in the order of the table.
abbrev pub values : {F : Type 0} → (up down left right lb mb rb : ℕ) → List (Value F)
values up down left right lb mb rb =
    Value.int (pos up)
    ∷ Value.int (pos down)
    ∷ Value.int (pos left)
    ∷ Value.int (pos right)
    ∷ Value.int (pos lb)
    ∷ Value.int (pos mb)
    ∷ Value.int (pos rb)
    ∷ []

-- A key press, and a movement.
abbrev pub pressed : Event → ℕ → ℤ → Event
pressed ev key value = record ev { type = ev_key; code = key; value = value }

abbrev pub movement : Event → ℕ → ℤ → Event
movement ev axis step = record ev { type = ev_rel; code = axis; value = step }

-- The axes are no configured keys: their numbers are those of NO_KEY and KEY_ESC.
abbrev pub AreKeys : List ℕ → Type 0
AreKeys = All (λ k. 1 < k)

-- The keys by which the pointer is moved are different ones, and so are those for the buttons.
pub record IsProper (up down left right lb mb rb : ℕ) : Type 0 where
  pub keys : AreKeys (up ∷ down ∷ left ∷ right ∷ lb ∷ mb ∷ rb ∷ [])
  pub up_down : up ≢ down
  pub up_left : up ≢ left
  pub up_right : up ≢ right
  pub down_left : down ≢ left
  pub down_right : down ≢ right
  pub left_right : left ≢ right

-- What is sent: a step along an axis.
abbrev pub sent_step : Btn2Rel → Event → ℕ → ℤ → Option (Btn2Rel × Event × List Event)
sent_step s ev axis step = some (s, movement ev axis step, movement ev axis step ∷ [])

-- The data that the table's values give.
abbrev config : (up down left right lb mb rb : ℕ) → Btn2Rel
config up down left right lb mb rb = record {
  key_up = pos down;
  key_down = pos up;
  key_left = pos left;
  key_right = pos right;
  right_btn = pos rb;
  middle_btn = pos mb;
  left_btn = pos lb;
  eat_next_syn = pos 0;
}

module _ (b : Buttons) (up down left right lb mb rb : ℕ)
    (p : IsProper up down left right lb mb rb) where
  up_lem :
      (ev : Event) (value : ℤ)
      → nonzero value ≡ true
      → let s = config up down left right lb mb rb in
        modify b emit s (pressed ev up value) [] ≡ sent_step s ev rel_y (negsuc 1)
  unfolding modify
  up_lem ev value h = ground arith

  down_lem :
      (ev : Event) (value : ℤ)
      → nonzero value ≡ true
      → let s = config up down left right lb mb rb in
        modify b emit s (pressed ev down value) [] ≡ sent_step s ev rel_y (pos 2)
  unfolding modify
  down_lem ev value h = ground arith

  left_lem :
      (ev : Event) (value : ℤ)
      → nonzero value ≡ true
      → let s = config up down left right lb mb rb in
        modify b emit s (pressed ev left value) [] ≡ sent_step s ev rel_x (negsuc 1)
  unfolding modify
  left_lem ev value h = ground arith

  right_lem :
      (ev : Event) (value : ℤ)
      → nonzero value ≡ true
      → let s = config up down left right lb mb rb in
        modify b emit s (pressed ev right value) [] ≡ sent_step s ev rel_x (pos 2)
  unfolding modify
  right_lem ev value h = ground arith

from_values-config :
    {F : Type 0} (env : Env F) (up down left right lb mb rb : ℕ) {s : Btn2Rel}
    → from_values env (values up down left right lb mb rb) ≡ done s
    → config up down left right lb mb rb ≡ s
unfolding from_values or_errno
from_values-config env up down left right lb mb rb e = ground arith

-- If the seven keys have codes above 1 and those of the four directions differ, the filter that
-- `evf_btn2rel_creat` makes of the table's values sends, at each press or repeat of a direction's
-- key, one movement and nothing else: up and left are negative, down and right positive.
pub directions :
    {F : Type 0} (env : Env F) (b : Buttons) (up down left right lb mb rb : ℕ) (s : Btn2Rel)
    (ev : Event) (value : ℤ)
    → IsProper up down left right lb mb rb
    → from_values env (values up down left right lb mb rb) ≡ done s
    → nonzero value ≡ true
    → (modify b emit s (pressed ev up value) [] ≡ sent_step s ev rel_y (negsuc 1))
      × (modify b emit s (pressed ev down value) [] ≡ sent_step s ev rel_y (pos 2))
      × (modify b emit s (pressed ev left value) [] ≡ sent_step s ev rel_x (negsuc 1))
      × (modify b emit s (pressed ev right value) [] ≡ sent_step s ev rel_x (pos 2))
directions env b up down left right lb mb rb s ev value p e h =
    rw (← from_values-config env up down left right lb mb rb e) (
      up_lem b up down left right lb mb rb p ev value h,
      down_lem b up down left right lb mb rb p ev value h,
      left_lem b up down left right lb mb rb p ev value h,
      right_lem b up down left right lb mb rb p ev value h,
    )

-- If the left button has no key, which NO_KEY (0) stands for, while the middle and the right one
-- have keys that are not the left button's code, the key for left is not that for up or down, and
-- the key for right is not 0, then a press of the key for left sends no movement along x: its code
-- is taken for that of the left button, and the event that is sent has the left button's code.
pub unset_left_button :
    (b : Buttons) (s : Btn2Rel) (ev : Event) (value : ℤ) (left : ℕ)
    → s.key_left ≡ pos left
    → s.key_up ≢ pos left
    → s.key_down ≢ pos left
    → s.key_right ≢ pos 0
    → s.left_btn ≡ pos 0
    → s.middle_btn ≢ pos b.btn_left
    → s.right_btn ≢ pos b.btn_left
    → nonzero value ≡ true
    → let sent = movement ev b.btn_left (negsuc 1) in
      modify b emit s (pressed ev left value) [] ≡ some (s, sent, sent ∷ [])
unfolding modify
unset_left_button b s ev value left l u d r lb mb rb h =
    rw (l, lb)
      (ground (
        arith,
        ==ℤ_ne (pos left) s.key_up,
        ==ℤ_ne (pos left) s.key_down,
        ==ℤ_ne (pos 0) s.key_right,
        ==ℤ_ne (pos b.btn_left) s.middle_btn,
        ==ℤ_ne (pos b.btn_left) s.right_btn,
      ))
