-- ===== src/Handle/Faults.antt =====
-- Where src/evf_handle.c loses handles.
use libevfilter.Base.{◌≡◌, ◌≢◌, false, none, some, List, ◌∷◌, arith}
use libevfilter.Base.Text.{Text}
use libevfilter.Handle.{
  Ptr, Handle, Store, write, has_front, handle_free, handle_lookup, destroy, detach,
}

-- Freeing the second handle of the list makes the list begin behind it: the first handle stays
-- allocated, and is in the list no more.
pub free_second_loses_first :
    (s : Store) (a b : Ptr) (rest : List Ptr)
    → s.handles ≡ a ∷ b ∷ rest
    → a ≢ b
    → ((handle_free b s).handles ≡ rest) × ((handle_free b s).cell a ≡ s.cell a)
unfolding handle_free
free_second_loses_first s a b rest e ne = (ground arith, ground arith)

-- The first handle of the list, which is in it once, is never freed: the call does nothing.
pub free_first_does_nothing :
    (s : Store) (a : Ptr) (rest : List Ptr)
    → s.handles ≡ a ∷ rest
    → has_front a s.handles ≡ false
    → handle_free a s ≡ s
unfolding handle_free
free_first_does_nothing s a rest e f = rw f

-- When the last sender leaves a handle to which a filter is attached, its count stays 1; when
-- that filter leaves too, the handle is kept, with nobody left to free it.
pub leaves_are_lost :
    (s : Store) (p : Ptr) (h : Handle) (f : Ptr) (name : Text)
    → s.cell p ≡ some h
    → h.refcount ≡ 1
    → h.filter ≡ some f
    → handle_lookup name s ≡ some (some p)
    → (destroy p s ≡ some s)
      × (detach name s ≡ some (write p (some (record h { filter = none })) s))
unfolding destroy detach
leaves_are_lost s p h f name e c g l = (ground arith, ground arith)
