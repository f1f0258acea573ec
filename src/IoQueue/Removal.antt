-- ===== src/IoQueue/Removal.antt =====
-- Callbacks of src/evf_io_queue.c that have their member removed.
use libevfilter.Base.{ℕ, zero, suc, ◌≡◌, refl, true, false, none, List, [], ◌∷◌, ◌++◌, arith, subst}
use libevfilter.IoQueue.Invariant.{has_fd}
use libevfilter.IoQueue.{Memb, IoQueue, Host, has_rem, list_delete, next_of, visit, wait_from}
use libevfilter.IoQueue.Wait.{AreApart, has_addr, has_addr-append}

next_of-none : (a : ℕ) (xs : List Memb) → has_addr a xs ≡ false → next_of a xs ≡ none
unfolding next_of
next_of-none a [] h = refl
next_of-none a (x ∷ xs) h = ground (arith, next_of-none a xs)

list_delete-append :
    (pre : List Memb) (m : Memb) (rest : List Memb)
    → has_fd m.fd pre ≡ false
    → list_delete (pre ++ m ∷ rest) m.fd ≡ pre ++ rest
unfolding list_delete
list_delete-append [] m rest h = ground arith
list_delete-append (p ∷ pre) m rest h = ground (arith, list_delete-append pre m rest)

not_after :
    (pre : List Memb) (m : Memb) (rest : List Memb)
    → AreApart (pre ++ m ∷ rest)
    → has_addr m.addr (pre ++ rest) ≡ false
not_after [] m rest a = a.0
not_after (p ∷ pre) m rest a =
    ground (arith, has_addr-append p.addr pre (m ∷ rest), not_after pre m rest a.1)

visit_root :
    {W : Type 0} (h : Host W) (ret : ℕ) (m : Memb) (q : IoQueue) (w w' : W)
    → q.rfds m.fd ≡ true
    → h.call m q w ≡ (ret, q, w')
    → has_rem ret ≡ true
    → (visit h m q w).0.root ≡ list_delete q.root m.fd
unfolding visit
visit_root h ret m q w w' s c r = ground arith

wait_from_stop :
    {W : Type 0} (h : Host W) (fuel : ℕ) (m : Memb) (rest : List Memb) (q : IoQueue) (w : W)
    → next_of m.addr (visit h m q w).0.root ≡ none
    → wait_from h (suc fuel) (m ∷ rest) q w ≡ none
unfolding wait_from
wait_from_stop h fuel m rest q w n = rw (wait_from, n)

-- When a ready member's callback leaves the queue alone and returns flags with EVF_IO_QUEUE_REM,
-- the loop reads the successor of the member that it has just freed: the round ends in a fault,
-- whatever the fuel, for every member whose descriptor no member in front of it has.
pub removal_faults :
    {W : Type 0} (h : Host W) (fuel ret : ℕ) (pre : List Memb) (m : Memb) (rest : List Memb)
    (q : IoQueue) (w w' : W)
    → q.root ≡ pre ++ m ∷ rest
    → AreApart q.root
    → has_fd m.fd pre ≡ false
    → q.rfds m.fd ≡ true
    → h.call m q w ≡ (ret, q, w')
    → has_rem ret ≡ true
    → wait_from h fuel (m ∷ rest) q w ≡ none
unfolding wait_from
removal_faults h zero ret pre m rest q w w' e a f s c r = refl
removal_faults h (suc fuel) ret pre m rest q w w' e a f s c r =
    let gone : next_of m.addr (list_delete q.root m.fd) ≡ none =
      rw (e, list_delete-append pre m rest f)
        (next_of-none m.addr (pre ++ rest) (not_after pre m rest (subst AreApart e a))) in
    wait_from_stop h fuel m rest q w (rw (visit_root h ret m q w w' s c r) gone)
