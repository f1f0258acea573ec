-- ===== src/IoQueue/Destroy.antt =====
-- What `evf_io_queue_destroy` of src/evf_io_queue.c releases.
use libevfilter.Base.{
  ℕ, ◌≡◌, refl, Option, none, some, List, [], ◌∷◌, ◌++◌, append-nil, append_assoc, arith,
  if◌then◌else◌,
}
use libevfilter.IoQueue.{Memb, IoQueue, Released, has_close, has_dfree, destroy_from, destroy}

-- All but the last.
abbrev pub but_last : List ℕ → List ℕ
but_last [] = []
but_last (x ∷ []) = []
but_last (x ∷ y ∷ rest) = x ∷ but_last (y ∷ rest)

abbrev pub fds : List Memb → List ℕ
fds [] = []
fds (m ∷ rest) = m.fd ∷ fds rest

abbrev pub privs : List Memb → List ℕ
privs [] = []
privs (m ∷ rest) = m.priv ∷ privs rest

abbrev pub addrs : List Memb → List ℕ
addrs [] = []
addrs (m ∷ rest) = m.addr ∷ addrs rest

-- What the loop frees of the members: the one before, if there is one, and all but the last.
abbrev freed_from : Option ℕ → List Memb → List ℕ
freed_from none xs = but_last (addrs xs)
freed_from (some p) xs = but_last (p ∷ addrs xs)

destroy_from_lem :
    (xs : List Memb) (prev : Option ℕ) (flags : ℕ) (r : Released)
    → destroy_from xs prev flags r ≡ record {
      closed = if has_close flags then r.closed ++ fds xs else r.closed;
      freed_priv = if has_dfree flags then r.freed_priv ++ privs xs else r.freed_priv;
      freed_memb = r.freed_memb ++ freed_from prev xs;
    }
unfolding destroy_from
destroy_from_lem [] none flags r =
    ground (arith, append-nil r.closed, append-nil r.freed_priv, append-nil r.freed_memb)
destroy_from_lem [] (some p) flags r =
    ground (arith, append-nil r.closed, append-nil r.freed_priv, append-nil r.freed_memb)
destroy_from_lem (x ∷ xs) none flags r = rw (destroy_from_lem xs (some x.addr) flags) (
    ground (
      arith,
      append_assoc r.closed (x.fd ∷ []) (fds xs),
      append_assoc r.freed_priv (x.priv ∷ []) (privs xs),
    ))
destroy_from_lem (x ∷ xs) (some p) flags r = rw (destroy_from_lem xs (some x.addr) flags) (
    ground (
      arith,
      append_assoc r.closed (x.fd ∷ []) (fds xs),
      append_assoc r.freed_priv (x.priv ∷ []) (privs xs),
      append_assoc r.freed_memb (p ∷ []) (but_last (x.addr ∷ addrs xs)),
    ))

-- Destroying a queue closes every descriptor exactly if EVF_IO_QUEUE_CLOSE is given and frees every
-- private pointer exactly if EVF_IO_QUEUE_DFREE is, in the list's order; of the members it frees
-- all but the last one, which is lost.
pub destroy_lem :
    (q : IoQueue) (flags : ℕ)
    → ((destroy q flags).closed ≡ (if has_close flags then fds q.root else []))
      × ((destroy q flags).freed_priv ≡ (if has_dfree flags then privs q.root else []))
      × ((destroy q flags).freed_memb ≡ but_last (addrs q.root))
unfolding destroy
destroy_lem q flags = rw (destroy_from_lem q.root none flags) (refl, refl, refl)
