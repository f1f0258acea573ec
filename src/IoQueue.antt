-- ===== src/IoQueue.antt =====
-- src/evf_io_queue.c: the queue of file descriptors that the daemon waits on.
pub mod Invariant
pub mod Wait
pub mod Removal
pub mod Destroy
use libevfilter.Base.{
  ℕ, zero, suc, ◌+◌, ◌-◌, ◌/◌, ◌%◌, ◌^◌, Bool, true, false, Option, none, some, List, [], ◌∷◌, ◌++◌,
  ltb, ◌==◌, if◌then◌else◌,
}

-- `struct evf_io_queue_memb`; `addr` is where it lies, and `next` is the list's order. A callback
-- is known by a number.
pub record Memb : Type 0 where
  pub addr : ℕ
  pub fd : ℕ
  pub read : ℕ
  pub priv : ℕ

-- `fd_set`, for the descriptors below FD_SETSIZE.
abbrev pub FdSet : Type 0
FdSet = ℕ → Bool

abbrev pub fd_set : ℕ → FdSet → FdSet
fd_set fd s = λ i. if i == fd then true else s i

abbrev pub fd_clr : ℕ → FdSet → FdSet
fd_clr fd s = λ i. if i == fd then false else s i

-- `struct evf_io_queue`.
pub record IoQueue : Type 0 where
  pub cnt : ℕ
  pub rfds : FdSet
  pub root : List Memb

-- The flags of a callback's result.
abbrev pub has_close : ℕ → Bool
has_close flags = flags / 2 % 2 == 1

abbrev pub has_rem : ℕ → Bool
has_rem flags = flags % 2 == 1

abbrev pub has_dfree : ℕ → Bool
has_dfree flags = flags / 4 % 2 == 1

unfoldable pub list_insert : List Memb → Memb → List Memb
list_insert [] m = m ∷ []
list_insert (here ∷ rest) m =
    if ltb m.fd here.fd then here ∷ list_insert rest m else m ∷ here ∷ rest

unfoldable pub list_delete : List Memb → ℕ → List Memb
list_delete [] fd = []
list_delete (here ∷ rest) fd = if here.fd == fd then rest else here ∷ list_delete rest fd

-- `evf_io_queue_new`; `none` is NULL.
unfoldable pub new : Bool → Option IoQueue
new has_memory =
    if has_memory then some (record { cnt = 0; rfds = λ _. false; root = [] }) else none

-- `unsigned int` steps.
abbrev pub inc : ℕ → ℕ
inc n = (n + 1) % 2 ^ 32

abbrev pub dec : ℕ → ℕ
dec n = (n + 2 ^ 32 - 1) % 2 ^ 32

-- `evf_io_queue_add` with what `malloc` returns; the second part is the code's result.
unfoldable pub add : IoQueue → Option ℕ → (fd read priv : ℕ) → IoQueue × Bool
unfolding list_insert
add q none fd read priv = (q, false)
add q (some addr) fd read priv = (
  record {
    cnt = inc q.cnt;
    rfds = fd_set fd q.rfds;
    root = list_insert q.root (record { addr = addr; fd = fd; read = read; priv = priv });
  },
  true,
)

-- `evf_io_queue_rem`.
unfoldable pub rem : IoQueue → ℕ → IoQueue
unfolding list_delete
rem q fd =
    if q.rfds fd
    then record { cnt = dec q.cnt; rfds = fd_clr fd q.rfds; root = list_delete q.root fd }
    else q

-- `evf_io_queue_get_count`.
unfoldable pub get_count : IoQueue → ℕ
get_count q = q.cnt

-- What `close` and `free` were called with, in order.
pub record Released : Type 0 where
  pub closed : List ℕ
  pub freed_priv : List ℕ
  pub freed_memb : List ℕ

-- The loop of `evf_io_queue_destroy`; `prev` is freed in the round after its own.
unfoldable pub destroy_from : List Memb → Option ℕ → ℕ → Released → Released
destroy_from [] prev flags r = r
destroy_from (here ∷ rest) prev flags r = destroy_from rest (some here.addr) flags (record {
  closed = if has_close flags then r.closed ++ (here.fd ∷ []) else r.closed;
  freed_priv = if has_dfree flags then r.freed_priv ++ (here.priv ∷ []) else r.freed_priv;
  freed_memb = elim prev [ none ↦ r.freed_memb | some p ↦ r.freed_memb ++ (p ∷ []) ];
})

-- `evf_io_queue_destroy`, up to the queue itself.
unfoldable pub destroy : IoQueue → ℕ → Released
unfolding destroy_from
destroy q flags =
    destroy_from q.root none flags (record { closed = []; freed_priv = []; freed_memb = [] })

-- `here->next`: what stands behind the member at an address. `none` is a read of freed memory.
unfoldable pub next_of : ℕ → List Memb → Option (List Memb)
next_of addr [] = none
next_of addr (m ∷ rest) = if m.addr == addr then some rest else next_of addr rest

-- What the program does in a callback: its result, the queue, which it may change, and the rest
-- of the program's state; and `select`, its result and the descriptors that are ready.
pub record Host (W : Type 0) : Type 0 where
  pub call : Memb → IoQueue → W → ℕ × IoQueue × W
  pub select : ℕ → FdSet → W → Bool × FdSet
  -- `close` and `free` of a descriptor and of a pointer
  pub close : ℕ → W → W
  pub free : ℕ → W → W

module _ {W : Type 0} (h : Host W) where
  -- What follows a callback that has not returned EVF_IO_QUEUE_OK.
  unfoldable pub settle : Memb → ℕ → IoQueue → W → IoQueue × W
  unfolding list_delete
  settle here ret q w =
      let w₁ = if has_close ret then h.close here.fd w else w in
      let w₂ = if has_dfree ret then h.free here.priv w₁ else w₁ in
      let root' = if has_rem ret then list_delete q.root here.fd else q.root in
      (record q { rfds = fd_clr here.fd q.rfds; root = root' }, w₂)

  -- One round of the loop of `evf_io_queue_wait`.
  unfoldable pub visit : Memb → IoQueue → W → IoQueue × W
  unfolding settle
  visit here q w =
      if q.rfds here.fd
      then (let (ret, q', w') = h.call here q w in
          if ret == 0 then (q', w') else settle here ret q' w')
      else (record q { rfds = fd_set here.fd q.rfds }, w)

  -- The loop, `here` being the head of the list. `none` is a read of freed memory or the end of
  -- the fuel.
  unfoldable pub wait_from : ℕ → List Memb → IoQueue → W → Option (IoQueue × W)
  wait_from fuel [] q w = some (q, w)
  wait_from zero (here ∷ rest) q w = none
  wait_from (suc fuel) (here ∷ rest) q w =
      let (q', w') = visit here q w in
      elim (next_of here.addr q'.root) [ none ↦ none | some rest' ↦ wait_from fuel rest' q' w' ]

  -- `evf_io_queue_wait`; the Boolean is false for a negative result of `select`.
  unfoldable pub wait : ℕ → IoQueue → W → Option (IoQueue × W × Bool)
  unfolding wait_from
  wait fuel q w = elim q.root [
    | [] ↦ some (q, w, true)
    | top ∷ rest ↦
        let (fine, ready) = h.select (top.fd + 1) q.rfds w in
        if fine
        then elim (wait_from fuel q.root (record q { rfds = ready }) w) [
          | none ↦ none
          | some (q', w') ↦ some (q', w', true)
        ]
        else some (record q { rfds = ready }, w, false)
  ]
