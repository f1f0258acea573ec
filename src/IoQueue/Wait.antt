-- ===== src/IoQueue/Wait.antt =====
-- One round of `evf_io_queue_wait`, src/evf_io_queue.c: who is called.
use libevfilter.Base.{
  ℕ, zero, suc, ◌<◌, ◌≤◌, ◌≡◌, refl, sym, ◌∙◌, ◌≢◌, inl, inr, Bool, true, false, Option, some, List,
  [], ◌∷◌, ◌++◌, append-nil, append_assoc, arith, ◌==◌, if◌then◌else◌, length, Bool-cases, All,
  subst,
}
use libevfilter.IoQueue.Invariant.{IsFalling, has_fd, has_fd_above}
use libevfilter.IoQueue.{
  Memb, FdSet, fd_set, fd_clr, IoQueue, Host, has_rem, next_of, visit, wait_from, wait,
}

-- No two members lie at one address.
abbrev pub has_addr : ℕ → List Memb → Bool
has_addr a [] = false
has_addr a (m ∷ rest) = if m.addr == a then true else has_addr a rest

abbrev pub AreApart : List Memb → Type 0
AreApart [] = Unit
AreApart (m ∷ rest) = (has_addr m.addr rest ≡ false) × AreApart rest

-- A host that says which descriptors are ready, and whose callbacks note their descriptor and
-- leave the queue alone.
abbrev pub noting : (Memb → ℕ) → FdSet → Host (List ℕ)
noting ret ready = record {
  call = λ m q log. (ret m, q, log ++ (m.fd ∷ []));
  select = λ n s log. (true, ready);
  close = λ fd log. log;
  free = λ p log. log;
}

-- The descriptors of the members that are ready, in the order of the list.
abbrev pub called : FdSet → List Memb → List ℕ
called ready [] = []
called ready (m ∷ rest) = if ready m.fd then m.fd ∷ called ready rest else called ready rest

-- Is a descriptor watched when the members have been visited? One that was not ready is, and one
-- that was ready is if its callback has returned EVF_IO_QUEUE_OK.
abbrev pub watched_after : (Memb → ℕ) → FdSet → List Memb → FdSet → FdSet
watched_after ret ready [] s i = s i
watched_after ret ready (m ∷ rest) s i =
    if m.fd == i then (if ready i then ret m == 0 else true) else watched_after ret ready rest s i

pub has_addr-append :
    (a : ℕ) (xs ys : List Memb)
    → has_addr a (xs ++ ys) ≡ (if has_addr a xs then true else has_addr a ys)
has_addr-append a [] ys = refl
has_addr-append a (x ∷ xs) ys = ground (arith, has_addr-append a xs ys)

next_of-append :
    (pre : List Memb) (m : Memb) (rest : List Memb)
    → AreApart (pre ++ m ∷ rest)
    → next_of m.addr (pre ++ m ∷ rest) ≡ some rest
unfolding next_of
next_of-append [] m rest a = ground arith
next_of-append (p ∷ pre) m rest a =
    ground (arith, has_addr-append p.addr pre (m ∷ rest), next_of-append pre m rest a.1)

wait_from-cons :
    {W : Type 0} (h : Host W) (fuel : ℕ) (m : Memb) (ys : List Memb) (q : IoQueue) (w : W)
    {q₁ : IoQueue} {w₁ : W} {rest : List Memb}
    → visit h m q w ≡ (q₁, w₁)
    → next_of m.addr q₁.root ≡ some rest
    → wait_from h (suc fuel) (m ∷ ys) q w ≡ wait_from h fuel rest q₁ w₁
unfolding wait_from
wait_from-cons h fuel m ys q w e n = ground arith

module _ (ret : Memb → ℕ) (ready : FdSet) where
  abbrev visited : Memb → IoQueue → IoQueue
  visited m q = record q {
    rfds =
        if ready m.fd
        then (if ret m == 0 then q.rfds else fd_clr m.fd q.rfds)
        else fd_set m.fd q.rfds;
  }

  visit_lem :
      (m : Memb) (q : IoQueue) (log : List ℕ)
      → has_rem (ret m) ≡ false
      → q.rfds m.fd ≡ ready m.fd
      → visit (noting ret ready) m q log
        ≡ (visited m q, if ready m.fd then log ++ (m.fd ∷ []) else log)
  unfolding visit
  visit_lem m q log h e = rw e (elim (Bool-cases (ready m.fd)) [
    | inr idle ↦ rw idle
    | inl busy ↦ elim (Bool-cases (ret m == 0)) [
      | inl fine ↦ rw (busy, fine)
      | inr other ↦ rw (busy, other, h) (ground arith)
    ]
  ])

  visited_other : (m : Memb) (q : IoQueue) (i : ℕ) → i ≢ m.fd → (visited m q).rfds i ≡ q.rfds i
  visited_other m q i h = ground arith

  visited_self :
      (m : Memb) (q : IoQueue)
      → q.rfds m.fd ≡ ready m.fd
      → (visited m q).rfds m.fd ≡ (if ready m.fd then ret m == 0 else true)
  visited_self m q e = ground arith

  watched_after_out :
      (ys : List Memb) (s : FdSet) (i : ℕ)
      → has_fd i ys ≡ false
      → watched_after ret ready ys s i ≡ s i
  watched_after_out [] s i h = refl
  watched_after_out (y ∷ ys) s i h = ground (arith, watched_after_out ys s i)

  watched_after_same :
      (ys : List Memb) (s s' : FdSet) (i : ℕ)
      → s i ≡ s' i
      → watched_after ret ready ys s i ≡ watched_after ret ready ys s' i
  watched_after_same [] s s' i h = h
  watched_after_same (y ∷ ys) s s' i h = ground (arith, watched_after_same ys s s' i h)

  unvisited :
      (m : Memb) (q : IoQueue) (ys : List Memb)
      → All (λ n. n.fd < m.fd) ys
      → All (λ n. q.rfds n.fd ≡ ready n.fd) ys
      → All (λ n. (visited m q).rfds n.fd ≡ ready n.fd) ys
  unvisited m q [] f s = tt
  unvisited m q (y ∷ ys) f s =
      (visited_other m q y.fd (omega arith) ∙ s.0, unvisited m q ys f.1 s.1)

  watched_step :
      (m : Memb) (q : IoQueue) (ys : List Memb) (i : ℕ)
      → All (λ n. n.fd < m.fd) ys
      → q.rfds m.fd ≡ ready m.fd
      → watched_after ret ready ys (visited m q).rfds i ≡ watched_after ret ready (m ∷ ys) q.rfds i
  watched_step m q ys i f e = elim (Bool-cases (m.fd == i)) [
    | inl here ↦
        let at : m.fd ≡ i = ground arith in
        subst
          (λ j. watched_after ret ready ys (visited m q).rfds j ≡ (
            if m.fd == j
            then (if ready j then ret m == 0 else true)
            else watched_after ret ready ys q.rfds j))
          at
          (watched_after_out ys (visited m q).rfds m.fd (has_fd_above m.fd ys f)
            ∙ visited_self m q e
            ∙ ground arith)
    | inr other ↦
        rw other
          (watched_after_same ys (visited m q).rfds q.rfds i (visited_other m q i (ground arith)))
  ]

  logged :
      (m : Memb) (ys : List Memb) (log : List ℕ) (q' : IoQueue)
      → ◌≡◌ {A = Option (IoQueue × List ℕ)}
          (some (q', (if ready m.fd then log ++ (m.fd ∷ []) else log) ++ called ready ys))
          (some (q', log ++ called ready (m ∷ ys)))
  logged m ys log q' = ground (arith, append_assoc log (m.fd ∷ []) (called ready ys))

  -- The members that are still to be visited stand behind those that have been.
  loop :
      (fuel : ℕ) (pre ys : List Memb) (q : IoQueue) (log : List ℕ)
      → q.root ≡ pre ++ ys
      → AreApart (pre ++ ys)
      → IsFalling ys
      → All (λ m. has_rem (ret m) ≡ false) ys
      → All (λ m. q.rfds m.fd ≡ ready m.fd) ys
      → length ys ≤ fuel
      → (q' : IoQueue) × (wait_from (noting ret ready) fuel ys q log
          ≡ some (q', log ++ called ready ys))
        × (q'.root ≡ q.root)
        × (q'.cnt ≡ q.cnt)
        × ((i : ℕ) → q'.rfds i ≡ watched_after ret ready ys q.rfds i)
  unfolding wait_from
  loop fuel pre [] q log e a f r s l = (q, rw append-nil, refl, refl, λ i. refl)
  loop zero pre (m ∷ ys) q log e a f r s l = absurd (omega arith)
  loop (suc fuel) pre (m ∷ ys) q log e a f r s l =
      let log' = if ready m.fd then log ++ (m.fd ∷ []) else log in
      let back = append_assoc pre (m ∷ []) ys in
      let (q', run, root, cnt, set) =
        loop fuel (pre ++ (m ∷ [])) ys (visited m q) log' (e ∙ sym back)
          (subst AreApart (sym back) a) f.1 r.1 (unvisited m q ys f.0 s.1) (omega arith) in
      (
        q',
        wait_from-cons (noting ret ready) fuel m ys q log (visit_lem m q log r.0 s.0)
              (rw e (next_of-append pre m ys a))
            ∙ run
            ∙ logged m ys log q',
        root,
        cnt,
        λ i. set i ∙ watched_step m q ys i f.0 s.0,
      )

wait_root :
    (ret : Memb → ℕ) (ready : FdSet) (q : IoQueue) (log : List ℕ) (top : Memb) (rest : List Memb)
    (fuel : ℕ) {q' : IoQueue} {log' : List ℕ}
    → q.root ≡ top ∷ rest
    → wait_from (noting ret ready) fuel q.root (record q { rfds = ready }) log ≡ some (q', log')
    → wait (noting ret ready) fuel q log ≡ some (q', log', true)
unfolding wait
wait_root ret ready q log top rest fuel e run = ground arith

-- If no callback removes its member or changes the queue, then a round of a queue whose members
-- have falling descriptors and addresses of their own ends without fault, with fuel for one visit
-- to each member; it calls the callbacks of exactly the ready members, once each and in the order
-- of the list, keeps the members and the count, and leaves exactly those members unwatched that
-- were ready and whose callback did not return EVF_IO_QUEUE_OK.
pub wait_lem :
    (ret : Memb → ℕ) (ready : FdSet) (q : IoQueue) (log : List ℕ) (top : Memb) (rest : List Memb)
    → q.root ≡ top ∷ rest
    → IsFalling q.root
    → AreApart q.root
    → All (λ m. has_rem (ret m) ≡ false) q.root
    → (q' : IoQueue) × (wait (noting ret ready) (length q.root) q log
        ≡ some (q', log ++ called ready q.root, true))
      × (q'.root ≡ q.root)
      × (q'.cnt ≡ q.cnt)
      × ((i : ℕ) → q'.rfds i ≡ watched_after ret ready q.root ready i)
wait_lem ret ready q log top rest e f a r =
    let (q', run, root, cnt, set) =
      loop ret ready (length q.root) [] q.root (record q { rfds = ready }) log refl a f r
        (all_same q.root) (omega arith) in
    (q', wait_root ret ready q log top rest (length q.root) e run, root, cnt, set)
  where
    all_same : (xs : List Memb) → All (λ m. ready m.fd ≡ ready m.fd) xs
    all_same [] = tt
    all_same (x ∷ xs) = (refl, all_same xs)
