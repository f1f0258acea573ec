-- ===== src/Tests/Queues.antt =====
-- Queues of descriptors for src/evf_io_queue.c.
use libevfilter.Base.{
  ℕ, ◌+◌, ◌≡◌, refl, arith, true, false, ◌&&◌, ◌==◌, if◌then◌else◌, some, List, [], ◌∷◌, ◌++◌,
  length,
}
use libevfilter.IoQueue.{IoQueue, Memb, FdSet, add, rem, wait}
use libevfilter.IoQueue.Invariant.{IsValid, has_fd, is_given, add-IsValid, rem-IsValid}
use libevfilter.IoQueue.Wait.{noting, called, watched_after, wait_lem}

abbrev memb : ℕ → Memb
memb fd = record { addr = 1000 + fd; fd = fd; read = 0; priv = 2000 + fd }

abbrev membs : List Memb
membs = memb 9 ∷ memb 5 ∷ []

abbrev queue : IoQueue
queue = record { cnt = 2; rfds = λ i. (i == 9); root = membs }

queue-IsValid : IsValid queue
queue-IsValid = record {
  falling = ((omega arith, tt), (tt, tt));
  watched = λ fd h. ground (arith, h);
  counted = refl;
  small = omega arith;
}

add-IsValid_example :
    let (q', done) = add queue (some 77) 7 0 0 in
    IsValid q'
    × (done ≡ is_given (some 77))
    × (has_fd 7 q'.root ≡ (if 7 == 7 then is_given (some 77) else has_fd 7 queue.root))
    × (q'.rfds 7 ≡ (if 7 == 7 then is_given (some 77) else queue.rfds 7))
    × (q' ≡ (if is_given (some 77) then q' else queue))
add-IsValid_example = add-IsValid queue (some 77) 7 0 0 7 queue-IsValid refl (omega arith)

rem-IsValid_example :
    IsValid (rem queue 9)
    × (has_fd 9 (rem queue 9).root
        ≡ (if queue.rfds 9 && (9 == 9) then false else has_fd 9 queue.root))
rem-IsValid_example = rem-IsValid queue 9 9 queue-IsValid

-- The lower descriptor is ready, and its callback asks to close it.
abbrev closing : Memb → ℕ
closing m = 2

abbrev five : FdSet
five i = i == 5

wait_lem_example :
    (q' : IoQueue) × (wait (noting closing five) (length queue.root) queue []
      ≡ some (q', [] ++ called five queue.root, true))
    × (q'.root ≡ queue.root)
    × (q'.cnt ≡ queue.cnt)
    × ((i : ℕ) → q'.rfds i ≡ watched_after closing five queue.root five i)
wait_lem_example =
    wait_lem closing five queue [] (memb 9) (memb 5 ∷ []) refl ((omega arith, tt), (tt, tt))
      (refl, (refl, tt)) (refl, (refl, tt))
