-- ===== src/Filters/Barrier/Refine.antt =====
-- src/filters/barrier.c against a bounded queue.
use native.Mathlib.Numerals.{add-one}
use libevfilter.Base.{
  ℕ, zero, suc, ◌≤◌, ◌<◌, ◌≡◌, refl, sym, ◌∙◌, inl, inr, Bool, true, false, ◌&&◌, some, List, [],
  ◌∷◌, ◌++◌, append-nil, append_assoc, arith, ltb, ◌==◌, if◌then◌else◌, length, take, Bool-cases,
  set, ap, length-set,
}
use libevfilter.Event.{Event, ev_syn, syn_report, emit, run, run-cons}
use libevfilter.Filters.Barrier.{Barrier, flush_from, flush_queue, insert_queue, modify}

abbrev pub is_report : Event → Bool
is_report ev = (ev.type == ev_syn) && (ev.code == syn_report)

-- What a barrier promises: events wait, at most `size` of them, later ones are lost; a sync event
-- sends those that wait, in their order, and then itself.
abbrev pub queue_run : ℕ → List Event → List Event → List Event
queue_run size q [] = []
queue_run size q (ev ∷ evs) =
    let sent = q ++ ev ∷ queue_run size [] evs in
    let kept = queue_run size (if ltb (length q) size then q ++ (ev ∷ []) else q) evs in
    if is_report ev then sent else kept

-- The places in front of the index hold what waits.
pub record IsValid (b : Barrier) : Type 0 where
  pub in_size : b.queue_index ≤ b.queue_size
  pub places : length b.queue ≡ b.queue_size

abbrev pub waiting : Barrier → List Event
waiting b = take b.queue_index b.queue

length-take : (n : ℕ) (q : List Event) → n ≤ length q → length (take n q) ≡ n
length-take zero q h = refl
length-take (suc n) [] h = elim h [ ]
length-take (suc n) (x ∷ q) h = ap suc (length-take n q (omega arith))

take-set :
    (n : ℕ) (q : List Event) (ev : Event)
    → n < length q
    → take (suc n) (set q n ev) ≡ take n q ++ (ev ∷ [])
take-set n [] ev h = absurd (omega arith)
take-set zero (x ∷ q) ev h = refl
take-set (suc n) (x ∷ q) ev h = ap (λ t. x ∷ t) (take-set n q ev (omega arith))

-- The loop sends the places in front of the index, and a recording end leaves them as they are.
flush_from_lem :
    (n : ℕ) (q out : List Event)
    → n ≤ length q
    → flush_from emit n q out ≡ some (q, out ++ take n q)
unfolding flush_from
flush_from_lem zero q out h = rw append-nil
flush_from_lem (suc n) [] out h = elim h [ ]
flush_from_lem (suc n) (x ∷ q) out h =
    rw (flush_from_lem n q (out ++ (x ∷ [])) (omega arith), append_assoc)

-- Every event leaves a barrier valid, whatever it does.
pub insert_queue-IsValid : (b : Barrier) (ev : Event) → IsValid b → IsValid (insert_queue b ev)
unfolding insert_queue
insert_queue-IsValid b ev v = ground (arith, length-set b.queue b.queue_index ev)

waiting-insert_queue :
    (b : Barrier) (ev : Event)
    → IsValid b
    → waiting (insert_queue b ev)
      ≡ (if ltb (length (waiting b)) b.queue_size then waiting b ++ (ev ∷ []) else waiting b)
unfolding insert_queue
waiting-insert_queue b ev v =
    rw (length-take b.queue_index b.queue (omega arith))
      (ground (arith, take-set b.queue_index b.queue ev, add-one b.queue_index))

queue_size-insert_queue : (b : Barrier) (ev : Event) → (insert_queue b ev).queue_size ≡ b.queue_size
unfolding insert_queue
queue_size-insert_queue b ev = ground arith

queue_run-insert_queue :
    (b : Barrier) (ev : Event) (evs : List Event)
    → IsValid b
    → is_report ev ≡ false
    → queue_run b.queue_size (waiting b) (ev ∷ evs)
      ≡ queue_run (insert_queue b ev).queue_size (waiting (insert_queue b ev)) evs
queue_run-insert_queue b ev evs v h =
    rw (h, waiting-insert_queue b ev v, queue_size-insert_queue b ev)

abbrev emptied : Barrier → Barrier
emptied b = record b { queue_index = 0 }

modify-report :
    (b : Barrier) (ev : Event)
    → IsValid b
    → is_report ev ≡ true
    → modify emit b ev [] ≡ some (emptied b, ev, waiting b ++ (ev ∷ []))
unfolding modify flush_queue
modify-report b ev v h = rw (h, flush_from_lem b.queue_index b.queue [] (omega arith))

modify-other :
    (b : Barrier) (ev : Event)
    → is_report ev ≡ false
    → modify emit b ev [] ≡ some (insert_queue b ev, ev, [])
unfolding modify
modify-other b ev h = rw h

-- A valid barrier behaves as the bounded queue of the events that wait in it: over any stream it
-- does not fail, it sends what the queue sends, and it is left valid.
pub run-queue_run :
    (b : Barrier) (evs : List Event)
    → IsValid b
    → (b' : Barrier) × (run (modify emit) b evs ≡ some (b', queue_run b.queue_size (waiting b) evs))
      × IsValid b'
unfolding run
run-queue_run b [] v = (b, refl, v)
run-queue_run b (ev ∷ evs) v = elim (Bool-cases (is_report ev)) [
  | inl rep ↦
      let (b', e, v') = run-queue_run (emptied b) evs (ground arith) in
      (
        b',
        rw (rep, ← append_assoc (waiting b) (ev ∷ []) (queue_run b.queue_size [] evs))
            (run-cons (modify emit) ev evs (modify-report b ev v rep) e),
        v',
      )
  | inr other ↦
      let (b', e, v') = run-queue_run (insert_queue b ev) evs (insert_queue-IsValid b ev v) in
      (
        b',
        run-cons (modify emit) ev evs (modify-other b ev other) e
            ∙ ap (λ out. some (b', out)) (sym (queue_run-insert_queue b ev evs v other)),
        v',
      )
]
