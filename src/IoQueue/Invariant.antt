-- ===== src/IoQueue/Invariant.antt =====
-- The order, the count and the descriptor set of an io queue: src/evf_io_queue.c.
use libevfilter.Base.{
  ℕ, suc, ◌+◌, ◌^◌, ◌<◌, ◌≤◌, ◌≡◌, refl, subst, ◌&&◌, inl, inr, Bool, true, false, Option, none,
  some, List, [], ◌∷◌, arith, ltb, ◌==◌, if◌then◌else◌, length, Bool-cases, All,
}
use mathlib.Core.Option.{some-injective}
use libevfilter.IoQueue.{Memb, IoQueue, list_insert, list_delete, new, add, rem}

-- The descriptors fall along the list.
abbrev pub IsFalling : List Memb → Type 0
IsFalling [] = Unit
IsFalling (m ∷ rest) = All (λ n. n.fd < m.fd) rest × IsFalling rest

abbrev pub has_fd : ℕ → List Memb → Bool
has_fd fd [] = false
has_fd fd (m ∷ rest) = if m.fd == fd then true else has_fd fd rest

-- Each member has a descriptor of its own, the list is sorted, a descriptor that is watched has a
-- member, and the count is the list's length.
pub record IsValid (q : IoQueue) : Type 0 where
  pub falling : IsFalling q.root
  pub watched : (fd : ℕ) → q.rfds fd ≡ true → has_fd fd q.root ≡ true
  pub counted : q.cnt ≡ length q.root
  pub small : length q.root < 2 ^ 32

-- A new queue, if there is memory for one, is valid and has no members.
pub new-IsValid :
    (has_memory : Bool) {q : IoQueue}
    → new has_memory ≡ some q
    → IsValid q × (q.root ≡ []) × (has_memory ≡ true)
unfolding new
new-IsValid false e = absurd (ground arith)
new-IsValid true {q} e =
    subst (λ q. IsValid q × (q.root ≡ []) × (true ≡ true)) (some-injective _ _ e)
      (
        record { falling = tt; watched = λ fd h. cc; counted = refl; small = omega arith },
        refl,
        refl,
      )

has_fd-list_insert :
    (fd : ℕ) (xs : List Memb) (m : Memb)
    → has_fd fd (list_insert xs m) ≡ (if m.fd == fd then true else has_fd fd xs)
unfolding list_insert
has_fd-list_insert fd [] m = refl
has_fd-list_insert fd (x ∷ xs) m = ground (arith, has_fd-list_insert fd xs m)

length-list_insert : (xs : List Memb) (m : Memb) → length (list_insert xs m) ≡ suc (length xs)
unfolding list_insert
length-list_insert [] m = refl
length-list_insert (x ∷ xs) m = ground (arith, length-list_insert xs m)

All-list_insert :
    (k : ℕ) (xs : List Memb) (m : Memb)
    → m.fd < k
    → All (λ n. n.fd < k) xs
    → All (λ n. n.fd < k) (list_insert xs m)
unfolding list_insert
All-list_insert k [] m h a = (h, tt)
All-list_insert k (x ∷ xs) m h a = elim (Bool-cases (ltb m.fd x.fd)) [
  | inl less ↦ rw less (a.0, All-list_insert k xs m h a.1)
  | inr more ↦ rw more (h, a)
]

All-weaken : (k l : ℕ) (xs : List Memb) → k ≤ l → All (λ n. n.fd < k) xs → All (λ n. n.fd < l) xs
All-weaken k l [] h a = tt
All-weaken k l (x ∷ xs) h a = (omega arith, All-weaken k l xs h a.1)

list_insert-IsFalling :
    (xs : List Memb) (m : Memb)
    → IsFalling xs
    → has_fd m.fd xs ≡ false
    → IsFalling (list_insert xs m)
unfolding list_insert
list_insert-IsFalling [] m f h = (tt, tt)
list_insert-IsFalling (x ∷ xs) m f h = elim (Bool-cases (ltb m.fd x.fd)) [
  | inl less ↦
      rw less (
        All-list_insert x.fd xs m (ground arith) f.0,
        list_insert-IsFalling xs m f.1 (ground arith),
      )
  | inr more ↦ rw more ((ground arith, All-weaken x.fd m.fd xs (ground arith) f.0), f)
]

pub has_fd_above : (fd : ℕ) (xs : List Memb) → All (λ n. n.fd < fd) xs → has_fd fd xs ≡ false
has_fd_above fd [] a = refl
has_fd_above fd (x ∷ xs) a = ground (arith, has_fd_above fd xs a.1)

All-list_delete :
    (k : ℕ) (xs : List Memb) (fd : ℕ)
    → All (λ n. n.fd < k) xs
    → All (λ n. n.fd < k) (list_delete xs fd)
unfolding list_delete
All-list_delete k [] fd a = tt
All-list_delete k (x ∷ xs) fd a = elim (Bool-cases (x.fd == fd)) [
  | inl hit ↦ rw hit a.1
  | inr miss ↦ rw miss (a.0, All-list_delete k xs fd a.1)
]

list_delete-IsFalling : (xs : List Memb) (fd : ℕ) → IsFalling xs → IsFalling (list_delete xs fd)
unfolding list_delete
list_delete-IsFalling [] fd f = tt
list_delete-IsFalling (x ∷ xs) fd f = elim (Bool-cases (x.fd == fd)) [
  | inl hit ↦ rw hit f.1
  | inr miss ↦ rw miss (All-list_delete x.fd xs fd f.0, list_delete-IsFalling xs fd f.1)
]

has_fd-list_delete :
    (i : ℕ) (xs : List Memb) (fd : ℕ)
    → IsFalling xs
    → has_fd i (list_delete xs fd) ≡ (if i == fd then false else has_fd i xs)
unfolding list_delete
has_fd-list_delete i [] fd f = ground arith
has_fd-list_delete i (x ∷ xs) fd f =
    ground (arith, has_fd-list_delete i xs fd f.1, has_fd_above x.fd xs f.0)

length-list_delete :
    (xs : List Memb) (fd : ℕ) → has_fd fd xs ≡ true → suc (length (list_delete xs fd)) ≡ length xs
unfolding list_delete
length-list_delete [] fd h = ground arith
length-list_delete (x ∷ xs) fd h = ground (arith, length-list_delete xs fd)

-- Is there memory?
abbrev pub is_given : Option ℕ → Bool
is_given none = false
is_given (some addr) = true

-- Adding a descriptor that the queue does not have, with room in its counter, keeps the queue
-- valid; with memory the descriptor is then a member and is watched, and the code says so, and
-- without memory the code says so and changes nothing. No other descriptor comes or goes.
pub add-IsValid :
    (q : IoQueue) (mem : Option ℕ) (fd read priv i : ℕ)
    → IsValid q
    → has_fd fd q.root ≡ false
    → suc (length q.root) < 2 ^ 32
    → let (q', done) = add q mem fd read priv in
      IsValid q'
      × (done ≡ is_given mem)
      × (has_fd i q'.root ≡ (if fd == i then is_given mem else has_fd i q.root))
      × (q'.rfds i ≡ (if i == fd then is_given mem else q.rfds i))
      × (q' ≡ (if is_given mem then q' else q))
unfolding add
add-IsValid q none fd read priv i v fresh small =
    (v, refl, ground arith, ground (arith, v.watched fd), refl)
add-IsValid q (some addr) fd read priv i v fresh small =
    let m : Memb = record { addr = addr; fd = fd; read = read; priv = priv } in
    (
      record {
        falling = list_insert-IsFalling q.root m v.falling fresh;
        watched = λ j h. ground (arith, has_fd-list_insert j q.root m, v.watched j);
        counted = ground (arith, length-list_insert q.root m, v.counted);
        small = ground (arith, length-list_insert q.root m);
      },
      refl,
      has_fd-list_insert i q.root m,
      refl,
      refl,
    )

-- Removing keeps the queue valid: a descriptor that was watched is then no member, and no other
-- one comes or goes.
pub rem-IsValid :
    (q : IoQueue) (fd i : ℕ)
    → IsValid q
    → IsValid (rem q fd)
      × (has_fd i (rem q fd).root ≡ (if q.rfds fd && (i == fd) then false else has_fd i q.root))
unfolding rem
rem-IsValid q fd i v = elim (Bool-cases (q.rfds fd)) [
  | inr not_watched ↦ rw not_watched (v, refl)
  | inl watched ↦
      let len = length-list_delete q.root fd (v.watched fd watched) in
      rw watched (
        record {
          falling = list_delete-IsFalling q.root fd v.falling;
          watched = λ j h. ground (arith, has_fd-list_delete j q.root fd v.falling, v.watched j);
          counted = ground (arith, len, v.counted, v.small);
          small = omega (arith, len, v.small);
        },
        has_fd-list_delete i q.root fd v.falling,
      )
]

-- `select` is called with a bound above every member: in a valid queue that is not empty every
-- descriptor lies below the first one plus 1.
pub select_bound :
    (q : IoQueue) (top : Memb) (rest : List Memb)
    → IsValid q
    → q.root ≡ top ∷ rest
    → All (λ m. m.fd < top.fd + 1) q.root
select_bound q top rest v e =
    let f : IsFalling (top ∷ rest) = subst IsFalling e v.falling in
    rw e (omega arith, All-weaken top.fd (top.fd + 1) rest (omega arith) f.0)
