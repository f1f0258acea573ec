-- ===== src/Filters/Commit.antt =====
-- src/filters/commit.c: the events of a line are handed to the client.
use libevfilter.Base.{Bool, Option, some, none, if◌then◌else◌}
use libevfilter.Event.{Next, Modify, pass, swallow}

-- `struct commit`: the client's data; its function is an argument of `modify`.
pub record Commit (P : Type 0) : Type 0 where
  pub priv : P

-- `commit` is the client's function, and `next` is none at the end of the line.
unfoldable pub modify :
    {P D : Type 0} → (commit : P → Next D) → Option (Next D) → Modify (Commit P) D
modify commit next c ev d = elim (commit c.priv ev d) [
  | none ↦ none
  | some (ev', d') ↦ elim next [ none ↦ swallow c ev' d' | some f ↦ pass f c ev' d' ]
]

-- What `filter_free` returns.
abbrev pub filter_free : {P : Type 0} → Commit P → P
filter_free c = c.priv

-- `evf_commit_alloc`.
unfoldable pub alloc : {P : Type 0} → Bool → P → Option (Commit P)
alloc has_memory priv = if has_memory then some (record { priv = priv }) else none
