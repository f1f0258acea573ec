-- ===== src/Filters/AtHandle.antt =====
-- What the filters of src/filters at a handle share.
use libevfilter.Base.{◌≡◌, arith, Option, none, some, List, [], ◌∷◌, ◌++◌}
use libevfilter.Event.{Event, Next, Modify}
use libevfilter.Param.Defs.{Err, Result, done, failed, fault, Env}
use libevfilter.Handle.{Store}

-- The end of a `creat` function: the filter, NULL with the error number, or an access to a handle
-- that is freed.
unfoldable pub made : {F S : Type 0} → Env F → Option (Option S × Store) → Result (S × Store)
made env none = fault
made env (some (none, s)) = failed (Err.errno env.errno)
made env (some (some f, s)) = done (f, s)

-- What leaves along the line, and what leaves through a handle.
pub record Outs : Type 0 where
  pub line : List Event
  pub handle : List Event

abbrev pub to_line : Next Outs
to_line ev o = some (ev, record o { line = o.line ++ (ev ∷ []) })

abbrev pub to_handle : Next Outs
to_handle ev o = some (ev, record o { handle = o.handle ++ (ev ∷ []) })

-- A filter is given the events of a list in turn.
unfoldable pub feed : {S D : Type 0} → Modify S D → S → List Event → D → Option (S × D)
feed modify s [] d = some (s, d)
feed modify s (ev ∷ evs) d = elim (modify s ev d) [
  | none ↦ none
  | some (s', _, d') ↦ feed modify s' evs d'
]

pub feed-cons :
    {S D : Type 0} (modify : Modify S D) (s : S) (ev : Event) (evs : List Event) (d : D) {s' : S}
    {ev' : Event} {d' : D} {r : Option (S × D)}
    → modify s ev d ≡ some (s', ev', d')
    → feed modify s' evs d' ≡ r
    → feed modify s (ev ∷ evs) d ≡ r
unfolding feed
feed-cons modify s ev evs d e f = ground (arith, e, f)
