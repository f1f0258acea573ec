-- ===== src/Tests/Lines.antt =====
-- A line that is created for src/evf_line.c.
use libevfilter.Base.{
  ◌==◌, ◌≡◌, refl, inr, false, if◌then◌else◌, Option, none, some, List, [], ◌∷◌, arith,
}
use libevfilter.Base.Text.{codes}
use libevfilter.Param.Defs.{Err}
use libevfilter.FilterList.{Ptr, Node, Memory}
use libevfilter.FilterList.Chain.{IsChain}
use libevfilter.FilterList.Attach.{Line}
use libevfilter.Line.{World, line_made, line_refused, close, create, destroy}
use libevfilter.Line.Create.{IsReady, line_of, setup, working, create_links}
use libevfilter.Line.Destroy.{create-destroy}
use libevfilter.Line.CleanUp.{create_frees}

-- A profile with filters at 1 and 2.
abbrev cells : Ptr → Option Node
cells p =
    if p == 1
    then some (record { free = none; next = some 2 })
    else if p == 2
    then some (record { free = some none; next = none })
    else none

abbrev world : World
world = record { memory = record { cell = cells; freed = [] }; closed = [] }

world-IsReady : IsReady world.memory (1 ∷ 2 ∷ []) 5 6
world-IsReady = record {
  chain = (refl, (_, refl, (refl, (_, refl, refl))));
  apart = (refl, (refl, tt));
  fresh = (refl, (refl, tt));
  differ = refl;
}

abbrev both : List Ptr
both = 1 ∷ 2 ∷ []

create_links_example :
    (root : Option Ptr) × (m' : Memory) × (create
        (working 3 12 both 4 5 6 none)
        (codes "/dev/input/event0")
        (some 7)
        8
        false
        world
      ≡ some (
        line_made 4 (line_of 3 (codes "/dev/input/event0") root both),
        record world { memory = m' },
      ))
    × IsChain m'.cell root (1 ∷ 2 ∷ 5 ∷ 6 ∷ [])
    × (m'.freed ≡ [])
    × (m'.cell 6 ≡ some (record { free = some (some 7); next = none }))
create_links_example =
    create_links 3 12 both 4 5 6 none (some 7) (codes "/dev/input/event0") 8 false world
      world-IsReady (inr ground arith)

create-destroy_example :
    (line : Line) × (w₁ w₂ : World) × (create
        (working 3 12 both 4 5 6 none)
        (codes "/dev/input/event0")
        (some 7)
        0
        false
        world
      ≡ some (line_made 4 line, w₁))
    × (destroy 3 4 line w₁ ≡ some (some 7, w₂))
    × (w₂.memory.freed ≡ 1 ∷ 2 ∷ 6 ∷ 4 ∷ [])
    × (w₂.closed ≡ 3 ∷ [])
create-destroy_example =
    create-destroy 3 12 both 4 5 6 none (some 7) (codes "/dev/input/event0") 0 false world
      world-IsReady (inr ground arith)

create_frees_example :
    (m : Memory) × (create
        (setup 3 12 both (some 4) none (some 6) none)
        (codes "/dev/input/event0")
        (some 7)
        8
        false
        world
      ≡ some (line_refused (Err.errno 12), close 3 (record world { memory = m })))
    × (m.freed ≡ 6 ∷ 1 ∷ 2 ∷ 4 ∷ [])
create_frees_example =
    create_frees 3 12 both (some 4) none (some 6) none (some 7) (codes "/dev/input/event0") 8 false
      world (inr (inr (refl, refl))) (refl, tt) tt world-IsReady.chain world-IsReady.apart
      (inr ground arith)
