-- ===== src/Graph/Bound.antt =====
-- A ticket's graph is resumed six times at most before it ends or raises.
use mathlib.Core.Path.{subst}
use ticket_graph.Prelude.{
  ℕ, ◌-◌, ◌≤◌, ◌<◌, ◌≡◌, inl, inr, Option, none, some, List, [], ◌∷◌, arith, length, Option-cases,
  nat_eq, string_eq,
}
use ticket_graph.Json.{Json}
use ticket_graph.Workflows.{Config}
use ticket_graph.Models.{Ticket}
use ticket_graph.Models.Codec.{Pydantic}
use ticket_graph.TaskQueue.{TaskTable}
use ticket_graph.Graph.Drive.{Node, Thread, Stop, parked, ended, crashed, start, resume}
use ticket_graph.Graph.Resumes.{
  Within, IsFresh, resumes_left, resumes_from, interrupts, start-Within, resume-Within,
}

-- one resume: its value, the clock at each node, and the queue that it finds
pub record Resumption : Type 0 where
  pub value : Json
  pub at : Node → ℕ
  pub tasks : TaskTable

abbrev pub parked_thread : Option (Stop × TaskTable) → Option Thread
parked_thread (some (parked th, tasks)) = some th
parked_thread _ = none

module _ (cfg : Config) (m : Pydantic) where
  -- where a thread is parked after all these resumes, if each of them suspends it again
  unfoldable pub resume_all : Thread → List Resumption → Option Thread
  resume_all th [] = some th
  resume_all th (r ∷ rs) = elim (parked_thread (resume cfg m r.at th r.value r.tasks)) [
    | none ↦ none
    | some th' ↦ resume_all th' rs
  ]

  interrupts-le : (n : Node) → interrupts n ≤ resumes_from n
  interrupts-le n = ground arith

  parked-Within :
      (k : ℕ) (o : Option (Stop × TaskTable)) (th : Thread)
      → Within k o
      → parked_thread o ≡ some th
      → IsFresh th × (resumes_left th ≤ k)
  parked-Within k (some (parked th', tasks)) th w e = ground (arith, w)
  parked-Within k (some (ended s, tasks)) th w e = cc
  parked-Within k (some (crashed x, tasks)) th w e = cc
  parked-Within k none th w e = cc

  resume_all-le :
      (rs : List Resumption) (th th' : Thread)
      → IsFresh th
      → resume_all th rs ≡ some th'
      → length rs < resumes_left th
  unfolding resume_all
  resume_all-le [] th th' fresh e = omega (arith, fresh, interrupts-le th.node)
  resume_all-le (r ∷ rs) th th' fresh e =
      elim (Option-cases (parked_thread (resume cfg m r.at th r.value r.tasks))) [
        | inl gone ↦ absurd (cc (rw (gone, resume_all) at e))
        | inr (next, there) ↦
            let (fresh', less) =
              parked-Within (resumes_left th - 1) (resume cfg m r.at th r.value r.tasks) next
                (resume-Within cfg m r.at th r.value r.tasks fresh) there in
            let rest = resume_all-le rs next th' fresh' (rw (there, resume_all) at e) in
            omega (arith, less, rest)
      ]

  -- A thread that a start has parked, and that every one of a series of resumes has parked again,
  -- with any values, at any times and whatever the queue held, has been resumed fewer than six
  -- times: the sixth resume ends the ticket's graph or raises.
  pub resume_all_bound :
      (at : Node → ℕ) (ticket : Ticket) (tasks tasks' : TaskTable) (th th' : Thread)
      (rs : List Resumption)
      → start cfg m at ticket tasks ≡ some (parked th, tasks')
      → resume_all th rs ≡ some th'
      → length rs < 6
  resume_all_bound at ticket tasks tasks' th th' rs started e =
      let (fresh, le) = subst (Within 6) started (start-Within cfg m at ticket tasks) in
      omega (arith, le, resume_all-le rs th th' fresh e)
