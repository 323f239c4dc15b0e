-- ===== src/Graph/Action.antt =====
-- Actions of a graph node: they write the task queue, and stop at `interrupt` or at an exception.
-- `interrupt` returns the resume values of the thread in order, since a resumed node runs again
-- from its start, and suspends with its envelope when they are used up. What was committed to the
-- task queue before a stop stays committed.
use ticket_graph.Prelude.{List, [], ◌∷◌, Option, none, some}
use ticket_graph.Json.{Json}
use ticket_graph.Result.{Result, ok, err, Error}
use ticket_graph.TaskQueue.{TaskTable}

pub data Outcome {ℓ} (A : Type ℓ) : Type ℓ where
  returned : A → Outcome A
  interrupted : Json → Outcome A
  raised : Error → Outcome A

-- what is left of the resume values, and the task queue
pub record World : Type 0 where
  pub resumes : List Json
  pub tasks : TaskTable

abbrev pub Action : Type 0 → Type 0
Action A = World → Outcome A × World

abbrev pub pure : {A : Type 0} → A → Action A
pure a w = (returned a, w)

abbrev pub raise : {A : Type 0} → Error → Action A
raise e w = (raised e, w)

abbrev pub continue : {A B : Type 0} → Outcome A → (A → Action B) → Action B
continue (returned a) f w = f a w
continue (interrupted e) f w = (interrupted e, w)
continue (raised e) f w = (raised e, w)

infixl 5 ◌>>=◌
abbrev pub ◌>>=◌ : {A B : Type 0} → Action A → (A → Action B) → Action B
◌>>=◌ m f w = let (o, w') = m w in continue o f w'

abbrev pub suspend : List Json → Json → Action Json
suspend [] envelope w = (interrupted envelope, w)
suspend (v ∷ vs) envelope w = (returned v, record w { resumes = vs })

-- `interrupt(envelope)` of langgraph.types
abbrev pub interrupt : Json → Action Json
interrupt envelope w = suspend w.resumes envelope w

-- a pure call that may raise
abbrev pub lift : {A : Type 0} → Result A → Action A
lift (ok a) = pure a
lift (err e) = raise e

-- `assert x is not None`
abbrev pub require : {A : Type 0} → Error → Option A → Action A
require e none = raise e
require e (some a) = pure a
