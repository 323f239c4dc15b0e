-- ===== src/Scripts.antt =====
-- The command-line tools of scripts/: what they do with the answers of the HTTP API, which an HTTP
-- client gives them.
pub mod Dict
pub mod Sets
pub mod Batch
pub mod Counts
pub mod Poll
pub mod Doctor
pub mod Wait
pub mod Diagnosis
pub mod Run
use ticket_graph.Prelude.{ℕ, Option}
use ticket_graph.Json.{Json}
use ticket_graph.Result.{Error}

-- What a request comes to: httpx.TimeoutException, another httpx.HTTPError, or a response, whose body
-- is no JSON or some.
pub data Answer : Type 0 where
  timed_out : Answer
  failed : Answer
  response : ℕ → Option Json → Answer
