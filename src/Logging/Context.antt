-- ===== src/Logging/Context.antt =====
-- The ticket id of the logging context: set_ticket_context and reset_ticket_context of
-- src/ticketflow/logging.py, and ticket_context_middleware of api.py. `strip` is `.strip("/")`.
use ticket_graph.Prelude.{
  String, ◌≡◌, refl, not, ◌&&◌, Option, none, some, List, ◌∷◌, if◌then◌else◌, ◌==◌, nat_eq,
  string_eq,
}
use ticket_graph.Scripts.Batch.{split}

-- the token of the old value, and the new value
abbrev pub set_ticket_context : String → String → String × String
set_ticket_context ticket_id current = (current, ticket_id)

abbrev pub reset_ticket_context : String → String → String
reset_ticket_context token current = token

-- the ticket id of a path, by its parts
abbrev pub ticket_in : List String → Option String
ticket_in (first ∷ second ∷ parts) =
    if first == "tickets" && not (second == "") then some second else none
ticket_in _ = none

module _ {A : Type 0} (strip : String → String) where
  -- `call_next` answers the request or raises, in a context that it may change.
  abbrev pub in_context : (String → A × String) → Option String → String → A × String
  in_context call_next none current = call_next current
  in_context call_next (some ticket_id) current =
      let (token, inner) = set_ticket_context ticket_id current in
      let (answer, left) = call_next inner in (answer, reset_ticket_context token left)

  unfoldable pub ticket_context_middleware : (String → A × String) → String → String → A × String
  unfolding split
  ticket_context_middleware call_next path current =
      in_context call_next (ticket_in (split (strip path))) current

  -- A request leaves the context as it was, if its handler does so outside of the routes of a ticket.
  ticket_context_middleware_kept :
      (call_next : String → A × String) (path current : String)
      → ((c : String) → (call_next c).1 ≡ c)
      → (ticket_context_middleware call_next path current).1 ≡ current
  unfolding ticket_context_middleware
  ticket_context_middleware_kept call_next path current keeps =
      kept (ticket_in (split (strip path)))
    where
      kept : (id : Option String) → (in_context call_next id current).1 ≡ current
      kept none = keeps current
      kept (some id) = refl
