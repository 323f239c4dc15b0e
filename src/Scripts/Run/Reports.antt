-- ===== src/Scripts/Run/Reports.antt =====
-- What a batch reports: the run comes to a result, and a summary is one of settled tickets.
use ticket_graph.Prelude.{
  ℕ, zero, suc, ◌+◌, String, ◌≡◌, refl, ap, ◌∙◌, true, Option, none, some, List, [], ◌∷◌, All,
  length, nat_eq, string_eq,
}
use ticket_graph.Json.{Json}
use ticket_graph.Result.{Result, ok, err, >>=-eq-ok}
use ticket_graph.Api.{CreateTicketRequest}
use ticket_graph.Scripts.{Answer}
use ticket_graph.Scripts.Dict.{Dict, values}
use ticket_graph.Scripts.Batch.{
  TicketSnapshot, BatchSummary, make_ticket_payloads, payloads_from, summary_of, has_fallback,
  path_of, fallback_model_path_count,
}
use ticket_graph.Scripts.Counts.{count_if, fallback-summary_of}
use ticket_graph.Scripts.Poll.{Turn, poll_ticket_snapshots}
use ticket_graph.Scripts.Poll.Answers.{settled_in}
use ticket_graph.Scripts.Poll.Settles.{Settles, Passes, poll_ticket_snapshots-Settles}
use ticket_graph.Scripts.Run.{create_one, create_tickets, polled, poll_created, run_batch}

length-create_tickets :
    (text_of : Json → String) (post : CreateTicketRequest → Answer)
    (payloads : List CreateTicketRequest) (ids : List String)
    → create_tickets text_of post payloads ≡ ok ids
    → length ids ≡ length payloads
unfolding create_tickets
length-create_tickets text_of post [] ids e = let same : [] ≡ ids = cc in rw (← same) refl
length-create_tickets text_of post (p ∷ payloads) ids e =
    let (id, first, rest) = >>=-eq-ok (create_one text_of (post p)) _ e in
    let (others, next, last) = >>=-eq-ok (create_tickets text_of post payloads) _ rest in
    let same : id ∷ others ≡ ids = cc (last) in
    rw (← same) (ap suc (length-create_tickets text_of post payloads others next))

length-payloads_from :
    (str_of : ℕ → String) (index count : ℕ) → length (payloads_from str_of index count) ≡ count
unfolding payloads_from
length-payloads_from str_of index zero = refl
length-payloads_from str_of index (suc count) =
    ap suc (length-payloads_from str_of (suc index) count)

-- The tickets that a batch has created, as many as it was to, and their settled snapshots, which the
-- summary and its fallback count are of.
abbrev pub Settled : Result (List String) → ℕ → BatchSummary → Type 0
Settled created count summary =
    (ids : List String) × (snapshots : Dict TicketSnapshot) × (created ≡ ok ids)
    × (length ids ≡ count)
    × All (λ k. settled_in snapshots k ≡ true) ids
    × (summary ≡ summary_of snapshots)
    × (fallback_model_path_count summary
        ≡ count_if (λ s. has_fallback (path_of s)) (values snapshots))

-- A result, and a summary is one of settled tickets.
abbrev pub Reports : Result (List String) → ℕ → Option (Result BatchSummary) → Type 0
Reports created count none = ⊥
Reports created count (some (err e)) = Unit
Reports created count (some (ok summary)) = Settled created count summary

-- A batch whose clock reaches the deadline in one of the turns comes to a result: it raises, or its
-- summary is that of snapshots in which each of the `count` tickets that it created is settled, and
-- the fallback count of the summary is the number of those whose model path names the fallback.
pub run_batch-Reports :
    (str_of : ℕ → String) (text_of : Json → String) (post : CreateTicketRequest → Answer)
    (start timeout : ℕ) (turns : List Turn) (count : ℕ)
    → Passes (start + timeout) turns
    → Reports
        (create_tickets text_of post (make_ticket_payloads str_of count))
        count
        (run_batch str_of text_of post start timeout turns count)
unfolding run_batch
run_batch-Reports str_of text_of post start timeout turns count passes =
    reported (create_tickets text_of post (make_ticket_payloads str_of count)) (λ ids e.
      length-create_tickets text_of post (make_ticket_payloads str_of count) ids e
      ∙ length-payloads_from str_of 0 count)
  where
    summed :
        (ids : List String)
        → length ids ≡ count
        → (result : Option (Result (Dict TicketSnapshot))) → Settles ids result
        → Reports (ok ids) count (polled summary_of result)
    summed ids many none settles = absurd settles
    summed ids many (some (err e)) settles = tt
    summed ids many (some (ok snapshots)) settles =
        (ids, snapshots, refl, many, settles, refl, fallback-summary_of snapshots)

    reported :
        (created : Result (List String))
        → ((ids : List String) → created ≡ ok ids → length ids ≡ count)
        → Reports created count (poll_created str_of text_of start timeout turns created)
    reported (err e) many = tt
    reported (ok ids) many =
        summed ids (many ids refl) (poll_ticket_snapshots text_of start timeout turns ids)
          (poll_ticket_snapshots-Settles text_of start timeout turns ids passes)
