-- ===== src/Scripts/Poll/Settles.antt =====
-- The polling ends, and what it returns has each ticket settled.
use ticket_graph.Prelude.{
  ℕ, ◌+◌, ◌≤◌, String, ◌≡◌, refl, ◌⊎◌, inl, inr, true, false, Option, none, some, List, [], ◌∷◌,
  arith, All, All-impl, Distinct, leb, Bool-cases, nat_eq, string_eq, ==_refl, text_order, sort_by,
  All-sort_by,
}
use ticket_graph.Json.{Json}
use ticket_graph.Result.{Result, ok, err, Result-cases}
use ticket_graph.Sql.{exists_where}
use ticket_graph.Migrations.{to_set, is_text, listed}
use ticket_graph.Scripts.Dict.{Dict}
use ticket_graph.Scripts.Batch.{TicketSnapshot}
use ticket_graph.Scripts.Poll.{Progress, Turn, poll, check_all, poll_ticket_snapshots, is_empty}
use ticket_graph.Scripts.Sets.{to_set-Distinct, listed-to_set, sort_by-Distinct}
use ticket_graph.Sql.Pick.{All-exists_self}
use ticket_graph.Scripts.Poll.Answers.{settled_in, Followed, check_all-Followed, check_all-Distinct}

-- The loop's clock reaches the deadline in one of the turns.
abbrev pub Passes : ℕ → List Turn → Type 0
Passes deadline [] = ⊥
Passes deadline (t ∷ turns) = (deadline ≤ t.time) ⊎ Passes deadline turns

-- A result, in which each of the tickets is settled if it is one of snapshots.
abbrev pub Settles : List String → Option (Result (Dict TicketSnapshot)) → Type 0
Settles ids none = ⊥
Settles ids (some (err e)) = Unit
Settles ids (some (ok snapshots)) = All (λ k. settled_in snapshots k ≡ true) ids

nothing_left :
    (p : Progress) (ids : List String)
    → is_empty p.pending ≡ true
    → All (Followed p) ids
    → All (λ k. settled_in p.snapshots k ≡ true) ids
nothing_left p ids e h =
    All-impl (Followed p) (λ k. settled_in p.snapshots k ≡ true) ids
      (λ k f. rw (none_listed p.pending k e) at f) h
  where
    none_listed : (xs : List String) (k : String) → is_empty xs ≡ true → listed k xs ≡ false
    none_listed [] k e = unfold exists_where in refl
    none_listed (x ∷ xs) k e = absurd (cc e)

poll-Settles :
    (text_of : Json → String) (deadline : ℕ) (turns : List Turn) (p : Progress) (ids : List String)
    → Passes deadline turns
    → Distinct (λ j. j) p.pending
    → All (Followed p) ids
    → Settles ids (poll text_of deadline turns p)
unfolding poll
poll-Settles text_of deadline [] p ids passes d h = absurd passes
poll-Settles text_of deadline (t ∷ turns) p ids passes d h =
    elim (Bool-cases (is_empty p.pending)) [
      | inl e ↦ rw e (nothing_left p ids e h)
      | inr more ↦ elim (Bool-cases (leb deadline t.time)) [
        | inl late ↦ rw (more, late) tt
        | inr early ↦
            let ids' = sort_by text_order p.pending in
            elim (Result-cases (check_all text_of t.answer ids' p)) [
              | inr (x, e) ↦ rw (more, early, e) tt
              | inl (p', e) ↦
                  rw (more, early, e)
                    (poll-Settles text_of deadline turns p' ids (after_deadline early passes)
                      (check_all-Distinct text_of t.answer ids' p p' e d)
                      (All-impl (Followed p) (Followed p') ids
                        (λ k f.
                          check_all-Followed text_of t.answer ids' p p' k
                            (All-sort_by text_order (λ j. listed j p.pending ≡ true) p.pending
                              (All-exists_self is_text p.pending (λ v. ==_refl v)))
                            (sort_by-Distinct text_order p.pending d) e f)
                        h))
            ]
      ]
    ]
  where
    after_deadline :
        leb deadline t.time ≡ false
        → (deadline ≤ t.time) ⊎ Passes deadline turns
        → Passes deadline turns
    after_deadline early (inl now) = absurd (ground (arith, early, now))
    after_deadline early (inr later) = later

-- The polling of a batch, whose clock reaches the deadline in one of the turns, comes to a result:
-- it raises, or it returns snapshots in which each of the tickets has settled.
pub poll_ticket_snapshots-Settles :
    (text_of : Json → String) (start timeout : ℕ) (turns : List Turn) (ticket_ids : List String)
    → Passes (start + timeout) turns
    → Settles ticket_ids (poll_ticket_snapshots text_of start timeout turns ticket_ids)
unfolding poll_ticket_snapshots
poll_ticket_snapshots-Settles text_of start timeout turns ticket_ids passes =
    poll-Settles text_of (start + timeout) turns
      (record { pending = to_set ticket_ids; snapshots = [] }) ticket_ids passes
      (to_set-Distinct ticket_ids)
      (All-impl (λ k. listed k ticket_ids ≡ true)
        (Followed (record { pending = to_set ticket_ids; snapshots = [] })) ticket_ids
        (λ k here. rw (listed-to_set k ticket_ids, here) refl)
        (All-exists_self is_text ticket_ids (λ v. ==_refl v)))
