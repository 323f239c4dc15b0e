-- ===== src/Scripts/Poll/Answers.antt =====
-- What the answers of a turn make of the progress: a ticket stays polled or has settled.
use mathlib.Core.Path.{subst}
use ticket_graph.Prelude.{
  String, ◌≡◌, refl, sym, ◌∙◌, ◌≢◌, ◌⊎◌, inl, inr, Bool, true, false, ◌||◌, Option, none, some,
  List, [], ◌∷◌, arith, All, All-impl, All-zip, Distinct, Bool-cases, ◌==◌, nat_eq, string_eq,
  ==_iff,
}
use ticket_graph.Json.{Json}
use ticket_graph.Result.{ok, >>=-eq-ok}
use ticket_graph.Sql.{exists_where, delete_where}
use ticket_graph.Migrations.{is_text, listed}
use ticket_graph.Scripts.{Answer, timed_out, failed, response}
use ticket_graph.Scripts.Dict.{Dict, put, find, find-put_self, find-put_ne}
use ticket_graph.Scripts.Batch.{TicketSnapshot, extract_model_path}
use ticket_graph.Scripts.Poll.{
  told, status_of, is_success, is_transient, Progress, check_all, check_one, record_snapshot,
  is_settled, is_transient,
}
use ticket_graph.Sql.Laws.{Distinct-delete_where}

-- The ticket has a snapshot of a settled status.
abbrev pub settled_in : Dict TicketSnapshot → String → Bool
settled_in snapshots k = elim (find k snapshots) [ none ↦ false | some s ↦ is_settled s.status ]

settled_in-put_self :
    (i : String) (s : TicketSnapshot) (d : Dict TicketSnapshot)
    → settled_in (put i s d) i ≡ is_settled s.status
settled_in-put_self i s d = rw (find-put_self i s d, settled_in) refl

settled_in-put_ne :
    (i k : String) (s : TicketSnapshot) (d : Dict TicketSnapshot)
    → (i == k) ≡ false
    → settled_in (put i s d) k ≡ settled_in d k
settled_in-put_ne i k s d h = rw (find-put_ne k i s d h, settled_in) refl

-- The ticket is still polled, or has settled.
abbrev pub Followed : Progress → String → Type 0
Followed p k = (listed k p.pending || settled_in p.snapshots k) ≡ true

listed-delete_ne :
    (i k : String) (xs : List String)
    → (i == k) ≡ false
    → listed k (delete_where (is_text i) xs) ≡ listed k xs
unfolding exists_where delete_where
listed-delete_ne i k [] h = refl
listed-delete_ne i k (x ∷ xs) h = elim (Bool-cases (x == i)) [
  | inl e ↦ rw e (rw ((==_iff x i).0 e, h) (listed-delete_ne i k xs h))
  | inr e ↦ rw e (rw (listed-delete_ne i k xs h))
]

or_true : (b : Bool) → (b || true) ≡ true
or_true true = refl
or_true false = refl

-- The answer for a ticket that is still polled: it stays so or settles, and the others are as they
-- were.
record-Followed :
    (i : String) (status : String) (path : Option String) (p : Progress) (k : String)
    → listed i p.pending ≡ true
    → Followed p k
    → Followed (record_snapshot i status path p) k
unfolding record_snapshot
record-Followed i status path p k here h =
    let s : TicketSnapshot = record { status = status; model_path = path } in
    elim (Bool-cases (i == k)) [
      | inl same ↦
          let at_k : listed k p.pending ≡ true =
            subst (λ x. listed x p.pending ≡ true) ((==_iff i k).0 same) here in
          let put_k : settled_in (put i s p.snapshots) k ≡ is_settled status =
            subst (λ x. settled_in (put i s p.snapshots) x ≡ is_settled status)
              ((==_iff i k).0 same) (settled_in-put_self i s p.snapshots) in
          elim (Bool-cases (is_settled status)) [
            | inl done ↦
                rw done (rw (put_k, done) (or_true (listed k (delete_where (is_text i) p.pending))))
            | inr waits ↦ rw waits (rw at_k refl)
          ]
      | inr other ↦ elim (Bool-cases (is_settled status)) [
        | inl done ↦
            rw done (
              rw (listed-delete_ne i k p.pending other, settled_in-put_ne i k s p.snapshots other)
                h)
        | inr waits ↦ rw waits (rw (settled_in-put_ne i k s p.snapshots other) h)
      ]
    ]

record-listed :
    (i : String) (status : String) (path : Option String) (p : Progress) (j : String)
    → (i == j) ≡ false
    → listed j (record_snapshot i status path p).pending ≡ listed j p.pending
unfolding record_snapshot
record-listed i status path p j other = elim (Bool-cases (is_settled status)) [
  | inl done ↦ rw done (listed-delete_ne i j p.pending other)
  | inr waits ↦ rw waits refl
]

-- What an answer has made of the progress, if it raised nothing.
abbrev Told : String → Progress → Progress → Type 0
Told i p p' =
    (p' ≡ p) ⊎ ((status : String) × (path : Option String) × (p' ≡ record_snapshot i status path p))

told-Told :
    (text_of : Json → String) (i : String) (body : Json) (p p' : Progress)
    → told text_of i body p ≡ ok p'
    → Told i p p'
told-Told text_of i body p p' e =
    let (status, _, e') = >>=-eq-ok (status_of text_of body) _ e in
    inr (status, extract_model_path body, cc (e'))

check_one-Told :
    (text_of : Json → String) (i : String) (a : Answer) (p p' : Progress)
    → check_one text_of i a p ≡ ok p'
    → Told i p p'
unfolding check_one
check_one-Told text_of i timed_out p p' e = inl (cc e)
check_one-Told text_of i failed p p' e = absurd (cc e)
check_one-Told text_of i (response code none) p p' e = elim (Bool-cases (is_transient code)) [
  | inl again ↦ inl (cc (rw again at e))
  | inr final ↦ elim (Bool-cases (is_success code)) [
    | inl good ↦ absurd (cc (rw (final, good) at e))
    | inr bad ↦ absurd (cc (rw (final, bad) at e))
  ]
]
check_one-Told text_of i (response code (some body)) p p' e =
    elim (Bool-cases (is_transient code)) [
      | inl again ↦ inl (cc (rw again at e))
      | inr final ↦ elim (Bool-cases (is_success code)) [
        | inl good ↦ told-Told text_of i body p p' (rw (final, good) at e)
        | inr bad ↦ absurd (cc (rw (final, bad) at e))
      ]
    ]

check_one-Followed :
    (text_of : Json → String) (i : String) (a : Answer) (p p' : Progress) (k : String)
    → listed i p.pending ≡ true
    → check_one text_of i a p ≡ ok p'
    → Followed p k
    → Followed p' k
check_one-Followed text_of i a p p' k here e h = elim (check_one-Told text_of i a p p' e) [
  | inl same ↦ subst (λ x. Followed x k) (sym same) h
  | inr (status, path, same) ↦
      subst (λ x. Followed x k) (sym same) (record-Followed i status path p k here h)
]

check_one-listed :
    (text_of : Json → String) (i : String) (a : Answer) (p p' : Progress) (j : String)
    → check_one text_of i a p ≡ ok p'
    → j ≢ i
    → listed j p.pending ≡ true
    → listed j p'.pending ≡ true
check_one-listed text_of i a p p' j e ne h = elim (check_one-Told text_of i a p p' e) [
  | inl same ↦ subst (λ x. listed j x.pending ≡ true) (sym same) h
  | inr (status, path, same) ↦
      subst (λ x. listed j x.pending ≡ true) (sym same)
        (record-listed i status path p j (ground (arith, ==_iff i j, ne)) ∙ h)
]

pub check_all-Followed :
    (text_of : Json → String) (answer : String → Answer) (ids : List String) (p p' : Progress)
    (k : String)
    → All (λ j. listed j p.pending ≡ true) ids
    → Distinct (λ j. j) ids
    → check_all text_of answer ids p ≡ ok p'
    → Followed p k
    → Followed p' k
unfolding check_all
check_all-Followed text_of answer [] p p' k there d e h =
    let same : p ≡ p' = cc in subst (λ x. Followed x k) same h
check_all-Followed text_of answer (i ∷ ids) p p' k there d e h =
    let (p1, first, rest) =
      >>=-eq-ok (check_one text_of i (answer i) p) (check_all text_of answer ids) e in
    check_all-Followed text_of answer ids p1 p' k
      (All-impl (λ j. (j ≢ i) × (listed j p.pending ≡ true)) (λ j. listed j p1.pending ≡ true) ids
        (λ j q. check_one-listed text_of i (answer i) p p1 j first q.0 q.1)
        (All-zip (λ j. j ≢ i) (λ j. listed j p.pending ≡ true) ids d.0 there.1))
      d.1 rest (check_one-Followed text_of i (answer i) p p1 k there.0 first h)

pub check_all-Distinct :
    (text_of : Json → String) (answer : String → Answer) (ids : List String) (p p' : Progress)
    → check_all text_of answer ids p ≡ ok p'
    → Distinct (λ j. j) p.pending
    → Distinct (λ j. j) p'.pending
unfolding check_all
check_all-Distinct text_of answer [] p p' e d =
    let same : p ≡ p' = cc in subst (λ x. Distinct (λ j. j) x.pending) same d
check_all-Distinct text_of answer (i ∷ ids) p p' e d =
    let (p1, first, rest) =
      >>=-eq-ok (check_one text_of i (answer i) p) (check_all text_of answer ids) e in
    check_all-Distinct text_of answer ids p1 p' rest
      (elim (check_one-Told text_of i (answer i) p p1 first) [
        | inl same ↦ subst (λ x. Distinct (λ j. j) x.pending) (sym same) d
        | inr (status, path, same) ↦
            subst (λ x. Distinct (λ j. j) x.pending) (sym same) (recorded status path)
      ])
  where
    recorded :
        (status : String) (path : Option String)
        → Distinct (λ j. j) (record_snapshot i status path p).pending
    recorded status path = elim (Bool-cases (is_settled status)) [
      | inl done ↦
          unfold record_snapshot in rw done (Distinct-delete_where (λ j. j) (is_text i) p.pending d)
      | inr waits ↦ unfold record_snapshot in rw waits d
    ]
