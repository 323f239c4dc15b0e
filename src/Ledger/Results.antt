-- ===== src/Ledger/Results.antt =====
-- The read model of src/ticketflow/readmodel.py: what is saved for a ticket is what is loaded.
use mathlib.Core.List.{append-nil}
use ticket_graph.Prelude.{
  String, ◌≡◌, refl, inl, inr, true, some, List, [], ◌∷◌, arith, if◌then◌else◌, Bool-cases, ◌==◌,
  nat_eq, string_eq, ==_iff, ==_refl,
}
use ticket_graph.Result.{ok}
use ticket_graph.Models.{TicketResult}
use ticket_graph.Models.Codec.{Pydantic}
use ticket_graph.Sql.{select_where, update_where, exists_where, fetchone}
use ticket_graph.Sql.Laws.{select-insert, select-update_ne, exists-select}
use ticket_graph.Ledger.{Ledger, StoredResult, result_of, save_result, load_result, validated}

module _ (m : Pydantic) (r : TicketResult) where
  abbrev replaced : StoredResult → StoredResult
  replaced row = record row { payload = m.result.model_dump r }

  abbrev added : StoredResult
  added = record { ticket_id = r.ticket_id; payload = m.result.model_dump r }

  validated_dump :
      (row : StoredResult)
      → row.payload ≡ m.result.model_dump r
      → validated m (some row) ≡ ok (some r)
  validated_dump row e = rw (e, m.result.validate-dump r refl)

  read-replaced :
      (rows : List StoredResult)
      → exists_where (result_of r.ticket_id) rows ≡ true
      → validated m (
          fetchone (
            select_where
              (result_of r.ticket_id)
              (update_where (result_of r.ticket_id) replaced rows)))
        ≡ ok (some r)
  unfolding exists_where select_where update_where
  read-replaced [] h = absurd cc
  read-replaced (row ∷ rows) h = elim (Bool-cases (result_of r.ticket_id row)) [
    | inl e ↦ rw e (rw e (validated_dump (replaced row) refl))
    | inr e ↦ rw e (rw e (read-replaced rows (rw e at h)))
  ]

  -- Of a ticket whose result is saved, that result is loaded; of any other, what was loaded before.
  pub load_result-save_result :
      (l : Ledger) (ticket_id : String)
      → load_result m ticket_id (save_result m r l)
        ≡ (if r.ticket_id == ticket_id then ok (some r) else load_result m ticket_id l)
  unfolding load_result save_result
  load_result-save_result l ticket_id = elim (Bool-cases (r.ticket_id == ticket_id)) [
    | inl same ↦
        rw (same, ← (==_iff r.ticket_id ticket_id).0 same)
          (elim (Bool-cases (exists_where (result_of r.ticket_id) l.ticket_results)) [
            | inl old ↦ rw old (read-replaced l.ticket_results old)
            | inr new ↦ rw new (
                rw
                  (
                    select-insert (result_of r.ticket_id) l.ticket_results added,
                    exists-select (result_of r.ticket_id) l.ticket_results new,
                    ==_refl r.ticket_id,
                  )
                  (validated_dump added refl))
          ])
    | inr other ↦
        rw other (elim (Bool-cases (exists_where (result_of r.ticket_id) l.ticket_results)) [
          | inl old ↦ rw old (
              rw (
                select-update_ne (result_of r.ticket_id) (result_of ticket_id) replaced
                  l.ticket_results (λ x. refl)
                  (λ x hit. ground (
                    arith,
                    other,
                    ==_iff x.ticket_id r.ticket_id,
                    ==_iff x.ticket_id ticket_id,
                    ==_iff r.ticket_id ticket_id,
                  ))))
          | inr new ↦ rw new (
              rw (select-insert (result_of ticket_id) l.ticket_results added, other)
                (rw (append-nil (select_where (result_of ticket_id) l.ticket_results))))
        ])
  ]
