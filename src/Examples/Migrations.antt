-- ===== src/Examples/Migrations.antt =====
-- Two migrations, on a schema that is the list of the statements that were run.
use ticket_graph.Prelude.{
  String, ◌≡◌, refl, ◌↔◌, ◌⊎◌, false, List, [], ◌∷◌, ◌++◌, nat_eq, string_eq, sort_by, insert_by,
}
use ticket_graph.Result.{Result, ok, is_ok}
use ticket_graph.Sql.{exists_where}
use ticket_graph.Migrations.{
  Migration, Database, bootstrap, validate_migrations, versions, has_unknown, migrate, execute_all,
  to_set, same_texts,
}
use ticket_graph.Migrations.Once.{bootstrap_lem, Applied, pending}
use ticket_graph.Migrations.Ascending.{validate-IsAscending, IsAscending}

abbrev migrations : List Migration
migrations =
    record { version = "001_queue"; statements = "CREATE TABLE task_queue" ∷ [] }
    ∷ record {
      version = "002_outbox";
      statements = "CREATE TABLE refunds" ∷ "CREATE TABLE replies" ∷ [];
    }
    ∷ []

abbrev log : String → List String → Result (List String)
log statement d = ok (d ++ statement ∷ [])

-- a database of the first release
abbrev old : Database (List String)
old = record { markers = "001_queue" ∷ []; schema = "CREATE TABLE task_queue" ∷ [] }

abbrev upgraded : Database (List String)
upgraded = record {
  markers = "001_queue" ∷ "002_outbox" ∷ [];
  schema = "CREATE TABLE task_queue" ∷ "CREATE TABLE refunds" ∷ "CREATE TABLE replies" ∷ [];
}

upgrade : bootstrap log migrations old ≡ (ok tt, upgraded)
unfolding bootstrap validate_migrations migrate execute_all exists_where to_set same_texts sort_by
    insert_by
upgrade = refl

bootstrap_lem_example :
    let after = bootstrap log migrations old in
    ((after.0 ≡ ok tt)
      × (has_unknown old.markers (versions migrations) ≡ false)
      × Applied log (pending old.markers migrations) old after.1
      × (bootstrap log migrations after.1 ≡ after))
    ⊎ ((is_ok after.0 ≡ false) × (after.1 ≡ old))
bootstrap_lem_example = bootstrap_lem log migrations old

validate-IsAscending_example :
    (validate_migrations migrations ≡ ok tt) ↔ IsAscending (versions migrations)
validate-IsAscending_example = validate-IsAscending migrations
