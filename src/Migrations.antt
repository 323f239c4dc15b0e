-- ===== src/Migrations.antt =====
-- The schema migrations of src/ticketflow/db.py: `_validate_migrations` and `bootstrap`. What
-- Postgres does for a statement of DDL is a parameter: it turns a schema into another or raises.
pub mod Once
pub mod Ascending
use ticket_graph.Prelude.{
  String, Bool, true, false, not, ◌&&◌, List, [], ◌∷◌, ◌++◌, length, if◌then◌else◌, ◌==◌, nat_eq,
  string_eq, sort_by, map, text_order,
}
use ticket_graph.Result.{Result, ok, err, value_error, runtime_error, unique_violation, ◌>>=◌}
use ticket_graph.Sql.{exists_where}

pub record Migration : Type 0 where
  pub version : String
  pub statements : List String

abbrev pub versions : List Migration → List String
versions ms = map (λ m. m.version) ms

abbrev pub is_text : String → String → Bool
is_text s t = t == s

abbrev pub listed : String → List String → Bool
listed v vs = exists_where (is_text v) vs

-- `set(versions)`, whose size is that of the list when nothing occurs twice
unfoldable pub to_set : List String → List String
to_set [] = []
to_set (v ∷ vs) = if listed v vs then to_set vs else v ∷ to_set vs

unfoldable pub same_texts : List String → List String → Bool
same_texts [] [] = true
same_texts (v ∷ vs) (w ∷ ws) = v == w && same_texts vs ws
same_texts _ _ = false

unfoldable pub validate_migrations : List Migration → Result (Unit {0})
validate_migrations ms =
    if not (length (to_set (versions ms)) == length (versions ms))
    then err (value_error "Migration versions must be unique")
    else if not (same_texts (versions ms) (sort_by text_order (versions ms)))
    then err (value_error "Migration versions must be ordered")
    else ok tt

-- The rows of `schema_migrations`, and the schema that the statements change.
pub record Database (D : Type 0) : Type 0 where
  pub markers : List String
  pub schema : D

-- INSERT INTO schema_migrations
abbrev pub mark : String → List String → Result (List String)
mark version markers =
    if listed version markers then err unique_violation else ok (markers ++ version ∷ [])

-- `applied_versions - known_versions` is not empty
abbrev pub has_unknown : List String → List String → Bool
has_unknown applied known = exists_where (λ v. not (listed v known)) applied

-- The transaction commits if nothing raises, and is rolled back if something does.
abbrev pub committed :
    {D : Type 0} → Result (Database D) → Database D → Result (Unit {0}) × Database D
committed (ok db') db = (ok tt, db')
committed (err e) db = (err e, db)

module _ {D : Type 0} (execute : String → D → Result D) where
  -- the statements of one migration
  unfoldable pub execute_all : List String → D → Result D
  execute_all [] d = ok d
  execute_all (statement ∷ rest) d = execute statement d >>= execute_all rest

  abbrev pub migrate_one : Migration → Database D → Result (Database D)
  migrate_one m db = do
    d ← execute_all m.statements db.schema
    markers ← mark m.version db.markers
    ok (record { markers = markers; schema = d })

  -- the loop over the migrations; `applied` are the versions read before it
  unfoldable pub migrate : List String → List Migration → Database D → Result (Database D)
  migrate applied [] db = ok db
  migrate applied (m ∷ ms) db =
      if listed m.version applied
      then migrate applied ms db
      else migrate_one m db >>= migrate applied ms

  abbrev pub migrated : List Migration → Database D → Result (Database D)
  migrated ms db =
      if has_unknown db.markers (versions ms) then err (runtime_error) else migrate db.markers ms db

  unfoldable pub bootstrap : List Migration → Database D → Result (Unit {0}) × Database D
  unfolding validate_migrations migrate
  bootstrap ms db = committed (validate_migrations ms >>= λ _. migrated ms db) db
