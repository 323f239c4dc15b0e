-- ===== src/Migrations/Once.antt =====
-- `bootstrap` runs each migration once.
use mathlib.Core.List.{append-nil, append_assoc}
use ticket_graph.Prelude.{
  String, ◌≡◌, refl, sym, ap, ◌∙◌, ◌⊎◌, inl, inr, true, false, not, List, [], ◌∷◌, ◌++◌, arith, All,
  All-impl, Bool-cases, nat_eq, string_eq, ==_refl,
}
use ticket_graph.Result.{is_ok, Result, ok, err, ◌>>=◌, >>=-eq-ok, Error}
use ticket_graph.Sql.{delete_where}
use ticket_graph.Sql.Rows.{exists-append, All-of_delete_where, All-of_map, exists-none, All-map}
use ticket_graph.Sql.Pick.{All-exists_self}
use ticket_graph.Migrations.{
  Migration, Database, versions, listed, is_text, execute_all, migrate, migrate_one, migrated,
  committed, bootstrap, validate_migrations, has_unknown,
}
use ticket_graph.Sql.Laws.{All-delete_where}

-- the migrations that are not applied yet, in order
abbrev pub pending : List String → List Migration → List Migration
pending applied ms = delete_where (λ m. listed m.version applied) ms

-- their statements, one after the other
abbrev pub all_statements : List Migration → List String
all_statements [] = []
all_statements (m ∷ ms) = m.statements ++ all_statements ms

module _ {D : Type 0} (execute : String → D → Result D) where
  execute_all-append :
      (xs ys : List String) (d : D)
      → execute_all execute (xs ++ ys) d ≡ (execute_all execute xs d >>= execute_all execute ys)
  unfolding execute_all
  execute_all-append [] ys d = refl
  execute_all-append (x ∷ xs) ys d = ahead (execute x d) (λ d'. execute_all-append xs ys d')
    where
      ahead :
          (r : Result D)
          → ((d' : D)
              → execute_all execute (xs ++ ys) d'
                ≡ (execute_all execute xs d' >>= execute_all execute ys))
          → (r >>= execute_all execute (xs ++ ys))
            ≡ ((r >>= execute_all execute xs) >>= execute_all execute ys)
      ahead (ok d') ih = ih d'
      ahead (err e) ih = refl

  migrate_one-eq :
      (m : Migration) (db db' : Database D)
      → migrate_one execute m db ≡ ok db'
      → (execute_all execute m.statements db.schema ≡ ok db'.schema)
        × (db'.markers ≡ db.markers ++ m.version ∷ [])
  migrate_one-eq m db db' e = ground arith

  -- What a run of the loop that does not raise has done.
  abbrev pub Applied : List Migration → Database D → Database D → Type 0
  Applied ms db db' =
      (execute_all execute (all_statements ms) db.schema ≡ ok db'.schema)
      × (db'.markers ≡ db.markers ++ versions ms)

  migrate-Applied :
      (applied : List String) (ms : List Migration) (db db' : Database D)
      → migrate execute applied ms db ≡ ok db'
      → Applied (pending applied ms) db db'
  unfolding migrate delete_where
  migrate-Applied applied [] db db' e =
      let same : db ≡ db' = cc in
      rw (← same) (unfold execute_all in refl, sym (append-nil db.markers))
  migrate-Applied applied (m ∷ ms) db db' e = elim (Bool-cases (listed m.version applied)) [
    | inl old ↦ rw old (migrate-Applied applied ms db db' (rw old at e))
    | inr fresh ↦
        let (db1, first, later) =
          >>=-eq-ok (migrate_one execute m db) (migrate execute applied ms) (rw fresh at e) in
        let (ran, marked) = migrate_one-eq m db db1 first in
        let (ran', marked') = migrate-Applied applied ms db1 db' later in
        rw fresh (
          rw (execute_all-append m.statements (all_statements (pending applied ms)) db.schema, ran)
              ran',
          marked'
              ∙ rw marked
                  (append_assoc db.markers (m.version ∷ []) (versions (pending applied ms))),
        )
  ]

  -- A loop over migrations that are all applied does nothing.
  migrate_done :
      (applied : List String) (ms : List Migration) (db : Database D)
      → All (λ m. listed m.version applied ≡ true) ms
      → migrate execute applied ms db ≡ ok db
  unfolding migrate
  migrate_done applied [] db h = refl
  migrate_done applied (m ∷ ms) db h = rw (h.0) (migrate_done applied ms db h.1)

  committed-inv :
      (r : Result (Database D)) (db db' : Database D)
      → committed r db ≡ (ok tt, db')
      → (r ≡ ok db') × (committed r db ≡ (ok tt, db'))
  committed-inv (ok x) db db' e = (cc (ap (λ p. p.1) e), e)
  committed-inv (err x) db db' e = absurd (cc (ap (λ p. p.0) e))

  -- What a bootstrap that succeeds has been through.
  bootstrap-inv :
      (ms : List Migration) (db db' : Database D)
      → bootstrap execute ms db ≡ (ok tt, db')
      → (validate_migrations ms ≡ ok tt)
        × (has_unknown db.markers (versions ms) ≡ false)
        × (migrate execute db.markers ms db ≡ ok db')
  unfolding bootstrap
  bootstrap-inv ms db db' e =
      let (decided, same) =
        committed-inv (validate_migrations ms >>= λ _. migrated execute ms db) db db' e in
      let (u, valid, rest) =
        >>=-eq-ok (validate_migrations ms) (λ _. migrated execute ms db) decided in
      elim (Bool-cases (has_unknown db.markers (versions ms))) [
        | inl unknown ↦ absurd (cc (rw unknown at rest))
        | inr known ↦ (valid, known, rw known at rest)
      ]

  All-versions : (ms : List Migration) → All (λ m. listed m.version (versions ms) ≡ true) ms
  All-versions ms =
      All-of_map (λ m. m.version) (λ v. listed v (versions ms) ≡ true) ms
        (All-exists_self is_text (versions ms) (λ v. ==_refl v))

  -- What a loop that succeeded has made of the markers: all versions are there, and only known ones.
  markers_cover :
      (ms : List Migration) (markers : List String)
      → All (λ m. listed m.version (markers ++ versions (pending markers ms)) ≡ true) ms
  markers_cover ms markers =
      All-of_delete_where (λ m. listed m.version markers)
        (λ m. listed m.version (markers ++ versions (pending markers ms)) ≡ true) ms
        (λ m old.
          rw (exists-append (is_text m.version) markers (versions (pending markers ms)), old))
        (All-impl (λ m. listed m.version (versions (pending markers ms)) ≡ true)
          (λ m. listed m.version (markers ++ versions (pending markers ms)) ≡ true)
          (pending markers ms)
          (λ m new.
            ground (
              arith,
              exists-append (is_text m.version) markers (versions (pending markers ms)),
              new,
            ))
          (All-versions (pending markers ms)))

  markers_known :
      (ms : List Migration) (markers : List String)
      → has_unknown markers (versions ms) ≡ false
      → has_unknown (markers ++ versions (pending markers ms)) (versions ms) ≡ false
  markers_known ms markers known =
      rw
        (
          exists-append (λ v. not (listed v (versions ms))) markers (versions (pending markers ms)),
          known,
        )
        (exists-none (λ v. not (listed v (versions ms))) (versions (pending markers ms))
          (All-map (λ m. m.version) (λ v. not (listed v (versions ms)) ≡ false) (pending markers ms)
            (All-delete_where (λ m. not (listed m.version (versions ms)) ≡ false)
              (λ m. listed m.version markers) ms
              (All-impl (λ m. listed m.version (versions ms) ≡ true)
                (λ m. not (listed m.version (versions ms)) ≡ false) ms (λ m h. rw h)
                (All-versions ms)))))

  rolled_back :
      (ms : List Migration) (db db' : Database D) (x : Error)
      → bootstrap execute ms db ≡ (err x, db')
      → db' ≡ db
  unfolding bootstrap
  rolled_back ms db db' x e = undone (validate_migrations ms >>= λ _. migrated execute ms db) e
    where
      undone : (r : Result (Database D)) → committed r db ≡ (err x, db') → db' ≡ db
      undone (ok y) e = absurd (cc (ap (λ p. p.0) e))
      undone (err y) e = sym (ap (λ p. p.1) e)

  bootstrap_again :
      (ms : List Migration) (db db' : Database D)
      → bootstrap execute ms db ≡ (ok tt, db')
      → bootstrap execute ms db' ≡ (ok tt, db')
  unfolding bootstrap
  bootstrap_again ms db db' e =
      let (valid, known, ran) = bootstrap-inv ms db db' e in
      let (_, marked) = migrate-Applied db.markers ms db db' ran in
      let cover : All (λ m. listed m.version db'.markers ≡ true) ms =
        rw marked (markers_cover ms db.markers) in
      let known' : has_unknown db'.markers (versions ms) ≡ false =
        rw marked (markers_known ms db.markers known) in
      rw (valid, known', migrate_done db'.markers ms db' cover)

  -- A bootstrap that succeeds knew all versions that had been applied; it has run the statements of
  -- the migrations that were not applied, in order, and marked just these, and to run it again
  -- succeeds and changes nothing. One that fails, by its checks or in any statement, leaves the
  -- database as it was.
  pub bootstrap_lem :
      (ms : List Migration) (db : Database D)
      → let after = bootstrap execute ms db in
        ((after.0 ≡ ok tt)
          × (has_unknown db.markers (versions ms) ≡ false)
          × Applied (pending db.markers ms) db after.1
          × (bootstrap execute ms after.1 ≡ after))
        ⊎ ((is_ok after.0 ≡ false) × (after.1 ≡ db))
  bootstrap_lem ms db = decide (bootstrap execute ms db) refl
    where
      decide :
          (after : Result (Unit {0}) × Database D)
          → bootstrap execute ms db ≡ after
          → ((after.0 ≡ ok tt)
              × (has_unknown db.markers (versions ms) ≡ false)
              × Applied (pending db.markers ms) db after.1
              × (bootstrap execute ms after.1 ≡ after))
            ⊎ ((is_ok after.0 ≡ false) × (after.1 ≡ db))
      decide (ok tt, db') e =
          let (_, known, ran) = bootstrap-inv ms db db' e in
          inl (refl, known, migrate-Applied db.markers ms db db' ran, bootstrap_again ms db db' e)
      decide (err x, db') e = inr (refl, rolled_back ms db db' x e)
