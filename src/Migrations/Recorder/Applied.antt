-- ===== src/Migrations/Recorder/Applied.antt =====
-- The migrations that count as applied, as a set that the recorder changes one by one.
use django_clickhouse_backen.Prelude.{
  ℕ, ◌≡◌, refl, ap, sym, subst, inl, inr, Option-cases, ◌∙◌, Bool, true, false, not, ◌&&◌, ◌||◌,
  List, [], ◌∷◌, any, any-append, filter, Text, arith, if_cases,
}
use django_clickhouse_backen.Migrations.Connection.{Connection}
use django_clickhouse_backen.Migrations.Recorder.{
  Row, Server, Recorder, Result, done, migration_schema_missing, matches, in_qs, ensure_schema,
  migration, add_missing_column, table_in, has_table, after, insert_row, remove_row, flush,
  record_applied, record_unapplied, is_applied,
}
use django_clickhouse_backen.Migrations.Recorder.Rows.{
  same_migration, counts, revived, buried, any-revived, any-buried, any-deleted,
}

module _ (V : Server) where
  open V use {rows, exists_lem, rows-update, rows-create, rows-delete}

  -- The effect of each statement on what counts as applied.
  update-revived :
      (c : Connection) (app name a n : Text) (d : V.Store)
      → V.exists (matches app name) d ≡ true
      → any
          (counts c a n)
          (rows (V.update (matches app name) (λ row. record row { deleted = false }) d))
        ≡ (same_migration app name a n || any (counts c a n) (rows d))
  unfolding revived
  update-revived c app name a n d h =
      rw (rows-update (matches app name) (λ row. record row { deleted = false }) d)
        (ground (arith, any-revived c app name a n (rows d), exists_lem (matches app name) d))

  update-buried :
      (c : Connection) (app name a n : Text) (d : V.Store)
      → c.is_clickhouse ≡ true
      → any
          (counts c a n)
          (rows (V.update (counts c app name) (λ row. record row { deleted = true }) d))
        ≡ (not (same_migration app name a n) && any (counts c a n) (rows d))
  unfolding buried
  update-buried c app name a n d h =
      rw (rows-update (counts c app name) (λ row. record row { deleted = true }) d)
        (any-buried c app name a n (rows d) h)

  delete-matches :
      (c : Connection) (app name a n : Text) (d : V.Store)
      → any (counts c a n) (rows (V.delete (matches app name) d))
        ≡ (not (same_migration app name a n) && any (counts c a n) (rows d))
  delete-matches c app name a n d =
      rw (rows-delete (matches app name) d) (any-deleted c app name a n (rows d))

  create-counts :
      (c : Connection) (app name a n : Text) (now : ℕ) (d : V.Store)
      → any
          (counts c a n)
          (rows (V.create (record { app = app; name = name; applied = now; deleted = false }) d))
        ≡ (same_migration app name a n || any (counts c a n) (rows d))
  unfolding counts matches in_qs
  create-counts c app name a n now d =
      let row : Row = record { app = app; name = name; applied = now; deleted = false } in
      rw (rows-create row d) (ground (arith, any-append (counts c a n) (rows d) (row ∷ [])))

module _ {V : Server} where
  insert_row-applied :
      (r : Recorder V) (app name a n : Text) (now : ℕ)
      → is_applied (insert_row app name now r) a n
        ≡ (same_migration app name a n || is_applied r a n)
  unfolding is_applied insert_row counts
  insert_row-applied r app name a n now =
      if_cases
        (λ (q : Recorder V). is_applied q a n ≡ (same_migration app name a n || is_applied r a n))
        (r.connection.is_clickhouse && V.exists (matches app name) r.store)
        (λ h. update-revived V r.connection app name a n r.store (ground arith))
        (λ h. create-counts V r.connection app name a n now r.store)

  remove_row-applied :
      (r : Recorder V) (app name a n : Text)
      → is_applied (remove_row app name r) a n
        ≡ (not (same_migration app name a n) && is_applied r a n)
  unfolding is_applied remove_row counts
  remove_row-applied r app name a n =
      if_cases
        (λ (q : Recorder V).
          is_applied q a n ≡ (not (same_migration app name a n) && is_applied r a n))
        r.connection.is_clickhouse (λ h. update-buried V r.connection app name a n r.store h)
        (λ h. delete-matches V r.connection app name a n r.store)

-- What happens to the records.
pub data Event : Type 0 where
  applied : Text → Text → ℕ → Event
  unapplied : Text → Text → Event

-- Whether a migration counts as applied after an event, given whether it did before.
pub says : Text → Text → Event → Bool → Bool
says a n (applied app name now) before = same_migration app name a n || before
says a n (unapplied app name) before = not (same_migration app name a n) && before

pub says_last : Text → Text → List Event → Bool → Bool
says_last a n [] before = before
says_last a n (v ∷ events) before = says_last a n events (says a n v before)

module _ {V : Server} where
  pub play : Event → Recorder V → Result × Recorder V
  play (applied app name now) r = record_applied app name now r
  play (unapplied app name) r = record_unapplied app name r

  pub play_all : List Event → Recorder V → Result × Recorder V
  play_all [] r = (done, r)
  play_all (v ∷ events) r =
      let (result, r1) = play v r in
      elim result [
        | migration_schema_missing ↦ (migration_schema_missing, r1)
        | done ↦ play_all events r1
      ]

  insert_row-known :
      (app name : Text) (now : ℕ) (r : Recorder V)
      → r.known_table ≡ true
      → (insert_row app name now r).known_table ≡ true
  unfolding insert_row
  insert_row-known app name now r k =
      if_cases (λ (q : Recorder V). q.known_table ≡ true)
        (r.connection.is_clickhouse && V.exists (matches app name) r.store) (λ h. k) (λ h. k)

  remove_row-known :
      (app name : Text) (r : Recorder V)
      → r.known_table ≡ true
      → (remove_row app name r).known_table ≡ true
  unfolding remove_row
  remove_row-known app name r k =
      if_cases (λ (q : Recorder V). q.known_table ≡ true) r.connection.is_clickhouse (λ h. k)
        (λ h. k)

  -- What has_table leaves of a recorder whose table exists: the rows read the same.
  migration-keeps :
      (r : Recorder V)
      → ((migration r).1.store ≡ r.store)
        × ((migration r).1.connection.is_clickhouse ≡ r.connection.is_clickhouse)
  unfolding migration
  migration-keeps r = elim (Option-cases r.migration_class) [
    | inl e ↦ (ground arith, ground arith)
    | inr (m, e) ↦ (ground arith, ground arith)
  ]

  add_missing_column-keeps :
      (table : Text) (r : Recorder V)
      → ((add_missing_column table r).known_table ≡ r.known_table)
        × ((add_missing_column table r).connection ≡ r.connection)
        × (V.rows (add_missing_column table r).store ≡ V.rows r.store)
  unfolding add_missing_column
  add_missing_column-keeps table r =
      if_cases
        (λ (q : Recorder V).
          (q.known_table ≡ r.known_table)
          × (q.connection ≡ r.connection)
          × (V.rows q.store ≡ V.rows r.store))
        (r.known_table && r.connection.is_clickhouse && not (V.has_deleted_column table r.store))
        (λ _. (refl, refl, V.rows-add table r.store)) (λ _. (refl, refl, refl))

  -- The recorder knows its table, and reads the same rows of it.
  Opened : Recorder V → Recorder V → Type 0
  Opened r r1 =
      (r1.known_table ≡ true)
      × (r1.connection.is_clickhouse ≡ r.connection.is_clickhouse)
      × (V.rows r1.store ≡ V.rows r.store)

  has_table-Opened :
      (r : Recorder V) (b : Bool)
      → r.known_table ≡ b
      → (has_table r).0 ≡ true
      → Opened r (has_table r).1
  unfolding has_table Opened
  has_table-Opened r true k h = (ground arith, ground arith, ground arith)
  has_table-Opened r false k h =
      let (s, c) = migration-keeps r in
      let (m, r1) = migration r in
      let present = table_in m.table.db_table (V.table_names r1.store) in
      let (p, q, rs) =
        add_missing_column-keeps m.table.db_table (record r1 { known_table = present }) in
      let there : present ≡ true = ground arith in
      let opened : (has_table r).1
          ≡ add_missing_column m.table.db_table (record r1 { known_table = present }) =
        ground arith in
      subst (Opened r) (sym opened) (p ∙ there, ap (λ d. d.is_clickhouse) q ∙ c, rs ∙ ap V.rows s)

  ensure_schema-Opened :
      (r : Recorder V)
      → (has_table r).0 ≡ true
      → (r1 : Recorder V) × (ensure_schema r ≡ (done, r1)) × Opened r r1
  unfolding ensure_schema
  ensure_schema-Opened r h =
      ((has_table r).1, ground arith, has_table-Opened r r.known_table refl h)

  is_applied-Opened :
      (r r1 : Recorder V) (a n : Text) → Opened r r1 → is_applied r1 a n ≡ is_applied r a n
  unfolding is_applied Opened in_qs
  is_applied-Opened r r1 a n (k, c, s) = rw (c, s) refl

  known-has_table : (r : Recorder V) → r.known_table ≡ true → (has_table r).0 ≡ true
  unfolding has_table
  known-has_table r k = ground arith

  play-says :
      (v : Event) (r : Recorder V) (a n : Text)
      → (has_table r).0 ≡ true
      → (r1 : Recorder V) × (play v r ≡ (done, r1))
        × (r1.known_table ≡ true)
        × (is_applied r1 a n ≡ says a n v (is_applied r a n))
  unfolding play says record_applied record_unapplied after Opened
  play-says (applied app name now) r a n h =
      let (r0, e, o) = ensure_schema-Opened r h in
      (
        insert_row app name now r0,
        rw e refl,
        insert_row-known app name now r0 o.0,
        insert_row-applied r0 app name a n now
            ∙ ap (λ b. same_migration app name a n || b) (is_applied-Opened r r0 a n o),
      )
  play-says (unapplied app name) r a n h =
      let (r0, e, o) = ensure_schema-Opened r h in
      (
        remove_row app name r0,
        rw e refl,
        remove_row-known app name r0 o.0,
        remove_row-applied r0 app name a n
            ∙ ap (λ b. not (same_migration app name a n) && b) (is_applied-Opened r r0 a n o),
      )

  -- Where the recorder finds its table, new or not, any sequence of records of applied and unapplied
  -- migrations succeeds, on ClickHouse, where rows are marked, and elsewhere, where they are deleted,
  -- and whatever rows there were; and then a migration counts as applied exactly as the last event
  -- about it says, or as it did before if there is none. What a statement does to the rows is read
  -- as soon as it returns, which for distributed migrations takes insert_distributed_sync.
  pub play_all-says :
      (events : List Event) (r : Recorder V) (a n : Text)
      → (has_table r).0 ≡ true
      → (r1 : Recorder V) × (play_all events r ≡ (done, r1))
        × (is_applied r1 a n ≡ says_last a n events (is_applied r a n))
  unfolding play_all says_last
  play_all-says [] r a n k = (r, refl, refl)
  play_all-says (v ∷ events) r a n k =
      let (r1, p, k1, q) = play-says v r a n k in
      let (r2, p2, q2) = play_all-says events r1 a n (known-has_table r1 k1) in
      (r2, ground (arith, p, p2), q2 ∙ ap (says_last a n events) q)

any-flushed :
    (c : Connection) (a n : Text) (rows : List Row)
    → any (counts c a n) (filter (λ row. not (in_qs c row)) rows) ≡ false
unfolding counts
any-flushed c a n [] = refl
any-flushed c a n (row ∷ rows) =
    if_cases (λ rest. any (counts c a n) rest ≡ false) (not (in_qs c row))
      (λ h. ground (arith, any-flushed c a n rows)) (λ h. any-flushed c a n rows)

module _ {V : Server} where
  -- After flush no migration counts as applied, on ClickHouse or elsewhere, and one that is then
  -- recorded as applied is the only one.
  pub flush-applied :
      (r : Recorder V) (app name a n : Text) (now : ℕ)
      → (is_applied (flush r) a n ≡ false)
        × (is_applied (insert_row app name now (flush r)) a n ≡ same_migration app name a n)
  unfolding flush is_applied counts
  flush-applied r app name a n now =
      let gone : is_applied (flush r) a n ≡ false =
        rw (V.rows-delete (in_qs r.connection) r.store)
          (any-flushed r.connection a n (V.rows r.store)) in
      (gone, ground (arith, gone, insert_row-applied (flush r) app name a n now))
