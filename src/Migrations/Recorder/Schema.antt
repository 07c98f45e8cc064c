-- ===== src/Migrations/Recorder/Schema.antt =====
-- What ensure_schema leaves behind.
use django_clickhouse_backen.Prelude.{
  ◌≡◌, ◌⊎◌, inl, inr, refl, sym, subst, ◌∙◌, Bool, true, false, not, ◌&&◌, some, arith, if_cases,
  Bool-cases, Option-cases, ap,
}
use django_clickhouse_backen.Migrations.Connection.{Connection, should_distribute_migrations}
use django_clickhouse_backen.Migrations.Recorder.{
  Table, Model, Server, Recorder, done, table_in, check_replicas, make_model, migration,
  add_missing_column, has_table, create_table, create_tables, ensure_schema,
}

make_model-column :
    (c : Connection) (b : Bool) → (make_model c b).table.deleted_column ≡ c.is_clickhouse
unfolding make_model
make_model-column c b = ground arith

module _ (V : Server) where
  -- What is known of a call of `create_model` that succeeds.
  created-Ready :
      (t : Table) (d d' : V.Store)
      → V.create_model t d ≡ (true, d')
      → (table_in t.db_table (V.table_names d') ≡ true)
        × (V.has_deleted_column t.db_table d' ≡ t.deleted_column)
  created-Ready t d d' h = (V.names-create_model t d d' h, V.column-create_model t d d' h)

module _ {V : Server} where
  -- The table of the model exists, on ClickHouse with the column `deleted`.
  pub Ready : Model → Recorder V → Type 0
  Ready m r =
      (table_in m.table.db_table (V.table_names r.store) ≡ true)
      × (r.connection.is_clickhouse ≡ true → V.has_deleted_column m.table.db_table r.store ≡ true)

  -- The cached model is one that the connection defines.
  unfoldable pub Defined : Recorder V → Type 0
  Defined r =
      (m : Model) → r.migration_class ≡ some m → m.table.deleted_column ≡ r.connection.is_clickhouse

  create_table-shape :
      (t : Table) (r r1 : Recorder V)
      → create_table t r ≡ (done, r1)
      → (r1 ≡ record r { store = r1.store }) × (V.create_model t r.store ≡ (true, r1.store))
  unfolding create_table
  create_table-shape t r r1 h = ground arith

  create_table-Ready :
      (m : Model) (r r1 : Recorder V)
      → m.table.deleted_column ≡ r.connection.is_clickhouse
      → create_table m.table r ≡ (done, r1)
      → Ready m r1
  unfolding create_table Ready
  create_table-Ready m r r1 d h =
      let (e, c) = create_table-shape m.table r r1 h in
      let (names, column) = created-Ready V m.table r.store r1.store c in
      (names, λ k. column ∙ ground arith)

  create_tables-last :
      (m : Model) (r r1 : Recorder V)
      → create_tables m r ≡ (done, r1)
      → (r0 : Recorder V) × (create_table m.table r0 ≡ (done, r1))
        × (r0.connection ≡ r.connection)
        × (r0.migration_class ≡ r.migration_class)
  unfolding create_tables
  create_tables-last m r r1 h = elim (Option-cases m.local_model_class) [
    | inl e ↦ (r, ground arith, refl, refl)
    | inr (t, e) ↦ elim (Bool-cases (table_in t.db_table (V.table_names r.store))) [
      | inl b ↦ (r, ground arith, refl, refl)
      | inr b ↦
          let r0 = (create_table t r).1 in
          let (s, c) = create_table-shape t r r0 (ground arith) in
          (r0, ground arith, ap (λ q. q.connection) s, ap (λ q. q.migration_class) s)
    ]
  ]

  -- What the property Migration gives.
  migration-known :
      (r : Recorder V)
      → Defined r
      → (m : Model) × (r1 : Recorder V) × (migration r ≡ (m, r1))
        × (r1.migration_class ≡ some m)
        × (m.table.deleted_column ≡ r1.connection.is_clickhouse)
        × (r1.store ≡ r.store)
  unfolding migration Defined
  migration-known r v = elim (Option-cases r.migration_class) [
    | inr (m, e) ↦ (m, r, ground arith, e, v m e, refl)
    | inl e ↦
        let replicas = check_replicas V r.connection r.store in
        let m = make_model r.connection replicas in
        elim (Bool-cases
          (r.connection.is_clickhouse && should_distribute_migrations r.connection)) [
            | inl b ↦ (
              m,
              record r {
                connection = record (r.connection) { has_replicas = some replicas };
                migration_class = some m;
              },
              ground arith,
              refl,
              make_model-column r.connection replicas,
              refl,
            )
            | inr b ↦ (
              m,
              record r { migration_class = some m },
              ground arith,
              refl,
              make_model-column r.connection replicas,
              refl,
            )
          ]
  ]

  migration_cached :
      (m : Model) (r : Recorder V) → r.migration_class ≡ some m → migration r ≡ (m, r)
  unfolding migration
  migration_cached m r e = ground arith

  add_missing_column-Ready :
      (m : Model) (r : Recorder V)
      → r.known_table ≡ true
      → table_in m.table.db_table (V.table_names r.store) ≡ true
      → Ready m (add_missing_column m.table.db_table r)
        × ((add_missing_column m.table.db_table r).migration_class ≡ r.migration_class)
  unfolding add_missing_column Ready
  add_missing_column-Ready m r k h =
      let t = m.table.db_table in
      if_cases (λ (q : Recorder V). Ready m q × (q.migration_class ≡ r.migration_class))
        (r.known_table && r.connection.is_clickhouse && not (V.has_deleted_column t r.store))
        (λ b. ((rw (V.names-add t r.store) h, λ c. V.column-add t r.store), refl))
        (λ b. ((h, λ c. ground arith), refl))

  create_tables-Ready :
      (m : Model) (r r1 : Recorder V)
      → r.migration_class ≡ some m
      → m.table.deleted_column ≡ r.connection.is_clickhouse
      → create_tables m r ≡ (done, r1)
      → (r1.migration_class ≡ some m) × Ready m r1
  create_tables-Ready m r r1 e c h =
      let (r0, last, same_connection, same_class) = create_tables-last m r r1 h in
      let (shape, _) = create_table-shape m.table r0 r1 last in
      (
        ap (λ (q : Recorder V). q.migration_class) shape ∙ same_class ∙ e,
        create_table-Ready m r0 r1
            (c ∙ ap (λ (q : Connection). q.is_clickhouse) (sym same_connection)) last,
      )

  has_table-split :
      (m : Model) (r r1 r2 : Recorder V)
      → r.known_table ≡ false
      → migration r ≡ (m, r2)
      → r2.migration_class ≡ some m
      → ensure_schema r ≡ (done, r1)
      → ((table_in m.table.db_table (V.table_names r2.store) ≡ true)
          × (add_missing_column m.table.db_table (record r2 { known_table = true }) ≡ r1))
        ⊎ (create_tables m (record r2 { known_table = false }) ≡ (done, r1))
  unfolding ensure_schema has_table add_missing_column
  has_table-split m r r1 r2 k p e h =
      elim (Bool-cases (table_in m.table.db_table (V.table_names r2.store))) [
        | inl b ↦ inl (b, ground (arith, p))
        | inr b ↦ inr (ground (arith, p, migration_cached m (record r2 { known_table = false }) e))
      ]

  -- A call of ensure_schema that does not raise, on a recorder that does not know the table yet and
  -- has not changed the model that it defined, leaves the table of migrations in the database, with
  -- the column `deleted` on ClickHouse, whether the table was missing, of an older version without
  -- the column, or up to date, and whether the migrations are distributed or not.
  pub ensure_schema-Ready :
      (r r1 : Recorder V)
      → r.known_table ≡ false
      → Defined r
      → ensure_schema r ≡ (done, r1)
      → (m : Model) × (r1.migration_class ≡ some m) × Ready m r1
  ensure_schema-Ready r r1 k v h =
      let (m, r2, p, e, c, s) = migration-known r v in
      elim (has_table-split m r r1 r2 k p e h) [
        | inl (b, q) ↦
            let found : Recorder V = record r2 { known_table = true } in
            let (ready, same_class) = add_missing_column-Ready m found refl b in
            (
              m,
              subst (λ (x : Recorder V). x.migration_class ≡ some m) q (same_class ∙ e),
              subst (Ready m) q ready,
            )
        | inr q ↦
            let (same_class, ready) =
              create_tables-Ready m (record r2 { known_table = false }) r1 e c q in
            (m, same_class, ready)
      ]
