-- ===== src/Models/Compiler/Insert/Keys.antt =====
-- The primary keys that an INSERT generates.
use django_clickhouse_backen.Prelude.{
  ℕ, ◌≡◌, refl, ap, sym, subst, ◌∙◌, Text, suc, true, List, [], ◌∷◌, ◌++◌, map, length, arith,
  if◌then◌else◌,
}
use django_clickhouse_backen.Prelude.Int.{ℤ}
use django_clickhouse_backen.Snowflake
use django_clickhouse_backen.Snowflake.{
  Clock, Worker, init, worker, get_id, issue, issued, invalid_system_clock, waiting,
}
use django_clickhouse_backen.Snowflake.Order.{AfterEpoch, Above, issue-init-Above}
use django_clickhouse_backen.Models.Compiler.{Outcome, done, ◌>>=◌, bind-done, done_inj}
use django_clickhouse_backen.Models.Compiler.Insert.{
  Given, Insert, Params, set_key, stamp, insert_sql, absent_of_pk, as_sql,
}

module _ {O V : Type 0} (given : Given O V) (key : O → ℤ) where
  next_ids : Snowflake.Outcome → List ℤ → List ℤ
  next_ids (issued id) ids = id ∷ ids
  next_ids invalid_system_clock ids = ids
  next_ids waiting ids = []

  set_key-next_ids :
      (o : O) (outcome : Snowflake.Outcome) (rest : Outcome (List O)) (ids : List ℤ)
      (stamped : List O)
      → ((x : O) (id : ℤ) → key (given.set_pk x id) ≡ id)
      → ((others : List O) → rest ≡ done others → map key others ≡ ids)
      → set_key given o outcome rest ≡ done stamped
      → map key stamped ≡ next_ids outcome ids
  unfolding set_key next_ids
  set_key-next_ids o (issued id) rest ids stamped set k h =
      let (others, e, h1) = bind-done rest (λ xs. done (given.set_pk o id ∷ xs)) stamped h in
      rw (sym (done_inj (given.set_pk o id ∷ others) stamped h1), set o id, k others e) refl
  set_key-next_ids o invalid_system_clock rest ids stamped set k h = ground arith
  set_key-next_ids o waiting rest ids stamped set k h = ground arith

  issued_ids :
      (outcome : Snowflake.Outcome) (ids : List ℤ)
      → next_ids outcome ids
        ≡ elim outcome [ issued id ↦ id ∷ ids | invalid_system_clock ↦ ids | waiting ↦ [] ]
  unfolding next_ids
  issued_ids (issued id) ids = refl
  issued_ids invalid_system_clock ids = refl
  issued_ids waiting ids = refl

  -- The keys are the ids that as many calls of get_id issue.
  stamp-issue :
      (clock : Clock) (fuel : ℕ) (objs : List O) (w : Worker) (at : ℕ) (stamped : List O)
      → ((o : O) (id : ℤ) → key (given.set_pk o id) ≡ id)
      → stamp given clock fuel objs w at ≡ done stamped
      → map key stamped ≡ issue clock fuel (length objs) w at
  unfolding stamp issue next_ids
  stamp-issue clock fuel [] w at stamped set h = ap (map key) (done_inj stamped [] (sym h))
  stamp-issue clock fuel (o ∷ objs) w at stamped set h =
      let (outcome, w', at') = get_id clock fuel w at in
      set_key-next_ids o outcome (stamp given clock fuel objs w' at')
        (issue clock fuel (length objs) w' at') stamped set
        (λ others e. stamp-issue clock fuel objs w' at' others set e) h
      ∙ issued_ids outcome (issue clock fuel (length objs) w' at')

  set_key-length :
      (o : O) (outcome : Snowflake.Outcome) (rest : Outcome (List O)) (n : ℕ) (stamped : List O)
      → ((others : List O) → rest ≡ done others → length others ≡ n)
      → set_key given o outcome rest ≡ done stamped
      → length stamped ≡ suc n
  unfolding set_key
  set_key-length o (issued id) rest n stamped k h =
      let (others, e, h1) = bind-done rest (λ xs. done (given.set_pk o id ∷ xs)) stamped h in
      rw (sym (done_inj (given.set_pk o id ∷ others) stamped h1), k others e) refl
  set_key-length o invalid_system_clock rest n stamped k h = ground arith
  set_key-length o waiting rest n stamped k h = ground arith

  key_length :
      (clock : Clock) (fuel : ℕ) (objs : List O) (w : Worker) (at : ℕ) (stamped : List O)
      → stamp given clock fuel objs w at ≡ done stamped
      → length stamped ≡ length objs
  unfolding stamp
  key_length clock fuel [] w at stamped h = ap length (done_inj stamped [] (sym h))
  key_length clock fuel (o ∷ objs) w at stamped h =
      let (outcome, w', at') = get_id clock fuel w at in
      set_key-length o outcome (stamp given clock fuel objs w' at') (length objs) stamped
        (λ others e. key_length clock fuel objs w' at' others e) h

  -- The objects with the ids as their keys, in order
  pub with_keys : List O → List ℤ → List O
  with_keys [] ids = []
  with_keys (o ∷ objs) [] = []
  with_keys (o ∷ objs) (id ∷ ids) = given.set_pk o id ∷ with_keys objs ids

  set_key-with_keys :
      (o : O) (objs : List O) (outcome : Snowflake.Outcome) (rest : Outcome (List O)) (ids : List ℤ)
      (stamped : List O)
      → ((others : List O) → rest ≡ done others → others ≡ with_keys objs ids)
      → set_key given o outcome rest ≡ done stamped
      → stamped ≡ with_keys (o ∷ objs) (next_ids outcome ids)
  unfolding set_key next_ids with_keys
  set_key-with_keys o objs (issued id) rest ids stamped k h =
      let (others, e, h1) = bind-done rest (λ xs. done (given.set_pk o id ∷ xs)) stamped h in
      sym (done_inj (given.set_pk o id ∷ others) stamped h1)
      ∙ ap (λ xs. given.set_pk o id ∷ xs) (k others e)
  set_key-with_keys o objs invalid_system_clock rest ids stamped k h = ground arith
  set_key-with_keys o objs waiting rest ids stamped k h = ground arith

  -- The objects are those of the query, with the ids that as many calls of get_id issue.
  stamp-with_keys :
      (clock : Clock) (fuel : ℕ) (objs : List O) (w : Worker) (at : ℕ) (stamped : List O)
      → stamp given clock fuel objs w at ≡ done stamped
      → stamped ≡ with_keys objs (issue clock fuel (length objs) w at)
  unfolding stamp issue with_keys
  stamp-with_keys clock fuel [] w at stamped h = sym (done_inj [] stamped h)
  stamp-with_keys clock fuel (o ∷ objs) w at stamped h =
      let (outcome, w', at') = get_id clock fuel w at in
      set_key-with_keys o objs outcome (stamp given clock fuel objs w' at')
        (issue clock fuel (length objs) w' at') stamped
        (λ others e. stamp-with_keys clock fuel objs w' at' others e) h
      ∙ ap (with_keys (o ∷ objs)) (issued_ids outcome (issue clock fuel (length objs) w' at'))

  -- An INSERT without the key of an AutoField has the statement for the objects of the query, all of
  -- them and in order, where each has its key set to the next of the ids that calls of get_id of the
  -- worker issue, and their keys are strictly increasing, so no two are equal. The clock is after
  -- 2010, the worker is new, and the key of an object is what it was set to.
  pub as_sql-Above :
      (clock : Clock) (fuel at : ℕ) (d k : ℤ) (s : ℕ) (w : Worker) (q : Insert O V)
      (r : Text × Params V)
      → ((o : O) (id : ℤ) → key (given.set_pk o id) ≡ id)
      → AfterEpoch clock
      → init d k s ≡ worker w
      → absent_of_pk given q ≡ true
      → as_sql given clock fuel w at q ≡ done r
      → (objs : List O) × (insert_sql given q (q.fields ++ (q.pk ∷ [])) objs ≡ done r)
        × (objs ≡ with_keys q.objs (issue clock fuel (length q.objs) w at))
        × (length objs ≡ length q.objs)
        × Above 0 (map key objs)
  unfolding as_sql
  as_sql-Above clock fuel at d k s w q r set late new absent h =
      let (objs, e, h1) =
        bind-done (stamp given clock fuel q.objs w at)
          (λ objs. insert_sql given q (q.fields ++ (q.pk ∷ [])) objs) r
          (subst
            (λ b.
              (if b
                then (stamp given clock fuel q.objs w at >>= λ objs.
                    insert_sql given q (q.fields ++ (q.pk ∷ [])) objs)
                else insert_sql given q q.fields q.objs)
              ≡ done r)
            absent h) in
      (
        objs,
        h1,
        stamp-with_keys clock fuel q.objs w at objs e,
        key_length clock fuel q.objs w at objs e,
        subst (Above 0) (sym (stamp-issue clock fuel q.objs w at objs set e))
            (issue-init-Above clock fuel (length q.objs) at d k s w late new),
      )
