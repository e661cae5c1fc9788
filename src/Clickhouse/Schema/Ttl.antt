-- ===== src/Clickhouse/Schema/Ttl.antt =====
-- internal/adapter/outbound/clickhouse/writer.go: when `Migrate` succeeds, and the TTL it leaves.
--
-- `ttl_of` reads a run of statements as the server does: it starts from the TTL of a table and keeps
-- the last one that a statement that succeeded set.
use dns_flow.Prelude.{
  Text, Bool, Bool-cases, true, false, List, [], ◌∷◌, ◌++◌, Option, none, some, if◌then◌else◌, not,
  ◌==◌, ◌&&◌, ◌⊎◌, inl, inr, ◌≡◌, ◌≢◌, ◌∙◌, refl, arith,
}
use dns_flow.Prelude.Int.{ℤ, pos, ltb_ℤ}
use dns_flow.Clickhouse.Schema.{
  Config, Table, dns_raw, dns_answers, Statement, create_database, create_table, add_column,
  modify_ttl, remove_ttl, Server, Migrated, exec_all, ttl_clause, ColumnType, raw_schema,
  answer_schema, migrate, migrate_tables, migrate_needed, create_queries, ttl_queries,
  column_queries, alter_queries,
}

abbrev pub same_table : Table → Table → Bool
same_table dns_raw dns_raw = true
same_table dns_answers dns_answers = true
same_table dns_raw dns_answers = false
same_table dns_answers dns_raw = false

-- The TTL of a table after a statement that succeeds. A table that was there is kept by the statement
-- that creates it, and so is its TTL.
abbrev pub ttl_after : Bool → Table → Statement → Option ℤ → Option ℤ
ttl_after kept t (create_table u columns days) old =
    if same_table u t && not kept then days else old
ttl_after kept t (modify_ttl u days) old = if same_table u t then some days else old
ttl_after kept t (remove_ttl u) old = if same_table u t then none else old
ttl_after kept t (create_database name) old = old
ttl_after kept t (add_column u name type) old = old

abbrev pub ttl_of : Bool → Table → List (Statement × Bool) → Option ℤ → Option ℤ
ttl_of kept t [] old = old
ttl_of kept t ((s, ok) ∷ rest) old = ttl_of kept t rest (if ok then ttl_after kept t s old else old)

ttl_of-append :
    (kept : Bool) (t : Table) (xs ys : List (Statement × Bool)) (old : Option ℤ)
    → ttl_of kept t (xs ++ ys) old ≡ ttl_of kept t ys (ttl_of kept t xs old)
ttl_of-append kept t [] ys old = refl
ttl_of-append kept t ((s, ok) ∷ xs) ys old =
    ttl_of-append kept t xs ys (if ok then ttl_after kept t s old else old)

-- Statements that add columns leave every TTL as it is.
add_columns_only : List Statement → Bool
add_columns_only [] = true
add_columns_only (create_database name ∷ rest) = false
add_columns_only (create_table u columns days ∷ rest) = false
add_columns_only (add_column u name type ∷ rest) = add_columns_only rest
add_columns_only (modify_ttl u days ∷ rest) = false
add_columns_only (remove_ttl u ∷ rest) = false

add_columns-ttl_of :
    (executes : Statement → Bool) (kept : Bool) (t : Table) (qs : List Statement) (old : Option ℤ)
    → add_columns_only qs ≡ true
    → ttl_of kept t (exec_all executes qs) old ≡ old
unfolding exec_all add_columns_only
add_columns-ttl_of executes kept t [] old h = refl
add_columns-ttl_of executes kept t (create_database name ∷ rest) old h = cc
add_columns-ttl_of executes kept t (create_table u columns days ∷ rest) old h = cc
add_columns-ttl_of executes kept t (add_column u name type ∷ rest) old h =
    elim (Bool-cases (executes (add_column u name type))) [
      | inl ok ↦ rw ok (add_columns-ttl_of executes kept t rest old h)
      | inr failed ↦ rw failed (add_columns-ttl_of executes kept t rest old h)
    ]
add_columns-ttl_of executes kept t (modify_ttl u days ∷ rest) old h = cc
add_columns-ttl_of executes kept t (remove_ttl u ∷ rest) old h = cc

-- The server lets `Migrate` pass.
abbrev pub passes : Server → Bool
passes s =
    if s.connects
    then (if s.pings
        then (if s.database_count == 0
            then (if s.creates_database then s.reconnects else false)
            else s.reconnects)
        else false)
    else false

module _ (cfg : Config) where
  abbrev pub wanted : Option ℤ
  wanted = if ltb_ℤ (pos 0) cfg.ttl_days then some cfg.ttl_days else none

  -- The statement that sets the TTL of a table, or removes it.
  abbrev pub ttl_statement : Table → Statement
  ttl_statement t = if ltb_ℤ (pos 0) cfg.ttl_days then modify_ttl t cfg.ttl_days else remove_ttl t

  ttl_queries-ttl_of :
      (executes : Statement → Bool) (kept : Bool) (t : Table) (old : Option ℤ)
      → ttl_of kept t (exec_all executes (ttl_queries cfg)) old
        ≡ (if executes (ttl_statement t) then wanted else old)
  unfolding ttl_queries exec_all
  ttl_queries-ttl_of executes kept dns_raw old = ground arith
  ttl_queries-ttl_of executes kept dns_answers old = ground arith

  -- The TTL that was there, or the wanted one, of a table that is created.
  abbrev pub OldOrWanted : Option ℤ → Option ℤ → Type 0
  OldOrWanted old days = (days ≡ old) ⊎ (days ≡ wanted)

  create_table-OldOrWanted :
      (kept ok : Bool) (t u : Table) (columns : List (Text × ColumnType)) (old days : Option ℤ)
      → OldOrWanted old days
      → OldOrWanted old
          (if ok then ttl_after kept t (create_table u columns (ttl_clause cfg)) days else days)
  unfolding ttl_clause
  create_table-OldOrWanted kept false t u columns old days h = h
  create_table-OldOrWanted kept true t u columns old days h =
      elim (Bool-cases (same_table u t && not kept)) [
        | inl made ↦ rw made (inr refl)
        | inr kept_it ↦ rw kept_it h
      ]

  create_queries-OldOrWanted :
      (executes : Statement → Bool) (kept : Bool) (t : Table) (old : Option ℤ)
      → OldOrWanted old (ttl_of kept t (exec_all executes (create_queries cfg)) old)
  unfolding create_queries exec_all
  create_queries-OldOrWanted executes kept t old =
      create_table-OldOrWanted kept _ t dns_answers answer_schema old _
        (create_table-OldOrWanted kept _ t dns_raw raw_schema old old (inl refl))

  created-OldOrWanted :
      (executes : Statement → Bool) (kept needed : Bool) (t : Table) (old : Option ℤ)
      → OldOrWanted old
          (ttl_of kept t (exec_all executes (if needed then create_queries cfg else [])) old)
  unfolding exec_all
  created-OldOrWanted executes kept true t old = create_queries-OldOrWanted executes kept t old
  created-OldOrWanted executes kept false t old = inl refl

  exec_all-append :
      (executes : Statement → Bool) (xs ys : List Statement)
      → exec_all executes (xs ++ ys) ≡ exec_all executes xs ++ exec_all executes ys
  unfolding exec_all
  exec_all-append executes [] ys = refl
  exec_all-append executes (x ∷ xs) ys = rw (exec_all-append executes xs ys) refl

  alter_queries-ttl_of :
      (executes : Statement → Bool) (kept : Bool) (t : Table) (old : Option ℤ)
      → ttl_of kept t (exec_all executes (alter_queries cfg)) old
        ≡ (if executes (ttl_statement t) then wanted else old)
  unfolding alter_queries add_columns_only
  alter_queries-ttl_of executes kept t old =
      rw
        (
          exec_all-append executes (column_queries cfg) (ttl_queries cfg),
          ttl_of-append kept t (exec_all executes (column_queries cfg)) _ old,
          add_columns-ttl_of executes kept t (column_queries cfg) old refl,
        )
        (ttl_queries-ttl_of executes kept t old)

  -- The TTL is the wanted one where the statement for it succeeds. Where it fails, it is the wanted
  -- one or the old one.
  abbrev pub TtlResult : (Statement → Bool) → Table → Option ℤ → Option ℤ → Type 0
  TtlResult executes t old days =
      ((executes (ttl_statement t) ≡ true) × (days ≡ wanted))
      ⊎ ((executes (ttl_statement t) ≡ false) × OldOrWanted old days)

  tables-TtlResult :
      (s : Server) (kept : Bool) (t : Table) (old : Option ℤ) (before : List (Statement × Bool))
      → ttl_of kept t before old ≡ old
      → TtlResult s.executes t old (
          ttl_of kept t
            (before
              ++ exec_all s.executes (if migrate_needed s then create_queries cfg else [])
              ++ exec_all s.executes (alter_queries cfg))
            old)
  tables-TtlResult s kept t old before h =
      let created : List (Statement × Bool) =
        exec_all s.executes (if migrate_needed s then create_queries cfg else []) in
      let last : List (Statement × Bool) = exec_all s.executes (alter_queries cfg) in
      let days =
        ttl_of-append kept t (before ++ created) last old
        ∙ alter_queries-ttl_of s.executes kept t (ttl_of kept t (before ++ created) old) in
      let middle : ttl_of kept t (before ++ created) old ≡ ttl_of kept t created old =
        rw (ttl_of-append kept t before created old, h) refl in
      elim (Bool-cases (s.executes (ttl_statement t))) [
        | inl ok ↦ inl (ok, days ∙ rw ok refl)
        | inr failed ↦ inr (
          failed,
          rw (days, failed, middle) (created-OldOrWanted s.executes kept (migrate_needed s) t old),
        )
      ]

  -- What a run of `Migrate` comes to that passes.
  abbrev pub Succeeds : Server → Bool → Table → Option ℤ → Migrated → Type 0
  Succeeds s kept t old m =
      (m.error ≡ none)
      × (m.started ≡ true)
      × TtlResult s.executes t old (ttl_of kept t m.statements old)

  abbrev pub Refused : Bool → Table → Option ℤ → Migrated → Type 0
  Refused kept t old m =
      (m.error ≢ none) × (m.started ≡ false) × (ttl_of kept t m.statements old ≡ old)

  abbrev Judged : Server → Bool → Table → Option ℤ → Bool → Migrated → Type 0
  Judged s kept t old b m =
      ((b ≡ true) × Succeeds s kept t old m) ⊎ ((b ≡ false) × Refused kept t old m)

  Judged-unless :
      (s : Server) (kept : Bool) (t : Table) (old : Option ℤ) (b : Bool) {x : Bool} (m n : Migrated)
      → Judged s kept t old x m
      → Refused kept t old n
      → Judged s kept t old (if b then x else false) (if not b then n else m)
  Judged-unless s kept t old true m n hm hn = hm
  Judged-unless s kept t old false m n hm hn = inr (refl, hn)

  Judged-if :
      (s : Server) (kept : Bool) (t : Table) (old : Option ℤ) (b : Bool) {x y : Bool}
      (m n : Migrated)
      → Judged s kept t old x m
      → Judged s kept t old y n
      → Judged s kept t old (if b then x else y) (if b then m else n)
  Judged-if s kept t old true m n hm hn = hm
  Judged-if s kept t old false m n hm hn = hn

  migrate_tables-Judged :
      (s : Server) (kept : Bool) (t : Table) (old : Option ℤ) (before : List (Statement × Bool))
      → ttl_of kept t before old ≡ old
      → Judged s kept t old s.reconnects (migrate_tables cfg s before)
  unfolding migrate_tables
  migrate_tables-Judged s kept t old before h = elim (Bool-cases s.reconnects) [
    | inl on ↦ rw on (inl (refl, (refl, refl, tables-TtlResult s kept t old before h)))
    | inr off ↦ rw off (inr (refl, (ground arith, refl, h)))
  ]

  -- `Migrate` returns nil exactly when it connects, the ping succeeds, the database is there or is
  -- created, and the second connection succeeds, whichever of the statements on the tables fail.
  -- Then the flusher runs, and of the two tables each for which the last statement, the one for its
  -- TTL, succeeds has the configured TTL where that is positive and no TTL otherwise, whatever TTL it
  -- had; where that statement fails, the TTL is this or the one before `Migrate`. If `Migrate`
  -- returns an error, the flusher does not run and the TTL of both tables stays.
  pub migrate-Ttl :
      (s : Server) (kept : Bool) (t : Table) (old : Option ℤ)
      → ((passes s ≡ true) × Succeeds s kept t old (migrate cfg s))
        ⊎ ((passes s ≡ false) × Refused kept t old (migrate cfg s))
  unfolding migrate
  migrate-Ttl s kept t old =
      Judged-unless s kept t old s.connects _ _
        (Judged-unless s kept t old s.pings _ _
          (Judged-if s kept t old (s.database_count == 0) _ _
            (Judged-if s kept t old s.creates_database _ _
              (migrate_tables-Judged s kept t old ((create_database cfg.database, true) ∷ []) refl)
              (inr (refl, (ground arith, refl, refl))))
            (migrate_tables-Judged s kept t old [] refl))
          (ground arith, refl, refl))
        (ground arith, refl, refl)
