-- ===== src/Store/Migrate.antt =====
-- store/migrate.py: the rendering of a migration, and `apply_all`, which runs each file in a transaction
-- of its own and counts its runs in the ledger. A filename is a number, in the order of the names; what
-- Postgres makes of an SQL text, and the checksum, are parameters. `template_values` is resolved.
pub mod Ledger
mod Examples
use conversational_memory_sy.Prelude.{
  ℕ, suc, ◌+◌, Bool, true, false, ◌&&◌, ◌||◌, Option, none, some, List, [], ◌∷◌, ◌++◌, ◌==◌, ltb,
  leb, if◌then◌else◌,
}
use conversational_memory_sy.Prelude.Sorting.{sort}
use conversational_memory_sy.Context.Text.{Text}

pub record Migration : Type 0 where
  pub filename : ℕ
  pub raw : Text

-- A row of `schema_migrations`, without the time.
pub record Entry : Type 0 where
  pub filename : ℕ
  pub checksum : Text
  pub run_count : ℕ

-- `[A-Z0-9_]`
abbrev pub is_name : ℕ → Bool
is_name c = (leb 65 c && leb c 90) || (leb 48 c && leb c 57) || c == 95

-- How far the scan has come: outside of a placeholder, behind its `$`, or in its name, read so far.
pub data Scan : Type 0 where
  outside dollar : Scan
  naming : Text → Scan

-- the text that was taken for the beginning of a placeholder
abbrev pub unread : Scan → Text
unread outside = []
unread dollar = 36 ∷ []
unread (naming name) = 36 ∷ 123 ∷ name

abbrev pub put_before : Text → Option Text → Option Text
put_before text none = none
put_before text (some rest) = some (text ++ rest)

-- `values[key]`; `none` is the RuntimeError of a name that is no template variable
abbrev pub substituted : Option Text → Option Text → Option Text
substituted none rest = none
substituted (some value) rest = put_before value rest

module _ (values : Text → Option Text) where
  -- `_PLACEHOLDER.sub(sub, sql)`, from left to right
  unfoldable pub render_from : Scan → Text → Option Text
  render_from scan [] = some (unread scan)
  render_from outside (c ∷ cs) =
      let on = render_from dollar cs in
      let plain = put_before (c ∷ []) (render_from outside cs) in if c == 36 then on else plain
  render_from dollar (c ∷ cs) =
      let again = put_before (36 ∷ []) (render_from dollar cs) in
      let named = render_from (naming []) cs in
      let plain = put_before (36 ∷ c ∷ []) (render_from outside cs) in
      if c == 36 then again else (if c == 123 then named else plain)
  render_from (naming []) (c ∷ cs) =
      let longer = render_from (naming (c ∷ [])) cs in
      let again = put_before (unread (naming [])) (render_from dollar cs) in
      let plain = put_before (unread (naming []) ++ c ∷ []) (render_from outside cs) in
      if is_name c then longer else (if c == 36 then again else plain)
  render_from (naming (n ∷ ns)) (c ∷ cs) =
      let longer = render_from (naming ((n ∷ ns) ++ c ∷ [])) cs in
      let closed = substituted (values (n ∷ ns)) (render_from outside cs) in
      let again = put_before (unread (naming (n ∷ ns))) (render_from dollar cs) in
      let plain = put_before (unread (naming (n ∷ ns)) ++ c ∷ []) (render_from outside cs) in
      if is_name c
      then longer
      else (if c == 125 then closed else (if c == 36 then again else plain))

  -- `render`
  unfoldable pub render : Text → Option Text
  unfolding render_from
  render sql = render_from outside sql

-- the INSERT with its ON CONFLICT
unfoldable pub upsert : ℕ → Text → List Entry → List Entry
upsert f checksum [] = record { filename = f; checksum = checksum; run_count = 1 } ∷ []
upsert f checksum (e ∷ es) =
    let rest = upsert f checksum es in
    if e.filename == f
    then record e { checksum = checksum; run_count = e.run_count + 1 } ∷ es
    else e ∷ rest

-- `migration_files`
abbrev pub by_name : Migration → Migration → Bool
by_name a b = ltb a.filename b.filename

-- The database, the ledger, how many files were applied, and whether one of them failed.
pub record Applied (D : Type 0) : Type 0 where
  pub database : D
  pub ledger : List Entry
  pub applied : ℕ
  pub failed : Bool

module _ {D : Type 0} (values : Text → Option Text) (checksum : Text → Text)
    (execute : Text → D → Option D) where
  -- a file's transaction; `none` is an exception, of `render` or of Postgres, and a rollback
  abbrev pub executed : Option Text → D → Option D
  executed none database = none
  executed (some sql) database = execute sql database

  -- the loop of `apply_all`
  unfoldable pub apply_files : List Migration → D → List Entry → (applied : ℕ) → Applied D
  unfolding render upsert
  apply_files [] database ledger applied = record {
    database = database;
    ledger = ledger;
    applied = applied;
    failed = false;
  }
  apply_files (m ∷ ms) database ledger applied = elim (executed (render values m.raw) database) [
    | none ↦ record { database = database; ledger = ledger; applied = applied; failed = true }
    | some database' ↦
        apply_files ms database' (upsert m.filename (checksum m.raw) ledger) (suc applied)
  ]

  abbrev apply_found : List Migration → D → List Entry → Applied D
  apply_found [] database ledger = record {
    database = database;
    ledger = ledger;
    applied = 0;
    failed = true;
  }
  apply_found (m ∷ ms) database ledger = apply_files (m ∷ ms) database ledger 0

  -- `apply_all`, on the files of the directory, with the ledger's table there
  unfoldable pub apply_all : List Migration → D → List Entry → Applied D
  unfolding apply_files
  apply_all files database ledger = apply_found (sort by_name files) database ledger
