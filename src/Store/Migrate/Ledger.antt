-- ===== src/Store/Migrate/Ledger.antt =====
-- store/migrate.py: what the ledger says after a run, also one that failed.
use conversational_memory_sy.Prelude.{
  ℕ, suc, ◌+◌, ◌≡◌, ◌≢◌, refl, ap, Bool, true, false, Option, none, some, List, [], ◌∷◌, ◌++◌, ◌==◌,
  if◌then◌else◌, length, count_if, arith, inl, inr, Option-cases,
}
use conversational_memory_sy.Prelude.Perms.{Permᴰ, length-perm}
use conversational_memory_sy.Prelude.Sorting.{sort, sort-perm, IsSorted, IsWeakOrder, sort-IsSorted}
use conversational_memory_sy.Context.Text.{Text}
use conversational_memory_sy.Store.Migrate.{
  Migration, Entry, upsert, render, by_name, Applied, executed, apply_files, apply_found, apply_all,
}

-- how often a file was run, by the ledger
abbrev pub runs : ℕ → List Entry → ℕ
runs f [] = 0
runs f (e ∷ es) = let rest = runs f es in if e.filename == f then e.run_count else rest

runs-upsert :
    (g f : ℕ) (checksum : Text) (ledger : List Entry)
    → runs g (upsert f checksum ledger) ≡ runs g ledger + (if f == g then 1 else 0)
unfolding upsert
runs-upsert g f checksum [] = ground arith
runs-upsert g f checksum (e ∷ es) = ground (arith, runs-upsert g f checksum es)

by_name-IsWeakOrder : IsWeakOrder by_name
by_name-IsWeakOrder = record {
  asymm = λ a b h. (let x = a.filename in let y = b.filename in ground arith);
  ge_trans =
      λ a b c h k. (let x = a.filename in let y = b.filename in let z = c.filename in ground arith);
}

sorted_some : (files : List Migration) → files ≢ [] → sort by_name files ≢ []
sorted_some [] h = absurd (h refl)
sorted_some (m ∷ ms) h = λ e.
    let size = length-perm (sort-perm by_name (m ∷ ms)) in
    let none_left : length (sort by_name (m ∷ ms)) ≡ 0 = ap length e in
    absurd (omega (arith, size, none_left))

abbrev pub is_file : ℕ → Migration → Bool
is_file f m = m.filename == f

module _ {D : Type 0} (values : Text → Option Text) (checksum : Text → Text)
    (execute : Text → D → Option D) where
  -- the database after some files that all succeed
  abbrev pub after_files : List Migration → D → Option D
  after_files [] database = some database
  after_files (m ∷ ms) database =
      elim (executed values checksum execute (render values m.raw) database) [
        | none ↦ none
        | some database' ↦ after_files ms database'
      ]

  -- why a run stopped: nothing was left, or the next file fails on the database as it is
  abbrev pub Stopped : List Migration → D → Bool → Type 0
  Stopped [] database failed = failed ≡ false
  Stopped (m ∷ rest) database failed =
      (failed ≡ true) × (executed values checksum execute (render values m.raw) database ≡ none)

  -- The files up to some place have been applied in order, each once and each counted; the rest
  -- has left no trace.
  abbrev pub IsPrefix : List Migration → D → List Entry → ℕ → Applied D → Type 0
  IsPrefix files database ledger applied final =
      (through : List Migration) × (rest : List Migration) × (files ≡ through ++ rest)
      × (after_files through database ≡ some final.database)
      × (final.applied ≡ applied + length through)
      × ((f : ℕ) → runs f final.ledger ≡ runs f ledger + count_if (is_file f) through)
      × Stopped rest final.database final.failed

  apply_files-IsPrefix :
      (files : List Migration) (database : D) (ledger : List Entry) (applied : ℕ)
      → IsPrefix files database ledger applied
          (apply_files values checksum execute files database ledger applied)
  unfolding apply_files
  apply_files-IsPrefix [] database ledger applied =
      ([], [], refl, refl, omega arith, λ f. omega arith, refl)
  apply_files-IsPrefix (m ∷ ms) database ledger applied =
      elim (Option-cases (executed values checksum execute (render values m.raw) database)) [
        | inl fails ↦
            rw (fails, apply_files)
              ([], m ∷ ms, refl, refl, omega arith, λ f. omega arith, (refl, fails))
        | inr (database', goes) ↦
            let (through, rest, files, reached, count, counted, stopped) =
              apply_files-IsPrefix ms database' (upsert m.filename (checksum m.raw) ledger)
                (suc applied) in
            rw (goes, apply_files)
              (
                m ∷ through,
                rest,
                ap (λ xs. m ∷ xs) files,
                rw (goes, after_files) reached,
                omega (arith, count),
                λ f.
                    let one = runs-upsert f m.filename (checksum m.raw) ledger in
                    let more = counted f in ground (arith, one, more),
                stopped,
              )
      ]

  found-IsPrefix :
      (files : List Migration) (database : D) (ledger : List Entry)
      → files ≢ []
      → IsPrefix files database ledger 0 (apply_found values checksum execute files database ledger)
  found-IsPrefix [] database ledger h = absurd (h refl)
  found-IsPrefix (m ∷ ms) database ledger h = apply_files-IsPrefix (m ∷ ms) database ledger 0

  -- A run of the migrations of a directory that is not empty takes the files in the order of
  -- their names and applies those up to some place: the database is what these make of it, the
  -- ledger counts one more run for each of them and for no other, and the run stopped there
  -- because no file was left, or because the next one raises on that database, in which case it
  -- leaves no trace and the run fails.
  pub apply_all-IsPrefix :
      (files : List Migration) (database : D) (ledger : List Entry)
      → files ≢ []
      → let order = sort by_name files in
        Permᴰ order files
        × IsSorted by_name order
        × IsPrefix order database ledger 0 (apply_all values checksum execute files database ledger)
  unfolding apply_all
  apply_all-IsPrefix files database ledger h = (
    sort-perm by_name files,
    sort-IsSorted by_name by_name-IsWeakOrder files,
    found-IsPrefix (sort by_name files) database ledger (sorted_some files h),
  )
