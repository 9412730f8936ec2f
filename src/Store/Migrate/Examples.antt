-- ===== src/Store/Migrate/Examples.antt =====
-- store/migrate.py: two files in the wrong order, the second of which names a variable that is not
-- there. The database is the texts that it executed.
use conversational_memory_sy.Prelude.{
  ◌≡◌, ◌≢◌, refl, true, false, Option, none, some, List, [], ◌∷◌,
}
use conversational_memory_sy.Prelude.Perms.{Permᴰ}
use conversational_memory_sy.Prelude.Sorting.{sort, IsSorted}
use conversational_memory_sy.Context.Text.{Text, codes}
use conversational_memory_sy.Context.Tokens.{same_text}
use conversational_memory_sy.Store.Migrate.{Migration, by_name, render, render_from, apply_all}
use conversational_memory_sy.Store.Migrate.Ledger.{IsPrefix, apply_all-IsPrefix}

abbrev values : Text → Option Text
values name = elim (same_text name (codes "DIM")) [ true ↦ some (codes "1024") | false ↦ none ]

abbrev digest : Text → Text
digest t = t

abbrev logged : Text → List Text → Option (List Text)
logged sql database = some (sql ∷ database)

abbrev files : List Migration
files =
    record { filename = 2; raw = codes "role ${WHO}" }
    ∷ record { filename = 1; raw = codes "vector(${DIM}) $5" }
    ∷ []

renders : render values (codes "vector(${DIM}) $5") ≡ some (codes "vector(1024) $5")
unfolding render render_from
renders = refl

two_files : files ≢ []
two_files e = cc

apply_all-IsPrefix_example :
    Permᴰ (sort by_name files) files
    × IsSorted by_name (sort by_name files)
    × IsPrefix values digest logged
        (sort by_name files)
        []
        []
        0
        (apply_all values digest logged files [] [])
apply_all-IsPrefix_example = apply_all-IsPrefix values digest logged files [] [] two_files
