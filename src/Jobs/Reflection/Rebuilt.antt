-- ===== src/Jobs/Reflection/Rebuilt.antt =====
-- jobs/reflection.py: what is left of stale summaries after `rebuild_stale_summaries`.
use conversational_memory_sy.Prelude.{
  ℕ, ◌≤◌, ◌≡◌, refl, ◌∙◌, Bool, true, false, ◌&&◌, inl, inr, List, [], ◌∷◌, ◌==◌, keep, count_if,
  All, arith, Bool-cases,
}
use conversational_memory_sy.Store.{Row, Session, update_where}
use conversational_memory_sy.Store.Updates.{count-update_where}
use conversational_memory_sy.Store.Memories.{Tables}
use conversational_memory_sy.Api.Memories.{is_any}
use conversational_memory_sy.Api.Memories.Changes.{count_mono}
use conversational_memory_sy.Jobs.Reflection.{
  is_stale, is_retirable, retired_row, is_folded, freed_row, retire, rebuild_one,
}

module _ {W E : Type 0} where
  none_match :
      (p : Row W E → Bool) (rows : List (Row W E))
      → is_any (keep p rows) ≡ false
      → count_if p rows ≡ 0
  none_match p [] h = refl
  none_match p (r ∷ rows) h = elim (Bool-cases (p r)) [
    | inl hit ↦ ground (arith, hit, h)
    | inr miss ↦ ground (arith, miss, none_match p rows (ground (arith, miss, h)))
  ]

  -- an UPDATE of all that is counted
  count-cleared :
      (p test : Row W E → Bool) (change : Row W E → Row W E)
      → ((r : Row W E) → test r ≡ true → p (change r) ≡ false)
      → ((r : Row W E) → test r ≡ false → p r ≡ false)
      → (rows : List (Row W E)) → count_if p (update_where test change rows) ≡ 0
  count-cleared p test change hit miss [] = refl
  count-cleared p test change hit miss (r ∷ rows) = elim (Bool-cases (test r)) [
    | inl yes_ ↦ ground (arith, yes_, hit r yes_, count-cleared p test change hit miss rows)
    | inr no_ ↦ ground (arith, no_, miss r no_, count-cleared p test change hit miss rows)
  ]

  count-shrunk :
      (p test : Row W E → Bool) (change : Row W E → Row W E)
      → ((r : Row W E) → test r ≡ true → p (change r) ≡ false)
      → (rows : List (Row W E)) → count_if p (update_where test change rows) ≤ count_if p rows
  count-shrunk p test change hit [] = omega arith
  count-shrunk p test change hit (r ∷ rows) = elim (Bool-cases (test r)) [
    | inl yes_ ↦ ground (arith, yes_, hit r yes_, count-shrunk p test change hit rows)
    | inr no_ ↦ ground (arith, no_, count-shrunk p test change hit rows)
  ]

  pub count-keep :
      (p q : Row W E → Bool) (rows : List (Row W E))
      → count_if q (keep p rows) ≡ count_if (λ r. p r && q r) rows
  count-keep p q [] = refl
  count-keep p q (r ∷ rows) = elim (Bool-cases (p r)) [
    | inl hit ↦ ground (arith, hit, count-keep p q rows)
    | inr miss ↦ ground (arith, miss, count-keep p q rows)
  ]

  abbrev pub has_number : ℕ → Row W E → Bool
  has_number m r = r.id == m

  -- the stale summaries of an id that are still there
  abbrev pub stale_left : Session → ℕ → List (Row W E) → ℕ
  stale_left s m = count_if (λ r. is_stale s r && has_number m r)

  -- the sources that a summary of this id still holds
  abbrev pub folded_left : Session → ℕ → List (Row W E) → ℕ
  folded_left s id = count_if (is_folded s id)

  -- the loop's body retires a row or it does nothing
  rebuild_one-by :
      (now : ℕ) (s : Session) (id : ℕ) (db : Tables W E) (G : Tables W E × List ℕ × ℕ → Type 0)
      → (is_any (keep (is_retirable s id) db.rows) ≡ true → G (retire now s id db))
      → (is_any (keep (is_retirable s id) db.rows) ≡ false → G (db, [], 0))
      → G (rebuild_one now s id db)
  rebuild_one-by now s id db G hit miss =
      elim (Bool-cases (is_any (keep (is_retirable s id) db.rows))) [
        | inl some_row ↦ rw (some_row) (hit some_row)
        | inr no_row ↦ rw (no_row) (miss no_row)
      ]

  pub stale_left-rebuild_one :
      (now : ℕ) (s : Session) (id : ℕ) (db : Tables W E)
      → stale_left s id (rebuild_one now s id db).0.rows ≡ 0
  stale_left-rebuild_one now s id db =
      let p : Row W E → Bool = λ r. is_stale s r && has_number id r in
      let rows = update_where (is_retirable s id) (retired_row now) db.rows in
      rebuild_one-by now s id db (λ x. stale_left s id x.0.rows ≡ 0)
        (λ _.
          count-update_where p (is_folded s id) (freed_row now) (λ r _. refl) rows
          ∙ count-cleared p (is_retirable s id) (retired_row now) (λ r h. ground arith)
              (λ r h. ground (arith, h)) db.rows)
        (λ none_there.
          let least = count_mono p (is_retirable s id) (λ r h. ground (arith, h)) db.rows in
          omega (arith, least, none_match (is_retirable s id) db.rows none_there))

  pub stale_left-others :
      (now : ℕ) (s : Session) (id m : ℕ) (db : Tables W E)
      → (id == m) ≡ false
      → stale_left s m (rebuild_one now s id db).0.rows ≡ stale_left s m db.rows
  stale_left-others now s id m db other =
      let p : Row W E → Bool = λ r. is_stale s r && has_number m r in
      let rows = update_where (is_retirable s id) (retired_row now) db.rows in
      rebuild_one-by now s id db (λ x. stale_left s m x.0.rows ≡ stale_left s m db.rows)
        (λ _.
          count-update_where p (is_folded s id) (freed_row now) (λ r _. refl) rows
          ∙ count-update_where p (is_retirable s id) (retired_row now)
              (λ r h. ground (arith, h, other)) db.rows)
        (λ _. refl)

  pub folded_left-rebuild_one :
      (now : ℕ) (s : Session) (id : ℕ) (db : Tables W E)
      → All (λ k. folded_left s k (rebuild_one now s id db).0.rows ≡ 0) (rebuild_one now s id db).1
  folded_left-rebuild_one now s id db =
      let rows = update_where (is_retirable s id) (retired_row now) db.rows in
      rebuild_one-by now s id db (λ x. All (λ k. folded_left s k x.0.rows ≡ 0) x.1)
        (λ _. (
          count-cleared (is_folded s id) (is_folded s id) (freed_row now) (λ r h. ground arith)
              (λ r h. h) rows,
          tt,
        ))
        (λ _. tt)

  pub folded_left-shrinks :
      (now : ℕ) (s : Session) (id k : ℕ) (db : Tables W E)
      → folded_left s k (rebuild_one now s id db).0.rows ≤ folded_left s k db.rows
  folded_left-shrinks now s id k db =
      let rows = update_where (is_retirable s id) (retired_row now) db.rows in
      let retiring =
        count-shrunk (is_folded s k) (is_retirable s id) (retired_row now) (λ r h. ground arith)
          db.rows in
      let freeing =
        count-shrunk (is_folded s k) (is_folded s id) (freed_row now) (λ r h. ground arith) rows in
      rebuild_one-by now s id db (λ x. folded_left s k x.0.rows ≤ folded_left s k db.rows)
        (λ _. omega (arith, retiring, freeing)) (λ _. omega arith)
