-- ===== src/Jobs/Reflection/Cleared.antt =====
-- jobs/reflection.py: the loop of `rebuild_stale_summaries`.
use conversational_memory_sy.Prelude.{
  ℕ, zero, suc, ◌≤◌, ◌≡◌, refl, sym, ap, ◌∙◌, subst, false, ◌⊎◌, inl, inr, List, [], ◌∷◌, ◌++◌,
  ◌==◌, keep, take, length, count_if, All, arith, Bool-cases, ==→eq, take-append-drop, drop_all,
  append-nil,
}
use conversational_memory_sy.Prelude.Perms.{count-Perm, length-perm, All-append, All-map}
use conversational_memory_sy.Prelude.Sorting.{sort, sort-perm}
use conversational_memory_sy.Store.{Row, Session}
use conversational_memory_sy.Store.Memories.{Tables}
use conversational_memory_sy.Jobs.Reflection.{
  is_stale, stale_first, is_folded, rebuild_one, rebuild_all, rebuild_stale_summaries,
}
use conversational_memory_sy.Jobs.Reflection.Rebuilt.{
  count-keep, has_number, stale_left, folded_left, stale_left-rebuild_one, stale_left-others,
  folded_left-rebuild_one, folded_left-shrinks,
}

take_whole : {A : Type 0} (n : ℕ) (xs : List A) → length xs ≤ n → take n xs ≡ xs
take_whole n xs h =
    sym (append-nil (take n xs))
    ∙ (ap (λ ys. take n xs ++ ys) (sym (drop_all n xs h)) ∙ take-append-drop n xs)

zero_or : (n : ℕ) → (n ≡ 0) ⊎ (1 ≤ n)
zero_or zero = inl refl
zero_or (suc n) = inr (omega arith)

module _ {W E : Type 0} where
  -- rows of which no id has a stale one
  none_stale :
      (s : Session) (rows : List (Row W E))
      → ((m : ℕ) → stale_left s m rows ≡ 0)
      → All (λ r. is_stale s r ≡ false) rows
  none_stale s [] h = tt
  none_stale s (r ∷ rows) h = (
    (let here = h r.id in
        elim (Bool-cases (is_stale s r)) [
          | inl stale ↦ ground (arith, here, stale)
          | inr fresh ↦ fresh
        ]),
    none_stale s rows (λ m. (let all = h m in ground (arith, all))),
  )

  stale_left-rebuild_all :
      (now : ℕ) (s : Session) (m : ℕ) (stale : List (Row W E)) (db : Tables W E)
      → (stale_left s m db.rows ≡ 0) ⊎ (1 ≤ count_if (has_number m) stale)
      → stale_left s m (rebuild_all now s stale db).0.rows ≡ 0
  unfolding rebuild_all
  stale_left-rebuild_all now s m [] db (inl clear) = clear
  stale_left-rebuild_all now s m [] db (inr listed) = ground (arith, listed)
  stale_left-rebuild_all now s m (r ∷ stale) db h =
      let next = (rebuild_one now s r.id db).0 in
      elim (Bool-cases (r.id == m)) [
        | inl same ↦
            let gone =
              subst (λ n. stale_left s n next.rows ≡ 0) (==→eq r.id m same)
                (stale_left-rebuild_one now s r.id db) in
            stale_left-rebuild_all now s m stale next (inl gone)
        | inr other ↦
            let unmoved = stale_left-others now s r.id m db other in
            stale_left-rebuild_all now s m stale next (elim h [
              | inl clear ↦ inl (unmoved ∙ clear)
              | inr listed ↦ inr (ground (arith, other, listed))
            ])
      ]

  folded_left-rebuild_all :
      (now : ℕ) (s : Session) (k : ℕ) (stale : List (Row W E)) (db : Tables W E)
      → folded_left s k (rebuild_all now s stale db).0.rows ≤ folded_left s k db.rows
  unfolding rebuild_all
  folded_left-rebuild_all now s k [] db = omega arith
  folded_left-rebuild_all now s k (r ∷ stale) db =
      let next = (rebuild_one now s r.id db).0 in
      omega (arith, folded_left-shrinks now s r.id k db, folded_left-rebuild_all now s k stale next)

  retired-freed :
      (now : ℕ) (s : Session) (stale : List (Row W E)) (db : Tables W E)
      → All
          (λ k. folded_left s k (rebuild_all now s stale db).0.rows ≡ 0)
          (rebuild_all now s stale db).1
  unfolding rebuild_all
  retired-freed now s [] db = tt
  retired-freed now s (r ∷ stale) db =
      let one = rebuild_one now s r.id db in
      let rest = rebuild_all now s stale one.0 in
      let here =
        All-map (λ k. folded_left s k one.0.rows ≡ 0) (λ k. folded_left s k rest.0.rows ≡ 0) one.1
          (λ k clear. omega (arith, clear, folded_left-rebuild_all now s k stale one.0))
          (folded_left-rebuild_one now s r.id db) in
      All-append (λ k. folded_left s k rest.0.rows ≡ 0) one.1 rest.1 here
        (retired-freed now s stale one.0)

  -- If the limit covers the live stale summaries that the session sees, rebuilding leaves none of
  -- them live, and no live row that the session sees and that is not superseded is still folded
  -- into a summary that it retired. Of rows that the session does not see, those of other actors,
  -- it says nothing.
  pub rebuild-clears :
      (now : ℕ) (s : Session) (limit : ℕ) (db : Tables W E)
      → length (keep (is_stale s) db.rows) ≤ limit
      → let (db', retired, freed) = rebuild_stale_summaries now s limit db in
        All (λ r. is_stale s r ≡ false) db'.rows
        × All (λ id. count_if (is_folded s id) db'.rows ≡ 0) retired
  unfolding rebuild_stale_summaries
  rebuild-clears now s limit db covers =
      let stale = keep (is_stale s) db.rows in
      let sorted = sort stale_first stale in
      let listed = take limit sorted in
      let size = length-perm (sort-perm stale_first stale) in
      let whole = take_whole limit sorted (omega (arith, size, covers)) in
      (
        none_stale s (rebuild_all now s listed db).0.rows (λ m.
            let counted = count-keep (is_stale s) (has_number m) db.rows in
            let moved = count-Perm (has_number m) (sort-perm stale_first stale) in
            let taken = ap (count_if (has_number m)) whole in
            stale_left-rebuild_all now s m listed db (elim (zero_or (stale_left s m db.rows)) [
              | inl clear ↦ inl clear
              | inr some_left ↦ inr (omega (arith, some_left, counted, moved, taken))
            ])),
        retired-freed now s listed db,
      )
