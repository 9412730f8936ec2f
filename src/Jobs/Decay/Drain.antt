-- ===== src/Jobs/Decay/Drain.antt =====
-- jobs/claims.py: what one claim takes, and what it leaves.
use conversational_memory_sy.Prelude.{
  ℕ, ◌+◌, ◌≤◌, ◌≡◌, refl, ap, Bool, true, false, not, ◌&&◌, List, [], ◌∷◌, All, keep, take, drop,
  take-append-drop, count_if, arith, Bool-cases, inl, inr,
}
use conversational_memory_sy.Prelude.Perms.{All-map, count-Perm}
use conversational_memory_sy.Prelude.Sorting.{sort, sort-perm}
use conversational_memory_sy.Store.{Row, update_where}
use conversational_memory_sy.Store.Updates.{count-append, own_row}
use conversational_memory_sy.Jobs.Decay.{
  has_id, is_eligible, older, chosen, ids, stamped, claim_batch,
}

module _ {A : Type 0} (p q : A → Bool) where
  count-keep : (xs : List A) → count_if p (keep q xs) ≡ count_if (λ x. q x && p x) xs
  count-keep [] = refl
  count-keep (x ∷ xs) = elim (Bool-cases (q x)) [
    | inl taken ↦ ground (arith, taken, count-keep xs)
    | inr left ↦ ground (arith, left, count-keep xs)
  ]

  pub count-le : ((x : A) → p x ≡ true → q x ≡ true) → (xs : List A) → count_if p xs ≤ count_if q xs
  count-le h [] = omega arith
  count-le h (x ∷ xs) = elim (Bool-cases (p x)) [
    | inl hit ↦ ground (arith, hit, h x hit, count-le h xs)
    | inr miss ↦ ground (arith, miss, count-le h xs)
  ]

in_longer : (id other : ℕ) (l : List ℕ) → has_id id l ≡ true → has_id id (other ∷ l) ≡ true
in_longer id other l h = ground (arith, h)

module _ {W E : Type 0} where
  -- an UPDATE after which no changed row counts
  pub count-update_where-le :
      (p test : Row W E → Bool) (change : Row W E → Row W E)
      → ((r : Row W E) → test r ≡ true → p (change r) ≡ false)
      → (rows : List (Row W E))
      → count_if p (update_where test change rows) ≤ count_if (λ r. p r && not (test r)) rows
  count-update_where-le p test change h [] = omega arith
  count-update_where-le p test change h (r ∷ rows) = elim (Bool-cases (test r)) [
    | inl hit ↦ ground (arith, hit, h r hit, count-update_where-le p test change h rows)
    | inr miss ↦ ground (arith, miss, count-update_where-le p test change h rows)
  ]

  abbrev IsIn : List ℕ → Row W E → Type 0
  IsIn l r = has_id r.id l ≡ true

  All-IsIn : (xs : List (Row W E)) → All (IsIn (ids xs)) xs
  All-IsIn [] = tt
  All-IsIn (x ∷ xs) = (
    rw (own_row x.id),
    All-map (IsIn (ids xs)) (IsIn (ids (x ∷ xs))) xs (λ r h. in_longer r.id x.id (ids xs) h)
        (All-IsIn xs),
  )

  count_inside :
      (p : Row W E → Bool) (l : List ℕ) (xs : List (Row W E))
      → All (IsIn l) xs
      → count_if (λ r. p r && has_id r.id l) xs ≡ count_if p xs
  count_inside p l [] h = refl
  count_inside p l (x ∷ xs) (h, hs) = ground (arith, h, count_inside p l xs hs)

  count_split :
      (f g : Row W E → Bool) (xs : List (Row W E))
      → count_if f xs ≡ count_if (λ r. f r && g r) xs + count_if (λ r. f r && not (g r)) xs
  count_split f g [] = refl
  count_split f g (x ∷ xs) = ground (arith, count_split f g xs)

  -- the claimed rows are among the eligible ones, which the claimed ids name
  chosen-le :
      (p : Row W E → Bool) (run_id batch_size : ℕ) (locked : Row W E → Bool) (rows : List (Row W E))
      → let claimed = chosen run_id batch_size locked rows in
        count_if p claimed
        ≤ count_if (λ r. (is_eligible run_id r && p r) && has_id r.id (ids claimed)) rows
  chosen-le p run_id batch_size locked rows =
      let claimed = chosen run_id batch_size locked rows in
      let q : Row W E → Bool = λ r. is_eligible run_id r && not (locked r) in
      let g : Row W E → Bool = λ r. p r && has_id r.id (ids claimed) in
      let sorted = sort older (keep q rows) in
      let wide =
        count-le (λ r. q r && g r) (λ r. (is_eligible run_id r && p r) && has_id r.id (ids claimed))
          (λ r h. ground (arith, h)) rows in
      let cut = count-append g (take batch_size sorted) (drop batch_size sorted) in
      let whole = ap (count_if g) (take-append-drop batch_size sorted) in
      let same = count-Perm g (sort-perm older (keep q rows)) in
      omega (
        arith,
        wide,
        cut,
        whole,
        same,
        count-keep g q rows,
        count_inside p (ids claimed) claimed (All-IsIn claimed),
      )

  -- What a claim takes and what it leaves are no more than there was, counting the rows of a property.
  pub claim-le :
      (p : Row W E → Bool) (run_id batch_size : ℕ) (locked : Row W E → Bool) (rows : List (Row W E))
      → ((r : Row W E) → p (stamped run_id r) ≡ p r)
      → let (claimed, rows') = claim_batch run_id batch_size locked rows in
        count_if p claimed + count_if (λ r. is_eligible run_id r && p r) rows'
        ≤ count_if (λ r. is_eligible run_id r && p r) rows
  unfolding claim_batch
  claim-le p run_id batch_size locked rows same =
      let claimed = chosen run_id batch_size locked rows in
      let g : Row W E → Bool = λ r. has_id r.id (ids claimed) in
      let left =
        count-update_where-le (λ r. is_eligible run_id r && p r) g (stamped run_id)
          (λ r h. ground (arith, own_row run_id)) rows in
      omega (
        arith,
        left,
        count_split (λ r. is_eligible run_id r && p r) g rows,
        chosen-le p run_id batch_size locked rows,
      )
