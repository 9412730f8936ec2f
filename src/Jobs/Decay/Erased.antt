-- ===== src/Jobs/Decay/Erased.antt =====
-- jobs/claims.py and jobs/decay.py: a run neither claims nor changes an erased row.
use conversational_memory_sy.Prelude.{
  ℕ, zero, suc, ◌≡◌, ◌≢◌, ◌⊎◌, refl, ap, sym, subst, ◌∙◌, Bool, true, false, not, ◌&&◌, Option,
  none, some, List, [], ◌∷◌, keep, take, All, arith, Bool-cases, inl, inr, if◌then◌else◌,
}
use conversational_memory_sy.Prelude.Perms.{Permᴰ, perm-map, All-map}
use conversational_memory_sy.Prelude.Sorting.{sort, sort-perm}
use conversational_memory_sy.Retrieve.Features.{Floats}
use conversational_memory_sy.Store.{Row, is_null, update_where}
use conversational_memory_sy.Jobs.Decay.{
  DecaySettings, has_id, is_eligible, older, chosen, ids, stamped, claim_batch, compute_updates,
  weight_of, with_weight, apply_weights, archived_row, to_archive, run_decay_batch, Batch,
  run_decay,
}

has_id-perm : (m : ℕ) {xs ys : List ℕ} → Permᴰ xs ys → has_id m xs ≡ has_id m ys
has_id-perm m Permᴰ.nil = refl
has_id-perm m (Permᴰ.cons e p) = rw (e, has_id-perm m p) refl
has_id-perm m (Permᴰ.swap e f) = rw (e, f) (ground arith)
has_id-perm m (Permᴰ.trans p q) = has_id-perm m p ∙ has_id-perm m q

-- the primary key: no two rows have the same id
abbrev pub IsKeyed : List ℕ → Type 0
IsKeyed [] = Unit
IsKeyed (id ∷ more) = All (λ other. id ≢ other) more × IsKeyed more

module _ {A : Type 0} (q : A → Bool) where
  keep_yes : (x : A) (xs : List A) → q x ≡ true → keep q (x ∷ xs) ≡ x ∷ keep q xs
  keep_yes x xs h = ground (arith, h)

  keep_no : (x : A) (xs : List A) → q x ≡ false → keep q (x ∷ xs) ≡ keep q xs
  keep_no x xs h = ground (arith, h)

module _ {W E : Type 0} where
  abbrev pub is_erased : Row W E → Bool
  is_erased r = not (is_null r.deleted_at)

  has_id-take :
      (m n : ℕ) (rows : List (Row W E))
      → has_id m (ids rows) ≡ false
      → has_id m (ids (take n rows)) ≡ false
  has_id-take m zero rows h = refl
  has_id-take m (suc n) [] h = refl
  has_id-take m (suc n) (r ∷ rows) h =
      let rest = has_id-take m n rows (ground (arith, h)) in ground (arith, h, rest)

  fresh-keep :
      (q : Row W E → Bool) (m : ℕ) (rows : List (Row W E))
      → All (λ other. m ≢ other) (ids rows)
      → has_id m (ids (keep q rows)) ≡ false
  fresh-keep q m [] h = refl
  fresh-keep q m (r ∷ rows) (h, hs) = let rest = fresh-keep q m rows hs in ground (arith, h, rest)

  -- a row is kept, or its id is not among those of the rows that are
  abbrev IsApart : (Row W E → Bool) → List ℕ → Row W E → Type 0
  IsApart q named r = (q r ≡ true) ⊎ (has_id r.id named ≡ false)

  wider :
      (q : Row W E → Bool) (x : Row W E) (kept : List (Row W E)) (rows : List (Row W E))
      → All (λ other. x.id ≢ other) (ids rows)
      → All (IsApart q (ids kept)) rows
      → All (IsApart q (x.id ∷ ids kept)) rows
  wider q x kept [] h k = tt
  wider q x kept (r ∷ rows) (h, hs) (inl good, ks) = (inl good, wider q x kept rows hs ks)
  wider q x kept (r ∷ rows) (h, hs) (inr apart, ks) =
      (inr (ground (arith, h, apart)), wider q x kept rows hs ks)

  keep-IsApart :
      (q : Row W E → Bool) (rows : List (Row W E))
      → IsKeyed (ids rows)
      → All (IsApart q (ids (keep q rows))) rows
  keep-IsApart q [] h = tt
  keep-IsApart q (r ∷ rows) (h, hs) =
      let Good : List (Row W E) → Type 0 = λ kept. All (IsApart q (ids kept)) (r ∷ rows) in
      let rest = keep-IsApart q rows hs in
      elim (Bool-cases (q r)) [
        | inl taken ↦
            subst Good (sym (keep_yes q r rows taken))
              (inl taken, wider q r (keep q rows) rows h rest)
        | inr passed ↦
            subst Good (sym (keep_no q r rows passed)) (inr (fresh-keep q r.id rows h), rest)
      ]

  -- an UPDATE misses the row, or the row is live
  abbrev Spares : (Row W E → Bool) → Row W E → Type 0
  Spares test r = (test r ≡ false) ⊎ (is_null r.deleted_at ≡ true)

  -- an UPDATE that spares each row, and erases none, keeps the erased rows
  update-keeps_erased :
      (test : Row W E → Bool) (change : Row W E → Row W E)
      → ((r : Row W E) → is_null r.deleted_at ≡ true → is_null (change r).deleted_at ≡ true)
      → (rows : List (Row W E)) → All (Spares test) rows
      → keep is_erased (update_where test change rows) ≡ keep is_erased rows
  update-keeps_erased test change same [] h = refl
  update-keeps_erased test change same (r ∷ rows) (inl missed, hs) = rw missed (
      ap (λ rest. elim (is_erased r) [ true ↦ r ∷ rest | false ↦ rest ])
        (update-keeps_erased test change same rows hs))
  update-keeps_erased test change same (r ∷ rows) (inr live, hs) =
      let updated = update_where test change rows in
      let rest = update-keeps_erased test change same rows hs in
      let row = λ (b : Bool). keep is_erased ((if b then change r else r) ∷ updated) in
      let after = rest ∙ sym (keep_no is_erased r rows (ap not live)) in
      elim (Bool-cases (test r)) [
        | inl hit ↦
            ap row hit ∙ (keep_no is_erased (change r) updated (ap not (same r live)) ∙ after)
        | inr missed ↦ ap row missed ∙ (keep_no is_erased r updated (ap not live) ∙ after)
      ]

  update-ids :
      (test : Row W E → Bool) (change : Row W E → Row W E)
      → ((r : Row W E) → (change r).id ≡ r.id)
      → (rows : List (Row W E)) → ids (update_where test change rows) ≡ ids rows
  update-ids test change same [] = refl
  update-ids test change same (r ∷ rows) = elim (Bool-cases (test r)) [
    | inl hit ↦ rw (hit, same r, update-ids test change same rows) refl
    | inr missed ↦ rw (missed, update-ids test change same rows) refl
  ]

  with_weight-id : (weight : Option W) (r : Row W E) → (with_weight weight r).id ≡ r.id
  with_weight-id none r = refl
  with_weight-id (some weight) r = refl

  with_weight-live :
      (weight : Option W) (r : Row W E)
      → is_null r.deleted_at ≡ true
      → is_null (with_weight weight r).deleted_at ≡ true
  with_weight-live none r h = h
  with_weight-live (some weight) r h = h

  All-of : (P : Row W E → Type 0) → ((r : Row W E) → P r) → (rows : List (Row W E)) → All P rows
  All-of P h [] = tt
  All-of P h (r ∷ rows) = (h r, All-of P h rows)

  module _ (run_id : ℕ) where
    chosen-Spares :
        (batch_size : ℕ) (locked : Row W E → Bool) (rows : List (Row W E)) (r : Row W E)
        → let q : Row W E → Bool = λ x. is_eligible run_id x && not (locked x) in
          IsApart q (ids (keep q rows)) r
          → Spares (λ x. has_id x.id (ids (chosen run_id batch_size locked rows))) r
    chosen-Spares batch_size locked rows r (inl taken) = inr (ground (arith, taken))
    chosen-Spares batch_size locked rows r (inr apart) =
        let q : Row W E → Bool = λ x. is_eligible run_id x && not (locked x) in
        let sorted = sort older (keep q rows) in
        let same = has_id-perm r.id (perm-map (λ x. x.id) (sort-perm older (keep q rows))) in
        inl (has_id-take r.id batch_size sorted (same ∙ apart))

    claim-keeps_erased :
        (batch_size : ℕ) (locked : Row W E → Bool) (rows : List (Row W E))
        → IsKeyed (ids rows)
        → keep is_erased (claim_batch run_id batch_size locked rows).1 ≡ keep is_erased rows
    unfolding claim_batch
    claim-keeps_erased batch_size locked rows key =
        let q : Row W E → Bool = λ x. is_eligible run_id x && not (locked x) in
        update-keeps_erased (λ r. has_id r.id (ids (chosen run_id batch_size locked rows)))
          (stamped run_id) (λ r h. h) rows
          (All-map _ _ rows (chosen-Spares batch_size locked rows) (keep-IsApart q rows key))

    module _ (floats : Floats W) (settings : DecaySettings W) where
      batch-keeps_erased :
          (batch_size now : ℕ) (locked : Row W E → Bool) (rows : List (Row W E))
          → IsKeyed (ids rows)
          → keep is_erased (run_decay_batch floats settings run_id batch_size now locked rows).1
            ≡ keep is_erased rows
      unfolding run_decay_batch
      batch-keeps_erased batch_size now locked rows key =
          let (claimed, rows') = claim_batch run_id batch_size locked rows in
          let updates = compute_updates floats settings now claimed in
          let weighed : Row W E → Bool =
            λ r. is_null r.deleted_at && not (is_null (weight_of r.id updates)) in
          let filed : Row W E → Bool = λ r.
            has_id r.id (to_archive updates) && is_null r.archived_at && is_null r.deleted_at in
          update-keeps_erased filed (archived_row now) (λ r h. h) (apply_weights updates rows')
            (All-of (Spares filed) (λ r. ground arith) (apply_weights updates rows'))
          ∙ (update-keeps_erased weighed (λ r. with_weight (weight_of r.id updates) r)
                (λ r h. with_weight-live (weight_of r.id updates) r h) rows'
                (All-of (Spares weighed) (λ r. ground arith) rows')
              ∙ claim-keeps_erased batch_size locked rows key)

      batch-ids :
          (batch_size now : ℕ) (locked : Row W E → Bool) (rows : List (Row W E))
          → ids (run_decay_batch floats settings run_id batch_size now locked rows).1 ≡ ids rows
      unfolding run_decay_batch claim_batch
      batch-ids batch_size now locked rows =
          let (claimed, rows') = claim_batch run_id batch_size locked rows in
          let updates = compute_updates floats settings now claimed in
          update-ids _ (archived_row now) (λ r. refl) (apply_weights updates rows')
          ∙ (update-ids _ (λ r. with_weight (weight_of r.id updates) r)
                (λ r. with_weight-id (weight_of r.id updates) r) rows'
              ∙ update-ids _ (stamped run_id) (λ r. refl) rows)

      -- In a table in which no two rows have the same id, a decay run, over all transactions of
      -- all its workers and whatever rows the others hold locked, leaves the erased rows exactly
      -- as they were, the stamp of the run included, in their order and number.
      pub run-keeps_erased :
          (batches : List (Batch W E)) (rows : List (Row W E))
          → IsKeyed (ids rows)
          → keep is_erased (run_decay floats settings run_id batches rows).1 ≡ keep is_erased rows
      unfolding run_decay
      run-keeps_erased [] rows key = refl
      run-keeps_erased (b ∷ batches) rows key =
          let rows' = (run_decay_batch floats settings run_id b.batch_size b.now b.locked rows).1 in
          run-keeps_erased batches rows'
            (subst IsKeyed (sym (batch-ids b.batch_size b.now b.locked rows)) key)
          ∙ batch-keeps_erased b.batch_size b.now b.locked rows key
