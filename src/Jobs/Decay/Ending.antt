-- ===== src/Jobs/Decay/Ending.antt =====
-- jobs/decay.py: the drain loop of one worker empties the table.
use conversational_memory_sy.Prelude.{
  ℕ, zero, suc, ◌-◌, ◌*◌, ◌≤◌, ◌<◌, ◌≡◌, ◌⊎◌, refl, ap, sym, subst, ◌∙◌, Bool, true, false, not,
  ◌&&◌, List, [], ◌∷◌, keep, length-take, length, min, count_if, arith, inl, inr,
}
use conversational_memory_sy.Prelude.Perms.{length-perm}
use conversational_memory_sy.Prelude.Sorting.{sort, sort-perm}
use conversational_memory_sy.Retrieve.Features.{Floats}
use conversational_memory_sy.Store.{Row}
use conversational_memory_sy.Store.Persist.Slots.{length-keep}
use conversational_memory_sy.Jobs.Decay.{
  DecaySettings, is_eligible, older, chosen, claim_batch, run_decay_batch, run_decay_worker,
  after_batch,
}
use conversational_memory_sy.Jobs.Decay.Sweep.{rows_left, batch-le}

List-cases : {A : Type 0} (xs : List A) → (xs ≡ []) ⊎ ((x : A) × (rest : List A) × (xs ≡ x ∷ rest))
List-cases [] = inl refl
List-cases (x ∷ xs) = inr (x, xs, refl)

abbrev any_id : ℕ → Bool
any_id id = true

count-any : {A : Type 0} (xs : List A) → count_if (λ x. true) xs ≡ length xs
count-any [] = refl
count-any (x ∷ xs) = ap suc (count-any xs)

module _ {W E : Type 0} (floats : Floats W) (settings : DecaySettings W)
    (run_id batch_size now : ℕ) where
  -- what is left for the run to claim
  abbrev pub left : List (Row W E) → ℕ
  left = count_if (is_eligible run_id)

  left-any : (rows : List (Row W E)) → rows_left run_id any_id rows ≡ left rows
  left-any [] = refl
  left-any (r ∷ rows) = ground (arith, left-any rows)

  length-chosen :
      (rows : List (Row W E))
      → length (chosen run_id batch_size (λ r. false) rows) ≡ min batch_size (left rows)
  length-chosen rows =
      let q : Row W E → Bool = λ r. is_eligible run_id r && not false in
      length-take batch_size (sort older (keep q rows))
      ∙ ap (min batch_size)
          (length-perm (sort-perm older (keep q rows)) ∙ (length-keep q rows ∙ left-any rows))

  -- one batch of a worker that is alone
  batch_left :
      (rows : List (Row W E))
      → left (run_decay_batch floats settings run_id batch_size now (λ r. false) rows).1
        ≤ left rows - min batch_size (left rows)
  unfolding run_decay_batch claim_batch
  batch_left rows =
      let claimed = chosen run_id batch_size (λ r. false) rows in
      let b = batch-le run_id any_id floats settings batch_size now (λ r. false) rows in
      let rows' = (run_decay_batch floats settings run_id batch_size now (λ r. false) rows).1 in
      omega (arith, b, count-any claimed, length-chosen rows, left-any rows, left-any rows')

  batch_empty :
      (rows : List (Row W E))
      → 0 < batch_size
      → (run_decay_batch floats settings run_id batch_size now (λ r. false) rows).0 ≡ []
      → left rows ≡ 0
  unfolding run_decay_batch claim_batch
  batch_empty rows n e = omega (arith, length-chosen rows, ap length e)

  -- If the batch size is positive, and the most batches allowed times the batch size is at least
  -- the number of eligible rows, a decay worker that is alone leaves none of them to claim.
  pub worker_drains :
      (max_batches : ℕ) (rows : List (Row W E))
      → 0 < batch_size
      → left rows ≤ max_batches * batch_size
      → left (run_decay_worker floats settings max_batches run_id batch_size now rows).1 ≡ 0
  unfolding run_decay_worker
  worker_drains zero rows n h = omega (arith, h)
  worker_drains (suc max_batches) rows n h =
      let batch = run_decay_batch floats settings run_id batch_size now (λ r. false) rows in
      let one = batch_left rows in
      let rest = run_decay_worker floats settings max_batches run_id batch_size now batch.1 in
      let Ends : List (Row W E) → Type 0 =
        λ claimed. left (after_batch floats settings claimed batch.1 rest).1 ≡ 0 in
      elim (List-cases batch.0) [
        | inl none_left ↦
            subst Ends (sym none_left) (omega (arith, one, batch_empty rows n none_left))
        | inr (r, more, e) ↦
            subst Ends (sym e) (worker_drains max_batches batch.1 n (omega (arith, one, h)))
      ]
