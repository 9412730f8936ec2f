-- ===== src/Jobs/Decay/Sweep.antt =====
-- jobs/decay.py: a run takes each row at most once, over all transactions of its workers.
use conversational_memory_sy.Prelude.{
  ℕ, ◌+◌, ◌≤◌, ◌≡◌, refl, Bool, not, ◌&&◌, Option, none, some, List, [], ◌∷◌, count_if, arith,
}
use conversational_memory_sy.Retrieve.Features.{Floats}
use conversational_memory_sy.Store.{Row, is_null}
use conversational_memory_sy.Store.Updates.{count-append, count-update_where}
use conversational_memory_sy.Jobs.Decay.{
  DecaySettings, has_id, is_eligible, claim_batch, compute_updates, weight_of, with_weight,
  apply_weights, archived_row, archive_rows, to_archive, run_decay_batch, Batch, run_decay,
}
use conversational_memory_sy.Jobs.Decay.Drain.{claim-le, count-le, count-update_where-le}

module _ {W E : Type 0} (run_id : ℕ) (wanted : ℕ → Bool) where
  -- the rows with a wanted id that are left to claim
  abbrev pub is_left : Row W E → Bool
  is_left r = is_eligible run_id r && wanted r.id

  abbrev pub rows_left : List (Row W E) → ℕ
  rows_left = count_if is_left

  with_weight-left : (weight : Option W) (r : Row W E) → is_left (with_weight weight r) ≡ is_left r
  with_weight-left none r = refl
  with_weight-left (some weight) r = refl

  archive-le :
      (now : ℕ) (l : List ℕ) (rows : List (Row W E))
      → rows_left (archive_rows now l rows) ≤ rows_left rows
  archive-le now l rows =
      let test : Row W E → Bool =
        λ r. has_id r.id l && is_null r.archived_at && is_null r.deleted_at in
      omega (
        arith,
        count-update_where-le is_left test (archived_row now) (λ r h. ground arith) rows,
        count-le (λ r. is_left r && not (test r)) is_left (λ r h. ground (arith, h)) rows,
      )

  module _ (floats : Floats W) (settings : DecaySettings W) where
    pub batch-le :
        (batch_size now : ℕ) (locked : Row W E → Bool) (rows : List (Row W E))
        → let (claimed, rows') =
            run_decay_batch floats settings run_id batch_size now locked rows in
          count_if (λ r. wanted r.id) claimed + rows_left rows' ≤ rows_left rows
    unfolding run_decay_batch
    batch-le batch_size now locked rows =
        let (claimed, rows') = claim_batch run_id batch_size locked rows in
        let updates = compute_updates floats settings now claimed in
        let weighed =
          count-update_where is_left
            (λ r. is_null r.deleted_at && not (is_null (weight_of r.id updates)))
            (λ r. with_weight (weight_of r.id updates) r)
            (λ r h. with_weight-left (weight_of r.id updates) r) rows' in
        omega (
          arith,
          claim-le (λ r. wanted r.id) run_id batch_size locked rows (λ r. refl),
          weighed,
          archive-le now (to_archive updates) (apply_weights updates rows'),
        )

    -- The rows with a wanted id that a decay run processes, over all transactions of all its
    -- workers in any order and whatever rows the others hold locked, and those that it leaves,
    -- are no more than the eligible rows with a wanted id at the start.
    pub run-processes_once :
        (batches : List (Batch W E)) (rows : List (Row W E))
        → let (processed, final) = run_decay floats settings run_id batches rows in
          count_if (λ r. wanted r.id) processed + rows_left final ≤ rows_left rows
    unfolding run_decay
    run-processes_once [] rows = omega arith
    run-processes_once (b ∷ batches) rows =
        let (claimed, rows') =
          run_decay_batch floats settings run_id b.batch_size b.now b.locked rows in
        let later = (run_decay floats settings run_id batches rows').0 in
        omega (
          arith,
          count-append (λ r. wanted r.id) claimed later,
          batch-le b.batch_size b.now b.locked rows,
          run-processes_once batches rows',
        )
