-- ===== src/Jobs/Decay.antt =====
-- jobs/claims.py, jobs/decay.py and the batch of graphs/decay_graph.py: the nightly decay. It runs on
-- the owner's connection, outside row level security. `decay_claimed_at`, the filter on
-- subjects and the statistics are left out.
pub mod Drain
pub mod Sweep
pub mod Ending
pub mod Erased
use conversational_memory_sy.Prelude.{
  ℕ, zero, suc, ◌+◌, ◌-◌, ◌*◌, ◌≡◌, refl, Bool, true, false, not, ◌&&◌, ◌||◌, Option, none, some,
  List, [], ◌∷◌, ◌++◌, map, ltb, ◌==◌, if◌then◌else◌, keep, take,
}
use conversational_memory_sy.Prelude.Sorting.{sort}
use conversational_memory_sy.Retrieve.Features.{Floats, min_of, max_of}
use conversational_memory_sy.Store.{Row, is_null, update_where}

-- The tunables, and the conversion of an integer to a float.
pub record DecaySettings (W : Type 0) : Type 0 where
  pub weight_increment : W
  pub weight_max : W
  pub half_life_days : W
  pub damping_reference : W
  pub decay_floor : W
  pub archive_threshold : W
  pub of_int : ℕ → W

-- `WeightUpdate`, without the old weight
pub record WeightUpdate (W : Type 0) : Type 0 where
  pub id : ℕ
  pub new_weight : W
  pub should_archive : Bool

abbrev pub has_id : ℕ → List ℕ → Bool
has_id m [] = false
has_id m (x ∷ xs) = x == m || has_id m xs

abbrev pub is_run : ℕ → Option ℕ → Bool
is_run run none = false
is_run run (some other) = other == run

module _ {W E : Type 0} where
  -- `_ELIGIBLE`
  abbrev pub is_eligible : (run_id : ℕ) → Row W E → Bool
  is_eligible run_id r =
      is_null r.deleted_at && is_null r.archived_at && not (is_run run_id r.decay_run_id)

  -- `ORDER BY last_accessed_at, id`
  abbrev pub older : Row W E → Row W E → Bool
  older a b =
      ltb a.last_accessed_at b.last_accessed_at
      || (a.last_accessed_at == b.last_accessed_at && ltb a.id b.id)

  -- the rows that `SELECT ... FOR UPDATE SKIP LOCKED` finds; `locked` are those that other
  -- transactions hold
  abbrev pub chosen :
      (run_id batch_size : ℕ) → (locked : Row W E → Bool) → List (Row W E) → List (Row W E)
  chosen run_id batch_size locked rows =
      take batch_size (sort older (keep (λ r. is_eligible run_id r && not (locked r)) rows))

  abbrev pub ids : List (Row W E) → List ℕ
  ids = map (λ r. r.id)

  abbrev pub stamped : (run_id : ℕ) → Row W E → Row W E
  stamped run_id r = record r { decay_run_id = some run_id }

  -- `claim_batch`: the rows claimed, and the table
  unfoldable pub claim_batch :
      (run_id batch_size : ℕ)
      → (locked : Row W E → Bool) → List (Row W E)
      → List (Row W E) × List (Row W E)
  claim_batch run_id batch_size locked rows =
      let claimed = chosen run_id batch_size locked rows in
      (claimed, update_where (λ r. has_id r.id (ids claimed)) (stamped run_id) rows)

abbrev pub weight_of : {W : Type 0} → ℕ → List (WeightUpdate W) → Option W
weight_of id [] = none
weight_of id (u ∷ updates) =
    let rest = weight_of id updates in if u.id == id then some u.new_weight else rest

abbrev pub to_archive : {W : Type 0} → List (WeightUpdate W) → List ℕ
to_archive updates = map (λ u. u.id) (keep (λ u. u.should_archive) updates)

module _ {W : Type 0} (floats : Floats W) (settings : DecaySettings W) where
  open floats use {zero_, one_, le, add, mul, div, half_pow, days}
  open settings use {
    weight_increment, weight_max, half_life_days, damping_reference, decay_floor, of_int,
  }

  -- `peak_weight`
  unfoldable pub peak_weight : ℕ → W
  peak_weight reinforcement_count =
      min_of floats weight_max (add one_ (mul weight_increment (of_int reinforcement_count)))

  -- `age_in_days`, floored at 0
  abbrev pub age_in_days : (last_accessed_at now : ℕ) → W
  age_in_days last_accessed_at now =
      if ltb last_accessed_at now then days (now - last_accessed_at) else zero_

  -- `decay_weight`, of the peak weight
  unfoldable pub decay_weight : (age_days : W) → (reinforcement_count : ℕ) → W
  unfolding peak_weight
  decay_weight age_days reinforcement_count =
      let base = peak_weight reinforcement_count in
      if le half_life_days zero_
      then max_of floats decay_floor base
      else max_of floats decay_floor (
          mul base (
            half_pow (
              div (max_of floats zero_ age_days) (
                mul half_life_days
                  (add one_ (div (of_int reinforcement_count) damping_reference))))))

module _ {W E : Type 0} (floats : Floats W) (settings : DecaySettings W) where
  open floats use {lt}
  open settings use {archive_threshold}

  abbrev pub weight_update : (now : ℕ) → Row W E → WeightUpdate W
  weight_update now r =
      let new_weight =
        decay_weight floats settings (age_in_days floats settings r.last_accessed_at now)
          r.reinforcement_count in
      record {
        id = r.id;
        new_weight = new_weight;
        should_archive = lt new_weight archive_threshold;
      }

  -- `compute_updates`
  abbrev pub compute_updates : (now : ℕ) → List (Row W E) → List (WeightUpdate W)
  compute_updates now = map (weight_update now)

module _ {W E : Type 0} where
  abbrev pub with_weight : Option W → Row W E → Row W E
  with_weight none r = r
  with_weight (some weight) r = record r { weight = weight }

  -- `apply_weights`
  abbrev pub apply_weights : List (WeightUpdate W) → List (Row W E) → List (Row W E)
  apply_weights updates =
      update_where (λ r. is_null r.deleted_at && not (is_null (weight_of r.id updates)))
        (λ r. with_weight (weight_of r.id updates) r)

  abbrev pub archived_row : (now : ℕ) → Row W E → Row W E
  archived_row now r = record r { archived_at = some now }

  -- `archive_rows`
  abbrev pub archive_rows : (now : ℕ) → List ℕ → List (Row W E) → List (Row W E)
  archive_rows now memory_ids =
      update_where (λ r. has_id r.id memory_ids && is_null r.archived_at && is_null r.deleted_at)
        (archived_row now)

-- What one transaction of any worker brings: its batch size, its clock, and the rows that the
-- others hold locked.
pub record Batch (W E : Type 0) : Type 0 where
  pub batch_size : ℕ
  pub now : ℕ
  pub locked : Row W E → Bool

module _ {W E : Type 0} (floats : Floats W) (settings : DecaySettings W) where
  -- One batch, a transaction: claim, compute, apply, archive.
  unfoldable pub run_decay_batch :
      (run_id batch_size now : ℕ)
      → (locked : Row W E → Bool) → List (Row W E)
      → List (Row W E) × List (Row W E)
  unfolding claim_batch
  run_decay_batch run_id batch_size now locked rows =
      let (claimed, rows') = claim_batch run_id batch_size locked rows in
      let updates = compute_updates floats settings now claimed in
      (claimed, archive_rows now (to_archive updates) (apply_weights updates rows'))

  -- the loop breaks on a batch that claimed nothing; else it goes on, to `rest`
  abbrev pub after_batch :
      List (Row W E)
      → List (Row W E)
      → List (Row W E) × List (Row W E)
      → List (Row W E) × List (Row W E)
  after_batch [] rows rest = ([], rows)
  after_batch (r ∷ claimed) rows (processed, final) = ((r ∷ claimed) ++ processed, final)

  -- `run_decay_worker` alone on the table: the ids processed, and the table; `max_batches` is fuel
  -- in the source too
  unfoldable pub run_decay_worker :
      (max_batches run_id batch_size now : ℕ) → List (Row W E) → List (Row W E) × List (Row W E)
  unfolding run_decay_batch
  run_decay_worker zero run_id batch_size now rows = ([], rows)
  run_decay_worker (suc max_batches) run_id batch_size now rows =
      let (claimed, rows') = run_decay_batch run_id batch_size now (λ r. false) rows in
      after_batch claimed rows' (run_decay_worker max_batches run_id batch_size now rows')

  -- The transactions of all workers of one run, in the order in which they commit.
  unfoldable pub run_decay :
      (run_id : ℕ) → List (Batch W E) → List (Row W E) → List (Row W E) × List (Row W E)
  unfolding run_decay_batch
  run_decay run_id [] rows = ([], rows)
  run_decay run_id (b ∷ batches) rows =
      let (claimed, rows') = run_decay_batch run_id b.batch_size b.now b.locked rows in
      let (later, final) = run_decay run_id batches rows' in (claimed ++ later, final)
