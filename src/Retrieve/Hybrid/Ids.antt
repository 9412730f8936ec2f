-- ===== src/Retrieve/Hybrid/Ids.antt =====
-- retrieve/hybrid.py: the merged list has every memory once, in order.
use conversational_memory_sy.Prelude.{
  ℕ, ◌+◌, ◌≡◌, refl, ap, ◌∙◌, Bool, false, ◌||◌, List, [], ◌∷◌, map, max, ◌==◌, ==→eq,
  if◌then◌else◌, arith, count_if, Bool-cases, inl, inr,
}
use conversational_memory_sy.Prelude.Perms.{count-Perm}
use conversational_memory_sy.Prelude.ByScore.{by_score-IsWeakOrder}
use conversational_memory_sy.Prelude.Scores.{Scores}
use conversational_memory_sy.Prelude.Sorting.{sort-perm, IsSorted, IsWeakOrder, sort-IsSorted}
use conversational_memory_sy.Retrieve.{Source}
use conversational_memory_sy.Retrieve.Features.{Floats}
use conversational_memory_sy.Retrieve.Hybrid.{
  RetrievalCandidate, contributes, normalize, merge_one, merge_all, scored, before, merge,
}

module _ {W M : Type 0} where
  -- how often a list has a memory, and whether it has it
  abbrev pub copies : ℕ → List (RetrievalCandidate W M) → ℕ
  copies m = count_if (λ c. c.memory_id == m)

  abbrev pub appears : ℕ → List (RetrievalCandidate W M) → Bool
  appears m [] = false
  appears m (c ∷ cs) = c.memory_id == m || appears m cs

module _ {W M : Type 0} (floats : Floats W) (ts_rank_reference : W)
    (merge_metadata : M → M → M) where
  copies-merge_one :
      (m : ℕ) (merged : List (RetrievalCandidate W M)) (c : RetrievalCandidate W M)
      → copies m (merge_one floats ts_rank_reference merge_metadata merged c)
        ≡ (if c.memory_id == m then max 1 (copies m merged) else copies m merged)
  unfolding merge_one
  copies-merge_one m [] c = ground arith
  copies-merge_one m (existing ∷ merged) c = elim (Bool-cases (existing.memory_id == c.memory_id)) [
    | inl same ↦ rw (same) (ground (arith, ==→eq existing.memory_id c.memory_id same))
    | inr other ↦ rw (other) (ground (arith, copies-merge_one m merged c, other))
  ]

  copies-merge_all :
      (m : ℕ) (merged candidates : List (RetrievalCandidate W M))
      → copies m (merge_all floats ts_rank_reference merge_metadata merged candidates)
        ≡ (if appears m candidates then max 1 (copies m merged) else copies m merged)
  unfolding merge_all
  copies-merge_all m merged [] = refl
  copies-merge_all m merged (c ∷ candidates) =
      copies-merge_all m (merge_one floats ts_rank_reference merge_metadata merged c) candidates
      ∙ ground (arith, copies-merge_one m merged c)

  pub appears-normalize :
      (m : ℕ) (p : Source) (candidates : List (RetrievalCandidate W M))
      → appears m (normalize floats ts_rank_reference merge_metadata p candidates)
        ≡ appears m candidates
  appears-normalize m p [] = refl
  appears-normalize m p (c ∷ candidates) =
      ap (λ b. c.memory_id == m || b) (appears-normalize m p candidates)

  module _ {K : Type 0} (scores : Scores K) (as_key : W → K) (of_int : ℕ → W) where
    abbrev pub earlier : RetrievalCandidate W M → RetrievalCandidate W M → Bool
    earlier = before floats ts_rank_reference merge_metadata scores as_key of_int

    copies-scored :
        (m divisor : ℕ) (cs : List (RetrievalCandidate W M))
        → copies m
            (map (scored floats ts_rank_reference merge_metadata scores as_key of_int divisor) cs)
          ≡ copies m cs
    copies-scored m divisor [] = refl
    copies-scored m divisor (c ∷ cs) = ground (arith, copies-scored m divisor cs)

    earlier-IsWeakOrder : IsWeakOrder earlier
    unfolding before
    earlier-IsWeakOrder = by_score-IsWeakOrder scores (λ c. as_key c.score) (λ c. c.memory_id)

    pub merge-once-IsSorted :
        (m : ℕ) (s k : List (RetrievalCandidate W M))
        → let merged = merge floats ts_rank_reference merge_metadata scores as_key of_int s k in
          (copies m merged ≡ (if appears m s || appears m k then 1 else 0))
          × IsSorted earlier merged
    unfolding merge
    merge-once-IsSorted m s k =
        let together = merge_all floats ts_rank_reference merge_metadata in
        let divisor = max 1 (contributes s + contributes k) in
        let all =
          map (scored floats ts_rank_reference merge_metadata scores as_key of_int divisor)
            (together (together [] s) k) in
        (
          count-Perm (λ c. c.memory_id == m) (sort-perm earlier all)
              ∙ (copies-scored m divisor (together (together [] s) k)
                  ∙ ground (arith, copies-merge_all m (together [] s) k, copies-merge_all m [] s)),
          sort-IsSorted earlier earlier-IsWeakOrder all,
        )
