-- ===== src/Retrieve/Ranking/Order.antt =====
-- retrieve/ranking.py: what `rank` selects, and in which order.
use conversational_memory_sy.Prelude.{
  ℕ, ◌≡◌, ◌≢◌, ◌≤◌, refl, sym, ap, ◌∙◌, Bool, true, false, Option, none, some, List, [], ◌∷◌, ◌++◌,
  map, arith, take, drop, take-append-drop, length, length-take, All, min, subst, ◌⊎◌, inl, inr,
  Bool-cases,
}
use conversational_memory_sy.Prelude.Options.{◌>>=◌, sequence, SameOf, sequence-perm}
use conversational_memory_sy.Prelude.Perms.{
  Permᴰ, length-perm, length-map, perm-map, perm-All, perm_sym, All-map,
}
use conversational_memory_sy.Prelude.ByScore.{by_score-IsWeakOrder}
use conversational_memory_sy.Prelude.Scores.{Scores}
use conversational_memory_sy.Prelude.Sorting.{
  sort, sort-perm, sort-IsSorted, sort_unique, IsSorted, IsWeakOrder, Differ, AllDiffer,
}
use conversational_memory_sy.Retrieve.Features.{Floats, Tuning, AllFit}
use conversational_memory_sy.Retrieve.Ranking.{
  Candidate, RankedCandidate, Weights, score_breakdown, score_candidate, ranked, before, rank,
  ScoreBreakdown, breakdown-Returns,
}

module _ {W K : Type 0} (floats : Floats W) (tuning : Tuning W) (weights : Weights W)
    (scores : Scores K) (round12 : W → K) where
  first : RankedCandidate W → RankedCandidate W → Bool
  first = before floats tuning weights scores round12

  first-IsWeakOrder : IsWeakOrder first
  unfolding before first
  first-IsWeakOrder =
      by_score-IsWeakOrder scores (λ a. round12 a.score) (λ a. a.candidate.memory_id)

  -- `a` may stand before `b`: its rounded score is higher, or it is the same and the id is not higher
  abbrev pub InOrder : RankedCandidate W → RankedCandidate W → Type 0
  InOrder a b =
      (scores.lt (round12 b.score) (round12 a.score) ≡ true)
      ⊎ (scores.eq (round12 a.score) (round12 b.score) ≡ true)
        × (a.candidate.memory_id ≤ b.candidate.memory_id)

  abbrev pub AreInOrder : List (RankedCandidate W) → Type 0
  AreInOrder [] = Unit
  AreInOrder (x ∷ xs) = All (InOrder x) xs × AreInOrder xs

  -- the candidate with the score that `score_candidate` gives it
  abbrev pub IsScored : (now : ℕ) → RankedCandidate W → Type 0
  IsScored now r = score_candidate floats tuning weights r.candidate.signals now ≡ some r.score

  InOrder-of_first : (a b : RankedCandidate W) → first b a ≡ false → InOrder a b
  unfolding first before
  InOrder-of_first a b h =
      let x = round12 a.score in
      let y = round12 b.score in
      elim (Bool-cases (scores.lt y x)) [
        | inl higher ↦ inl higher
        | inr not_higher ↦ inr (ground (arith, scores.ge→eq x y), ground (arith, scores.ge→eq y x))
      ]

  AreInOrder-of_sorted : (xs : List (RankedCandidate W)) → IsSorted first xs → AreInOrder xs
  AreInOrder-of_sorted [] h = tt
  AreInOrder-of_sorted (x ∷ xs) (h, hs) =
      (All-map _ _ xs (λ y k. InOrder-of_first x y k) h, AreInOrder-of_sorted xs hs)

  -- what the loop of `rank` makes of candidates whose values fit
  abbrev Collected : (now : ℕ) → List (Candidate W) → List (RankedCandidate W) → Type 0
  Collected now cs rs =
      (sequence (map (ranked floats tuning weights now) cs) ≡ some rs)
      × (map (λ r. r.candidate) rs ≡ cs)
      × All (IsScored now) rs

  collected :
      (cs : List (Candidate W)) (now : ℕ)
      → All (λ c. AllFit c.signals) cs
      → (rs : List (RankedCandidate W)) × Collected now cs rs
  unfolding score_candidate
  collected [] now fit = ([], (refl, refl, tt))
  collected (c ∷ cs) now (fit, fits) =
      let (b, e) = breakdown-Returns floats tuning weights c.signals now fit in
      let (rs, (es, same, all)) = collected cs now fits in
      let r : RankedCandidate W = record { candidate = c; score = b.total; breakdown = b } in
      (r ∷ rs, (rw (e, es) refl, ap (λ rest. c ∷ rest) same, (rw e refl, all)))

  pub rank_selects :
      (candidates : List (Candidate W)) (top_k now : ℕ)
      → All (λ c. AllFit c.signals) candidates
      → (selected rest : List (RankedCandidate W)) × (rank floats tuning weights scores round12
            candidates top_k now
          ≡ some selected)
        × Permᴰ (map (λ r. r.candidate) (selected ++ rest)) candidates
        × (length selected ≡ min top_k (length candidates))
        × All (IsScored now) (selected ++ rest)
        × AreInOrder (selected ++ rest)
  unfolding rank first
  rank_selects candidates top_k now fit =
      let (rs, (e, same, scored)) = collected candidates now fit in
      let all = sort first rs in
      let perm = sort-perm first rs in
      let whole = take-append-drop top_k all in
      let size : length rs ≡ length candidates =
        sym (length-map (λ r. r.candidate) rs) ∙ ap length same in
      (
        take top_k all,
        drop top_k all,
        rw e refl,
        rw whole (
            subst (λ cs. Permᴰ (map (λ r. r.candidate) all) cs) same
              (perm-map (λ r. r.candidate) perm)),
        length-take top_k all ∙ ap (min top_k) (length-perm perm ∙ size),
        rw whole (perm-All (IsScored now) (perm_sym perm) scored),
        rw whole (AreInOrder-of_sorted all (sort-IsSorted first first-IsWeakOrder rs)),
      )

  abbrev pub Distinct : List (Candidate W) → Type 0
  Distinct [] = Unit
  Distinct (c ∷ cs) = All (λ d. c.memory_id ≢ d.memory_id) cs × Distinct cs

  Differ-of_ids :
      (a b : RankedCandidate W) → a.candidate.memory_id ≢ b.candidate.memory_id → Differ first a b
  unfolding before first
  Differ-of_ids a b h =
      let x = round12 a.score in
      let y = round12 b.score in ground (arith, scores.ge→eq x y, scores.ge→eq y x)

  -- the ids of what was collected are those of the candidates
  abbrev HasIds : List (Candidate W) → Option (List (RankedCandidate W)) → Type 0
  HasIds cs none = Unit
  HasIds cs (some rs) = map (λ r. r.candidate) rs ≡ cs

  sequence-HasIds :
      (cs : List (Candidate W)) (now : ℕ)
      → HasIds cs (sequence (map (ranked floats tuning weights now) cs))
  sequence-HasIds [] now = refl
  sequence-HasIds (c ∷ cs) now =
      added (score_breakdown floats tuning weights c.signals now) _ (sequence-HasIds cs now)
    where
      added :
          (b : Option (ScoreBreakdown W)) (rest : Option (List (RankedCandidate W)))
          → HasIds cs rest
          → HasIds (c ∷ cs) (do
            r ← (do
              breakdown ← b
              some (record { candidate = c; score = breakdown.total; breakdown = breakdown }))
            others ← rest
            some (r ∷ others))
      added none rest h = tt
      added (some b) none h = tt
      added (some b) (some rs) h = ap (λ xs. c ∷ xs) h

  AllDiffer-of_ids :
      (rs : List (RankedCandidate W)) → Distinct (map (λ r. r.candidate) rs) → AllDiffer first rs
  AllDiffer-of_ids [] d = tt
  AllDiffer-of_ids (r ∷ rs) (h, hs) = (differs rs h, AllDiffer-of_ids rs hs)
    where
      differs :
          (ds : List (RankedCandidate W))
          → All (λ d. r.candidate.memory_id ≢ d.memory_id) (map (λ r. r.candidate) ds)
          → All (Differ first r) ds
      differs [] h = tt
      differs (d ∷ ds) (k, ks) = (Differ-of_ids r d k, differs ds ks)

  abbrev cut : ℕ → Option (List (RankedCandidate W)) → Option (List (RankedCandidate W))
  cut top_k o = o >>= λ all. some (take top_k (sort first all))

  same_cut :
      (cs : List (Candidate W)) (top_k : ℕ) (o p : Option (List (RankedCandidate W)))
      → Distinct cs
      → HasIds cs o
      → SameOf o p
      → cut top_k o ≡ cut top_k p
  same_cut cs top_k none none d h same = refl
  same_cut cs top_k none (some _) d h same = absurd same
  same_cut cs top_k (some _) none d h same = absurd same
  same_cut cs top_k (some rs) (some ss) d h same =
      ap (λ all. some (take top_k all))
        (sort_unique first first-IsWeakOrder same (AllDiffer-of_ids rs (subst Distinct (sym h) d)))

  -- Candidates with distinct ids are ranked the same way in whatever order they are given.
  pub rank_order_free :
      (cs ds : List (Candidate W)) (top_k now : ℕ)
      → Permᴰ cs ds
      → Distinct cs
      → rank floats tuning weights scores round12 cs top_k now
        ≡ rank floats tuning weights scores round12 ds top_k now
  unfolding rank first
  rank_order_free cs ds top_k now p d =
      same_cut cs top_k _ _ d (sequence-HasIds cs now)
        (sequence-perm (perm-map (ranked floats tuning weights now) p))
