-- ===== src/Context/Composer/Fit.antt =====
-- context/composer.py: the drop loop ends, fits the budget, and drops the right memories.
use conversational_memory_sy.Prelude.{
  ℕ, zero, suc, ◌≤◌, ◌<◌, ◌≡◌, refl, ap, ◌∙◌, true, false, inl, inr, some, List, [], ◌∷◌, ◌++◌,
  append_assoc, arith, ltb, length, All, Bool-cases, map, keep,
}
use conversational_memory_sy.Prelude.Scores.{Scores}
use conversational_memory_sy.Prelude.Perms.{
  Permᴰ, perm_refl, perm_sym, perm-All, perm-append_left, All-append, All-map,
}
use conversational_memory_sy.Context.Text.{Text}
use conversational_memory_sy.Context.Composer.{
  RankedCandidate, ComposedContext, Fitted, pop_lowest, render_block, fitted, fit_from, fit, finish,
  composed, empty_context, says_something, compose_kept, compose_profile_block,
}
use conversational_memory_sy.Context.Composer.Victim.{IsWorse, pop_lowest-IsWorse}

module _ {W : Type 0} (scores : Scores W) (count : Text → ℕ) where
  -- every dropped memory was to be dropped before every memory that is kept
  abbrev pub Ordered : List (RankedCandidate W) → List (RankedCandidate W) → Type 0
  Ordered dropped selected = All (λ d. All (IsWorse scores d) selected) dropped

  -- What the loop promises of its result, from what was selected and dropped before.
  pub record IsFit (selected dropped : List (RankedCandidate W)) (budget : ℕ) (f : Fitted W)
      : Type 0 where
    pub within : f.tokens ≤ budget
    pub measured : f.tokens ≡ count f.block
    pub rendered : f.block ≡ render_block f.selected
    pub nothing_lost : Permᴰ (f.dropped ++ f.selected) (dropped ++ selected)
    pub lowest_first : Ordered f.dropped f.selected

  fitted-IsFit :
      (selected dropped : List (RankedCandidate W)) (budget : ℕ)
      → count (render_block selected) ≤ budget
      → Ordered dropped selected
      → IsFit selected dropped budget (fitted scores count selected dropped)
  fitted-IsFit selected dropped budget h o = record {
    within = h;
    measured = refl;
    rendered = refl;
    nothing_lost = perm_refl (dropped ++ selected);
    lowest_first = o;
  }

  Ordered-rest :
      (dropped selected rest : List (RankedCandidate W)) (victim : RankedCandidate W)
      → Permᴰ (victim ∷ rest) selected
      → All (IsWorse scores victim) selected
      → Ordered dropped selected
      → Ordered (dropped ++ victim ∷ []) rest
  Ordered-rest dropped selected rest victim p w o =
      All-append (λ d. All (IsWorse scores d) rest) dropped (victim ∷ [])
        (All-map (λ d. All (IsWorse scores d) selected) (λ d. All (IsWorse scores d) rest) dropped
          (λ d h. (perm-All (IsWorse scores d) (perm_sym p) h).1) o)
        ((perm-All (IsWorse scores victim) (perm_sym p) w).1, tt)

  -- one round of the loop
  fit_from-over :
      (fuel : ℕ) (item : RankedCandidate W) (items dropped : List (RankedCandidate W)) (budget : ℕ)
      {victim : RankedCandidate W} {rest : List (RankedCandidate W)}
      → ltb budget (count (render_block (item ∷ items))) ≡ true
      → pop_lowest scores (item ∷ items) ≡ some (victim, rest)
      → fit_from scores count (suc fuel) (item ∷ items) dropped budget
        ≡ fit_from scores count fuel rest (dropped ++ victim ∷ []) budget
  unfolding fit_from
  fit_from-over fuel item items dropped budget over popped = rw (over, popped, fit_from)

  fit_from-fits :
      (fuel : ℕ) (item : RankedCandidate W) (items dropped : List (RankedCandidate W)) (budget : ℕ)
      → ltb budget (count (render_block (item ∷ items))) ≡ false
      → fit_from scores count (suc fuel) (item ∷ items) dropped budget
        ≡ some (fitted scores count (item ∷ items) dropped)
  unfolding fit_from
  fit_from-fits fuel item items dropped budget fits = rw (fits, fit_from)

  fit_from-IsFit :
      (fuel : ℕ) (selected dropped : List (RankedCandidate W)) (budget : ℕ)
      → count [] ≡ 0
      → length selected < fuel
      → Ordered dropped selected
      → (f : Fitted W) × (fit_from scores count fuel selected dropped budget ≡ some f)
        × IsFit selected dropped budget f
  unfolding fit_from
  fit_from-IsFit zero selected dropped budget z h o = absurd (omega arith)
  fit_from-IsFit (suc fuel) [] dropped budget z h o = (
    fitted scores count [] dropped,
    refl,
    fitted-IsFit [] dropped budget (unfold render_block in omega (arith, z)) o,
  )
  fit_from-IsFit (suc fuel) (item ∷ items) dropped budget z h o =
      elim (Bool-cases (ltb budget (count (render_block (item ∷ items))))) [
        | inr fits ↦ (
          fitted scores count (item ∷ items) dropped,
          fit_from-fits fuel item items dropped budget fits,
          fitted-IsFit (item ∷ items) dropped budget (ground arith) o,
        )
        | inl over ↦
            let (victim, rest, popped, perm, len, worse) = pop_lowest-IsWorse scores item items in
            let (f, result, good) =
              fit_from-IsFit fuel rest (dropped ++ victim ∷ []) budget z (omega (arith, len))
                (Ordered-rest dropped (item ∷ items) rest victim perm worse o) in
            (
              f,
              fit_from-over fuel item items dropped budget over popped ∙ result,
              record {
                within = good.within;
                measured = good.measured;
                rendered = good.rendered;
                lowest_first = good.lowest_first;
                nothing_lost =
                    Permᴰ.trans good.nothing_lost (
                      rw (append_assoc dropped (victim ∷ []) rest) (perm-append_left dropped perm));
              },
            )
      ]

  -- The loop ends with a block that fits: the token count is that of the block, the block is that
  -- of the selected memories, these and the dropped ones are the given ones rearranged, and no
  -- dropped memory scores higher than a selected one, nor the same with an earlier id.
  pub fit-IsFit :
      (ranked : List (RankedCandidate W)) (budget : ℕ)
      → count [] ≡ 0
      → (f : Fitted W) × (fit scores count ranked budget ≡ some f) × IsFit ranked [] budget f
  unfolding fit
  fit-IsFit ranked budget z =
      fit_from-IsFit (suc (length ranked)) ranked [] budget z (omega arith) tt

  -- Provided that the empty text counts 0 tokens, the drop loop keeps every memory of a block
  -- that is within the budget.
  pub fit_keeps_all :
      (ranked : List (RankedCandidate W)) (budget : ℕ)
      → count [] ≡ 0
      → count (render_block ranked) ≤ budget
      → fit scores count ranked budget ≡ some (fitted scores count ranked [])
  unfolding fit
  fit_keeps_all [] budget z h = unfold fit_from in refl
  fit_keeps_all (item ∷ items) budget z h =
      fit_from-fits (suc (length items)) item items [] budget (ground arith)

  -- What a composed block promises, of the memories that were to be composed.
  pub record IsComposed (kept : List (RankedCandidate W)) (budget : ℕ) (c : ComposedContext W)
      : Type 0 where
    pub within : c.token_count ≤ budget
    pub measured : c.token_count ≡ count c.block
    pub rendered : c.block ≡ render_block c.included
    pub listed : c.memory_ids ≡ map (λ item. item.memory_id) c.included
    pub left_out :
        (dropped : List (RankedCandidate W)) × Permᴰ (dropped ++ c.included) kept
        × (c.dropped_ids ≡ map (λ item. item.memory_id) dropped)
        × Ordered dropped c.included

  finish-fits :
      (budget : ℕ) (f : Fitted W)
      → f.tokens ≤ budget
      → finish scores count budget (some f) ≡ some (composed scores count budget f)
  finish-fits budget f h = ground arith

  compose_kept-IsComposed :
      (kept : List (RankedCandidate W)) (budget : ℕ)
      → count [] ≡ 0
      → (c : ComposedContext W) × (compose_kept scores count budget kept ≡ some c)
        × IsComposed kept budget c
  compose_kept-IsComposed [] budget z = (
    empty_context scores count budget,
    refl,
    record {
      within = omega arith;
      measured = omega (arith, z);
      rendered = unfold render_block in refl;
      listed = refl;
      left_out = ([], perm_refl [], refl, tt);
    },
  )
  compose_kept-IsComposed (item ∷ items) budget z =
      let (f, result, good) = fit-IsFit (item ∷ items) budget z in
      (
        composed scores count budget f,
        ap (finish scores count budget) result ∙ finish-fits budget f good.within,
        record {
          within = good.within;
          measured = good.measured;
          rendered = good.rendered;
          listed = refl;
          left_out = (f.dropped, good.nothing_lost, refl, good.lowest_first);
        },
      )

  -- Provided that the empty text counts 0 tokens, composing returns a block within the budget by
  -- its own count, rendered from exactly the memories listed; with those left out for the budget
  -- these are the memories that say something, and none of those left out scores higher than a
  -- listed one, nor the same with an earlier id.
  pub compose-IsComposed :
      (ranked : List (RankedCandidate W)) (budget : ℕ)
      → count [] ≡ 0
      → (c : ComposedContext W) × (compose_profile_block scores count ranked budget ≡ some c)
        × IsComposed (keep says_something ranked) budget c
  unfolding compose_profile_block
  compose-IsComposed ranked budget z = compose_kept-IsComposed (keep says_something ranked) budget z
