-- ===== src/Context/Examples.antt =====
-- context/: runs on concrete memories; a token is a character.
use conversational_memory_sy.Prelude.{ℕ, ◌≡◌, refl, some, List, [], ◌∷◌, length, keep}
use conversational_memory_sy.Prelude.Scores.{number_scores}
use conversational_memory_sy.Context.Text.{Text, codes, newlines}
use conversational_memory_sy.Context.Composer.{
  RankedCandidate, ComposedContext, render_block, says_something, compose_profile_block,
}
use conversational_memory_sy.Context.Composer.Fit.{IsComposed, compose-IsComposed}
use conversational_memory_sy.Context.Composer.Block.{newlines-render_block}

abbrev memory : ℕ → Text → ℕ → RankedCandidate ℕ
memory id content score = record { memory_id = id; content = content; score = score }

-- two with the same score, one with a line break
abbrev memories : List (RankedCandidate ℕ)
memories =
    memory 4 (codes "Drinks tea") 5
    ∷ memory 9 (codes "Lives in\nOslo") 5
    ∷ memory 2 (codes "Runs") 8
    ∷ []

compose-IsComposed_example :
    (c : ComposedContext ℕ) × (compose_profile_block number_scores length memories 50 ≡ some c)
    × IsComposed number_scores length (keep says_something memories) 50 c
compose-IsComposed_example = compose-IsComposed number_scores length memories 50 refl

newlines-render_block_example : newlines (render_block memories) ≡ 3
newlines-render_block_example = newlines-render_block memories
