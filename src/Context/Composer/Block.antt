-- ===== src/Context/Composer/Block.antt =====
-- context/composer.py: a stored memory cannot break out of its line of the block.
use conversational_memory_sy.Prelude.{
  suc, ◌≡◌, refl, ap, ◌∙◌, List, [], ◌∷◌, map, arith, length, All,
}
use conversational_memory_sy.Context.Text.{
  codes, clean, newlines, newlines-append, newlines-join, newlines-clean,
}
use conversational_memory_sy.Context.Composer.{
  RankedCandidate, block_header, render_line, render_block,
}

module _ {W : Type 0} where
  newlines-render_line : (item : RankedCandidate W) → newlines (render_line item) ≡ 0
  unfolding render_line
  newlines-render_line item =
      omega (arith, newlines-append (codes "- ") (clean item.content), newlines-clean item.content)

  lines-flat :
      (items : List (RankedCandidate W)) → All (λ t. newlines t ≡ 0) (map render_line items)
  lines-flat [] = tt
  lines-flat (item ∷ items) = (newlines-render_line item, lines-flat items)

  length-map : (items : List (RankedCandidate W)) → length (map render_line items) ≡ length items
  length-map [] = refl
  length-map (item ∷ items) = ap suc (length-map items)

  -- The block has as many line breaks as memories: whatever line breaks the stored texts hold,
  -- each memory is one line below the header.
  pub newlines-render_block :
      (items : List (RankedCandidate W)) → newlines (render_block items) ≡ length items
  unfolding render_block
  newlines-render_block [] = refl
  newlines-render_block (item ∷ items) =
      newlines-join (codes "\n") block_header (map render_line (item ∷ items)) refl
        (lines-flat (item ∷ items))
      ∙ omega (arith, length-map (item ∷ items))
