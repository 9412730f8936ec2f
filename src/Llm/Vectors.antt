-- ===== src/Llm/Vectors.antt =====
-- llm/config.py: `embed` gives the vectors in the order of the texts.
use conversational_memory_sy.Prelude.{
  ℕ, suc, ◌≤◌, ◌<◌, ◌≡◌, inl, refl, sym, ap, ◌∙◌, false, some, List, [], ◌∷◌, map, All, arith,
}
use conversational_memory_sy.Prelude.Perms.{Permᴰ, perm_sym}
use conversational_memory_sy.Prelude.Sorting.{
  IsSorted, IsWeakOrder, Differ, AllDiffer, sort_unique, sort_sorted,
}
use conversational_memory_sy.Context.Text.{Text}
use conversational_memory_sy.Llm.{
  Attempt, Retried, Delays, Item, index_of, earlier, vectors_of, embed,
}
use conversational_memory_sy.Llm.Retry.{retries_of, upto, IsLimited, with_rate_limit_retry-returns}

module _ {E : Type 0} where
  -- the vectors as a response that numbers them from `i` on
  abbrev pub numbered : ℕ → List E → List (Item E)
  numbered i [] = []
  numbered i (v ∷ vs) = record { index = some i; embedding = v } ∷ numbered (suc i) vs

  earlier-IsWeakOrder : IsWeakOrder (earlier {E = E})
  earlier-IsWeakOrder = record {
    asymm = λ a b h. (let x = index_of a in let y = index_of b in ground arith);
    ge_trans = λ a b c h k.
        (let x = index_of a in let y = index_of b in let z = index_of c in ground arith);
  }

  later_ones :
      (low i : ℕ) (v : E) (vs : List E)
      → low < i
      → All
          (λ item. earlier item (record { index = some low; embedding = v }) ≡ false)
          (numbered i vs)
  later_ones low i v [] h = tt
  later_ones low i v (w ∷ vs) h = (ground arith, later_ones low (suc i) v vs (omega (arith, h)))

  differing :
      (low i : ℕ) (v : E) (vs : List E)
      → low < i
      → All (Differ earlier (record { index = some low; embedding = v })) (numbered i vs)
  differing low i v [] h = tt
  differing low i v (w ∷ vs) h = (inl (ground arith), differing low (suc i) v vs (omega (arith, h)))

  numbered-IsSorted : (i : ℕ) (vs : List E) → IsSorted earlier (numbered i vs)
  numbered-IsSorted i [] = tt
  numbered-IsSorted i (v ∷ vs) =
      (later_ones i (suc i) v vs (omega arith), numbered-IsSorted (suc i) vs)

  numbered-AllDiffer : (i : ℕ) (vs : List E) → AllDiffer earlier (numbered i vs)
  numbered-AllDiffer i [] = tt
  numbered-AllDiffer i (v ∷ vs) =
      (differing i (suc i) v vs (omega arith), numbered-AllDiffer (suc i) vs)

  embeddings-numbered : (i : ℕ) (vs : List E) → map (λ item. item.embedding) (numbered i vs) ≡ vs
  embeddings-numbered i [] = refl
  embeddings-numbered i (v ∷ vs) = ap (λ rest. v ∷ rest) (embeddings-numbered (suc i) vs)

  vectors_of-numbered :
      (items : List (Item E)) (vs : List E)
      → Permᴰ items (numbered 0 vs)
      → vectors_of (Retried.returned items) ≡ some vs
  vectors_of-numbered items vs perm =
      let in_order =
        sort_unique earlier earlier-IsWeakOrder (perm_sym perm) (numbered-AllDiffer 0 vs) in
      let sorted = sym in_order ∙ sort_sorted earlier (numbered 0 vs) (numbered-IsSorted 0 vs) in
      ap (λ xs. some (map (λ item. item.embedding) xs)) sorted ∙ ap some (embeddings-numbered 0 vs)

-- If the embedder answers a batch that is not empty, after attempts that all met a rate limit and
-- within those allowed, with vectors that it numbers from 0 on, in whatever order, then `embed`
-- gives the vectors in the order of their numbers.
pub embed-in_order :
    (lower : Text → Text) (d : Delays) (random : ℕ → ℕ) {E : Type 0}
    (provider : List Text → ℕ → Attempt (List (Item E))) (attempts k : ℕ) (text : Text)
    (texts : List Text) (items : List (Item E)) (vectors : List E)
    → k ≤ retries_of attempts
    → All (IsLimited lower d random (provider (text ∷ texts))) (upto 0 k)
    → provider (text ∷ texts) k ≡ Attempt.returned items
    → Permᴰ items (numbered 0 vectors)
    → embed lower d random provider attempts (text ∷ texts) ≡ some vectors
unfolding embed
embed-in_order lower d random provider attempts k text texts items vectors h limited answer perm =
    ap vectors_of (
      with_rate_limit_retry-returns lower d random (provider (text ∷ texts)) attempts k items h
        limited answer)
    ∙ vectors_of-numbered items vectors perm
