-- ===== src/Llm/Examples.antt =====
-- llm/config.py: a provider that is throttled once and then answers, with the vectors the wrong way
-- round.
use conversational_memory_sy.Prelude.{
  ℕ, zero, suc, ◌≤◌, ◌≡◌, ◌≢◌, refl, none, some, List, [], ◌∷◌, arith,
}
use conversational_memory_sy.Prelude.Perms.{Permᴰ}
use conversational_memory_sy.Context.Text.{Text, codes}
use conversational_memory_sy.Respond.Transcript.{texts}
use conversational_memory_sy.Llm.{
  Failure, Attempt, Delays, Item, Chunk, Chunks, is_rate_limit, with_rate_limit_retry, retry_from,
  budget, pieces, stream, embed,
}
use conversational_memory_sy.Llm.Retry.{IsRetried, with_rate_limit_retry-IsRetried}
use conversational_memory_sy.Llm.Streams.{IsOpened, stream-IsOpened}
use conversational_memory_sy.Llm.Vectors.{embed-in_order}

abbrev as_is : Text → Text
as_is t = t

abbrev throttled : Failure
throttled = record {
  class_name = codes "RateLimitError";
  status_code = some 429;
  text = codes "slow down";
  retry_after = none;
}

abbrev delays : Delays
delays = record { base = 15; ceiling = 60; second = 1 }

abbrev dice : ℕ → ℕ
dice attempt = 7

-- the first call is throttled
abbrev busy : {A : Type 0} → A → ℕ → Attempt A
busy a zero = Attempt.failed throttled
busy a (suc n) = Attempt.returned a

abbrev five : ℕ → Attempt ℕ
five = busy 5

with_rate_limit_retry-IsRetried_example :
    IsRetried as_is delays dice five 3 0 (with_rate_limit_retry as_is delays dice five 4)
with_rate_limit_retry-IsRetried_example = with_rate_limit_retry-IsRetried as_is delays dice five 4

abbrev swapped : List (Item ℕ)
swapped = record { index = some 1; embedding = 80 } ∷ record { index = some 0; embedding = 70 } ∷ []

abbrev embedder : List Text → ℕ → Attempt (List (Item ℕ))
embedder batch = busy swapped

abbrev batch : List Text
batch = codes "tea" ∷ codes "coffee" ∷ []

embed-in_order_example : embed as_is delays dice embedder 4 batch ≡ some (70 ∷ 80 ∷ [])
unfolding is_rate_limit
embed-in_order_example =
    embed-in_order as_is delays dice embedder 4 1 (codes "tea") (codes "coffee" ∷ []) swapped
      (70 ∷ 80 ∷ []) (omega arith) ((throttled, refl, refl), tt) refl (Permᴰ.swap refl refl)

abbrev said : Chunks
said =
    Chunks.then_chunk Chunk.empty
      (Chunks.then_chunk (Chunk.delta (some (codes "Hi"))) Chunks.broken)

abbrev talker : ℕ → ℕ → Attempt Chunks
talker max_tokens = busy said

speaks : texts (stream as_is delays dice talker 4 100) ≢ []
unfolding stream with_rate_limit_retry retry_from is_rate_limit pieces
speaks e = cc

stream-IsOpened_example :
    (512 ≤ budget 100)
    × IsOpened as_is delays dice (talker (budget 100)) 3 (stream as_is delays dice talker 4 100)
stream-IsOpened_example = stream-IsOpened as_is delays dice talker 4 100 speaks
