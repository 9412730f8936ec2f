-- ===== src/Llm/Streams.antt =====
-- llm/config.py: a stream is opened once, and what it yields is real output.
use conversational_memory_sy.Prelude.{
  ℕ, ◌+◌, ◌≤◌, ◌≡◌, ◌≢◌, refl, sym, ap, subst, Bool, none, some, [], ◌∷◌, ◌==◌, All, arith,
}
use conversational_memory_sy.Context.Text.{Text}
use conversational_memory_sy.Respond.{Completion}
use conversational_memory_sy.Respond.Transcript.{texts}
use conversational_memory_sy.Llm.{
  Attempt, Retried, Delays, empty, delta, Chunks, closed, broken, then_chunk, pieces, iterated,
  budget, with_rate_limit_retry, stream,
}
use conversational_memory_sy.Llm.Retry.{
  retries_of, upto, IsLimited, Decides, with_rate_limit_retry-IsRetried,
}

pieces-nonempty : (chunks : Chunks) → All (λ t. t ≢ []) (texts (pieces chunks))
unfolding pieces
pieces-nonempty closed = tt
pieces-nonempty broken = tt
pieces-nonempty (then_chunk empty rest) = pieces-nonempty rest
pieces-nonempty (then_chunk (delta none) rest) = pieces-nonempty rest
pieces-nonempty (then_chunk (delta (some [])) rest) = pieces-nonempty rest
pieces-nonempty (then_chunk (delta (some (c ∷ cs))) rest) = (λ e. cc, pieces-nonempty rest)

module _ (lower : Text → Text) (d : Delays) (random : ℕ → ℕ) where
  -- one response was opened, after attempts that met a rate limit, and the stream is its pieces
  abbrev pub IsOpened : (ℕ → Attempt Chunks) → (most : ℕ) → Completion → Type 0
  IsOpened operation most completion =
      (k : ℕ) × (chunks : Chunks) × (k ≤ most)
      × All (IsLimited lower d random operation) (upto 0 k)
      × (operation k ≡ Attempt.returned chunks)
      × (completion ≡ pieces chunks)
      × All (λ t. t ≢ []) (texts completion)

  IsOpened-by :
      (operation : ℕ → Attempt Chunks) (most k : ℕ) (a : Attempt Chunks) (final : Bool)
      (result : Retried Chunks)
      → k ≤ most
      → All (IsLimited lower d random operation) (upto 0 k)
      → operation k ≡ a
      → Decides lower d random operation a final result
      → texts (iterated result) ≢ []
      → IsOpened operation most (iterated result)
  unfolding iterated
  IsOpened-by operation most k (Attempt.returned chunks) final (Retried.returned other) h l e r t =
      (k, chunks, h, l, e, ap pieces (sym r), pieces-nonempty other)
  IsOpened-by operation most k (Attempt.returned chunks) final (Retried.reraised e') h l e r t =
      absurd r
  IsOpened-by operation most k (Attempt.returned chunks) final Retried.exhausted h l e r t =
      absurd r
  IsOpened-by operation most k (Attempt.failed f) final (Retried.returned other) h l e r t =
      absurd r
  IsOpened-by operation most k (Attempt.failed f) final (Retried.reraised e') h l e r t =
      absurd (t refl)
  IsOpened-by operation most k (Attempt.failed f) final Retried.exhausted h l e r t =
      absurd (t refl)

  -- If a stream yields anything, it is the pieces of one response, which was opened within the
  -- attempts allowed and after attempts that all met a rate limit, so no token is replayed; every
  -- piece is not empty, and the budget of tokens is at least 512.
  pub stream-IsOpened :
      (provider : (max_tokens attempt : ℕ) → Attempt Chunks) (attempts max_tokens : ℕ)
      → texts (stream lower d random provider attempts max_tokens) ≢ []
      → (512 ≤ budget max_tokens)
        × IsOpened
            (provider (budget max_tokens))
            (retries_of attempts)
            (stream lower d random provider attempts max_tokens)
  unfolding stream
  stream-IsOpened provider attempts max_tokens t =
      let operation = provider (budget max_tokens) in
      let o = with_rate_limit_retry lower d random operation attempts in
      let r = with_rate_limit_retry-IsRetried lower d random operation attempts in
      let n : 0 + r.retries ≡ r.retries = omega arith in
      (
        omega arith,
        IsOpened-by operation (retries_of attempts) r.retries (operation r.retries)
            (r.retries == retries_of attempts) o.result r.bounded r.limited refl
            (subst
              (λ i.
                Decides lower d random operation (operation i) (r.retries == retries_of attempts)
                  o.result)
              n r.decided)
            t,
      )
