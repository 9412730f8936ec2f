-- ===== src/Capture/Retries.antt =====
-- capture/embed.py: when the retries of the embedding call give vectors.
use conversational_memory_sy.Prelude.{
  ℕ, zero, suc, ◌+◌, ◌<◌, ◌≤◌, ◌≡◌, refl, ap, ◌∙◌, subst, Option, none, some, List, arith, ◌↔◌, ◌⊎◌,
  inl, inr,
}
use conversational_memory_sy.Store.{is_null}
use conversational_memory_sy.Capture.Embed.{
  Attempt, vectors, throttled, refused, retries, settle, attempt_from,
}

some_only : {A : Type 0} {a : A} → none ≡ some a → ⊥
some_only h = let flags = ap is_null h in ground (arith, flags)

module _ {E : Type 0} (embed : ℕ → Attempt E) where
  -- an attempt within the retries gives the vectors, and every one before it was throttled
  abbrev pub Arrives : (left number : ℕ) → List (Option E) → Type 0
  Arrives left number answer =
      (wait : ℕ) × (wait ≤ left)
      × (embed (number + wait) ≡ vectors answer)
      × ((j : ℕ) → j < wait → embed (number + j) ≡ throttled)

  settled :
      (attempt : Attempt E) (later : Option (List (Option E))) (answer : List (Option E))
      → settle attempt later ≡ some answer
      → (attempt ≡ vectors answer) ⊎ (attempt ≡ throttled) × (later ≡ some answer)
  settled (vectors given) later answer h =
      inl (ap (λ x. elim x [ some a ↦ vectors a | none ↦ refused ]) h)
  settled throttled later answer h = inr (refl, h)
  settled refused later answer h = absurd (some_only h)

  at_once :
      (left number : ℕ) (answer : List (Option E))
      → embed number ≡ vectors answer
      → Arrives left number answer
  at_once left number answer h = (
    0,
    omega arith,
    subst (λ n. embed n ≡ vectors answer) (omega arith) h,
    λ j early. absurd (omega (arith, early)),
  )

  throttled_until :
      (wait number : ℕ)
      → embed number ≡ throttled
      → ((j : ℕ) → j < wait → embed (suc number + j) ≡ throttled)
      → (j : ℕ) → j < suc wait
      → embed (number + j) ≡ throttled
  throttled_until wait number busy before zero early =
      subst (λ n. embed n ≡ throttled) (omega arith) busy
  throttled_until wait number busy before (suc j) early =
      subst (λ n. embed n ≡ throttled) (omega arith) (before j (omega (arith, early)))

  after_throttle :
      (left number : ℕ) (answer : List (Option E))
      → embed number ≡ throttled
      → Arrives left (suc number) answer
      → Arrives (suc left) number answer
  after_throttle left number answer busy (wait, within, given, before) = (
    suc wait,
    omega (arith, within),
    subst (λ n. embed n ≡ vectors answer) (omega arith) given,
    throttled_until wait number busy before,
  )

  attempt_from-Arrives :
      (left number : ℕ) (answer : List (Option E))
      → attempt_from left number embed ≡ some answer
      → Arrives left number answer
  unfolding attempt_from
  attempt_from-Arrives zero number answer h = elim (settled (embed number) none answer h) [
    | inl given ↦ at_once 0 number answer given
    | inr (busy, never) ↦ absurd (some_only never)
  ]
  attempt_from-Arrives (suc left) number answer h =
      elim (settled (embed number) (attempt_from left (suc number) embed) answer h) [
        | inl given ↦ at_once (suc left) number answer given
        | inr (busy, later) ↦
            after_throttle left number answer busy
              (attempt_from-Arrives left (suc number) answer later)
      ]

  Arrives-attempt_from :
      (left number : ℕ) (answer : List (Option E)) (wait : ℕ)
      → wait ≤ left
      → embed (number + wait) ≡ vectors answer
      → ((j : ℕ) → j < wait → embed (number + j) ≡ throttled)
      → attempt_from left number embed ≡ some answer
  unfolding attempt_from
  Arrives-attempt_from zero number answer wait within given before =
      let now : embed number ≡ vectors answer =
        subst (λ n. embed n ≡ vectors answer) (omega (arith, within)) given in
      ap (λ a. settle a none) now
  Arrives-attempt_from (suc left) number answer zero within given before =
      let now : embed number ≡ vectors answer =
        subst (λ n. embed n ≡ vectors answer) (omega arith) given in
      ap (λ a. settle a (attempt_from left (suc number) embed)) now
  Arrives-attempt_from (suc left) number answer (suc wait) within given before =
      let now : embed number ≡ throttled =
        subst (λ n. embed n ≡ throttled) (omega arith) (before 0 (omega arith)) in
      ap (λ a. settle a (attempt_from left (suc number) embed)) now
      ∙ Arrives-attempt_from left (suc number) answer wait (omega (arith, within))
          (subst (λ n. embed n ≡ vectors answer) (omega arith) given)
          (λ j early.
            subst (λ n. embed n ≡ throttled) (omega arith) (before (suc j) (omega (arith, early))))

  -- The embedding call gives vectors exactly if one of its first eight attempts does and every
  -- attempt before that one was throttled; they are the vectors of that attempt.
  pub embeds_iff :
      (answer : List (Option E))
      → (attempt_from retries 0 embed ≡ some answer)
        ↔ (wait : ℕ) × (wait ≤ retries)
          × (embed wait ≡ vectors answer)
          × ((j : ℕ) → j < wait → embed j ≡ throttled)
  embeds_iff answer = (
    λ h.
        let (wait, within, given, before) = attempt_from-Arrives retries 0 answer h in
        (
          wait,
          within,
          subst (λ n. embed n ≡ vectors answer) (omega arith) given,
          λ j early. subst (λ n. embed n ≡ throttled) (omega arith) (before j early),
        ),
    λ (wait, within, given, before).
        Arrives-attempt_from retries 0 answer wait within
          (subst (λ n. embed n ≡ vectors answer) (omega arith) given)
          (λ j early. subst (λ n. embed n ≡ throttled) (omega arith) (before j early)),
  )
