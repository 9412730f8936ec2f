-- ===== src/Retrieve/Guarded/Effects.antt =====
-- retrieve/guarded.py: when a guarded call has a result, and when that counts as a failure.
use conversational_memory_sy.Prelude.{
  ℕ, ◌≡◌, refl, true, false, ◌||◌, List, [], ◌∷◌, arith, ◌↔◌, ◌≢◌, if◌then◌else◌,
}
use conversational_memory_sy.Breaker.{Keyspace}
use conversational_memory_sy.Breaker.Replica.{Call, allow}
use conversational_memory_sy.Retrieve.{Source, semantic, keyword, HybridResult}
use conversational_memory_sy.Retrieve.Guarded.{
  Outcome, returned, found, has_key, is_empty, all_degraded, total_failure, conclude,
  guarded_hybrid_search,
}

module _ {C R S : Type 0} (redis : Keyspace S) (threshold cooldown ttl : ℕ) where
  -- A result is handed out only if the breaker let the call through, the search returned that
  -- result in time, and it is no total failure.
  pub guarded_found :
      (c1 c2 c3 : Call) (s : S) (asked_at token now later : ℕ) (search : Unit {0} → Outcome C R)
      (result : HybridResult C R)
      → (guarded_hybrid_search redis threshold cooldown ttl c1 c2 c3 s asked_at token now later
          search).1
        ≡ found result
      → ((allow redis threshold cooldown ttl c1 s asked_at token).1.allowed ≡ true)
        × (search tt ≡ returned result)
        × (total_failure result ≡ false)
  unfolding guarded_hybrid_search conclude
  guarded_found c1 c2 c3 s asked_at token now later search result h = ground arith

abbrev pub Covers {ℓ κ} : {A : Type ℓ} {B : Type κ} → List (Source × A) → List (Source × B) → Type 0
Covers counts degraded = (p : Source) → has_key p counts ≡ true → has_key p degraded ≡ true

all_degraded_sound :
    {A B : Type 0} (counts : List (Source × A)) (degraded : List (Source × B))
    → all_degraded counts degraded ≡ true
    → Covers counts degraded
all_degraded_sound [] degraded h p k = cc
all_degraded_sound ((semantic, n) ∷ counts) degraded h semantic k = ground arith
all_degraded_sound ((keyword, n) ∷ counts) degraded h keyword k = ground arith
all_degraded_sound ((semantic, n) ∷ counts) degraded h keyword k =
    ground (arith, all_degraded_sound counts degraded (ground arith) keyword)
all_degraded_sound ((keyword, n) ∷ counts) degraded h semantic k =
    ground (arith, all_degraded_sound counts degraded (ground arith) semantic)

all_degraded_complete :
    {A B : Type 0} (counts : List (Source × A)) (degraded : List (Source × B))
    → Covers counts degraded
    → all_degraded counts degraded ≡ true
all_degraded_complete [] degraded h = refl
all_degraded_complete ((p, n) ∷ counts) degraded h =
    ground
      (arith, h p (ground arith), all_degraded_complete counts degraded (λ q k. h q (ground arith)))

covered_fails :
    {A B : Type 0} (counts : List (Source × A)) (degraded : List (Source × B))
    → counts ≢ []
    → Covers counts degraded
    → (if is_empty counts || is_empty degraded then false else all_degraded counts degraded) ≡ true
covered_fails [] degraded n h = absurd (n refl)
covered_fails ((semantic, m) ∷ counts) [] n h = cc (h semantic refl)
covered_fails ((keyword, m) ∷ counts) [] n h = cc (h keyword refl)
covered_fails (c ∷ counts) (d ∷ degraded) n h = all_degraded_complete (c ∷ counts) (d ∷ degraded) h

-- A result counts as a failure exactly when some path was attempted and every attempted path is
-- among the degraded ones.
pub total_failure_iff :
    {C R : Type 0} (result : HybridResult C R)
    → (total_failure result ≡ true)
      ↔ (result.path_counts ≢ []) × Covers result.path_counts result.degraded
unfolding total_failure
total_failure_iff result = (
  λ h. (ground arith, all_degraded_sound result.path_counts result.degraded (ground arith)),
  λ h. covered_fails result.path_counts result.degraded h.0 h.1,
)
