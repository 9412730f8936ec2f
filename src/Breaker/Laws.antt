-- ===== src/Breaker/Laws.antt =====
-- What the scripts of retrieve/breaker.py read back after the Redis commands.
use conversational_memory_sy.Prelude.{ℕ, ◌≡◌, refl, ap, ◌∙◌, some}
use conversational_memory_sy.Breaker.{BreakerState, Keyspace, decode, encode, or_default, stored}

pub decode-encode : (r : BreakerState) → decode (some (encode r)) ≡ r
unfolding decode
decode-encode r = refl

module _ {S : Type 0} (redis : Keyspace S) where
  open redis use {get, holder, set, del, set_nx, expire}

  pub stored-set : (s : S) (r : BreakerState) → stored redis (set s (encode r)) ≡ r
  unfolding stored
  stored-set s r = ap decode (redis.get-set s (encode r)) ∙ decode-encode r

  pub stored-del : (s : S) → stored redis (del s) ≡ stored redis s
  unfolding stored
  stored-del s = ap decode (redis.get-del s)

  pub stored-set_nx : (s : S) (token ttl : ℕ) → stored redis (set_nx s token ttl) ≡ stored redis s
  unfolding stored
  stored-set_nx s token ttl = ap decode (redis.get-set_nx s token ttl)

  pub stored-expire : (s : S) → stored redis (expire s) ≡ stored redis s
  unfolding stored
  stored-expire s = ap decode (redis.get-expire s)

  -- the state and the lock after the writes of `_FAILURE_LUA` and `_SUCCESS_LUA`
  pub stored-del-set : (s : S) (r : BreakerState) → stored redis (del (set s (encode r))) ≡ r
  stored-del-set s r = stored-del (set s (encode r)) ∙ stored-set s r

  -- and after the writes of `_ALLOW_LUA`
  pub stored-set_nx-set :
      (s : S) (r : BreakerState) (token ttl : ℕ)
      → stored redis (set_nx (set s (encode r)) token ttl) ≡ r
  stored-set_nx-set s r token ttl = stored-set_nx (set s (encode r)) token ttl ∙ stored-set s r

  pub holder-set_nx-set :
      (s : S) (r : BreakerState) (token ttl : ℕ)
      → holder (set_nx (set s (encode r)) token ttl) ≡ some (or_default token (holder s))
  holder-set_nx-set s r token ttl =
      redis.holder-set_nx (set s (encode r)) token ttl
      ∙ ap (λ h. some (or_default token h)) (redis.holder-set s (encode r))
