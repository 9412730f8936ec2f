-- ===== src/Breaker/Cells.antt =====
-- The Redis of the runs: the state key and the probe lock as two cells.
use conversational_memory_sy.Prelude.{ℕ, refl, Option, none, some}
use conversational_memory_sy.Breaker.{Raw, Keyspace, or_default}

pub record Cells : Type 0 where
  pub raw : Option Raw
  pub lock : Option ℕ

abbrev pub cells : Keyspace Cells
cells = record {
  get = λ s. s.raw;
  holder = λ s. s.lock;
  set = λ s r. record s { raw = some r };
  del = λ s. record s { lock = none };
  set_nx = λ s token ttl. record s { lock = some (or_default token s.lock) };
  expire = λ s. record s { lock = none };
  get-set = λ s r. refl;
  holder-set = λ s r. refl;
  get-del = λ s. refl;
  holder-del = λ s. refl;
  get-set_nx = λ s token ttl. refl;
  holder-set_nx = λ s token ttl. refl;
  get-expire = λ s. refl;
  holder-expire = λ s. refl;
}
