-- ===== src/Node/Rewind.antt =====
-- The rounds of AbstractNode::Store, as the rounds of one action on the stream that they begin with.
use data_proxy_library.Common.{ℕ, zero, suc, ◌≡◌, refl, arith}
use data_proxy_library.Common.Exec.{Exec}
use data_proxy_library.Request.{Input, seek}
use data_proxy_library.Node.Attempts.{attempts, store_attempts}

module _ {S : Type 0} (m : Input → Exec S (Unit {0})) (stops_at : Input → S → ℕ)
    (retry_pos : ℕ) where
  -- Wherever a round leaves the stream, the next one finds it at the position to retry from.
  pub store_attempts_lem :
      (k : ℕ) (data_in : Input) (s : S)
      → store_attempts k m stops_at retry_pos data_in s ≡ attempts k (m (seek retry_pos data_in)) s
  unfolding store_attempts attempts
  store_attempts_lem zero data_in s = refl
  store_attempts_lem (suc zero) data_in s = ground arith
  store_attempts_lem (suc (suc k)) data_in s =
      let used = seek retry_pos data_in in
      let left = seek (stops_at used s) used in
      ground (arith, store_attempts_lem (suc k) (seek retry_pos left) (m used s).1)
