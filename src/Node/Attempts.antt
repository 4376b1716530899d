-- ===== src/Node/Attempts.antt =====
-- The retry loops of AbstractNode.cpp.
use data_proxy_library.Common.{ℕ, zero, suc, ◌+◌, ◌%◌, ◌^◌, Bool, true, false, drop}
use data_proxy_library.Common.Exec.{ok, err, diverged, Exec}
use data_proxy_library.Request.{Bytes, Input, seek}

-- `for( uint i=0; i<RetryCount+1; ++i )` makes this many rounds.
unfoldable pub rounds : ℕ → ℕ
rounds retry_count = (retry_count + 1) % 2 ^ 32

-- The loop of Delete: whether a round has returned from it. With no round at all the
-- code falls out of the loop.
unfoldable pub attempts : {S : Type 0} → ℕ → Exec S (Unit {0}) → Exec S Bool
attempts zero m s = (ok false, s)
attempts (suc k) m s = elim (m s).0 [
  | ok _ ↦ (ok true, (m s).1)
  | err e ↦ elim k [ zero ↦ (err e, (m s).1) | suc _ ↦ attempts k m (m s).1 ]
  | diverged ↦ (diverged, (m s).1)
]

-- The loop of Store, whose rounds share a stream that they leave somewhere else. It is put back in
-- front of every round and behind each failed one but the last.
unfoldable pub store_attempts :
    {S : Type 0} → ℕ → (Input → Exec S (Unit {0})) → (Input → S → ℕ) → ℕ → Input → Exec S Bool
store_attempts zero m stops_at retry_pos data_in s = (ok false, s)
store_attempts (suc k) m stops_at retry_pos data_in s =
    let used = seek retry_pos data_in in
    let left = seek (stops_at used s) used in
    elim (m used s).0 [
      | ok _ ↦ (ok true, (m used s).1)
      | err e ↦ elim k [
        | zero ↦ (err e, (m used s).1)
        | suc _ ↦ store_attempts k m stops_at retry_pos (seek retry_pos left) (m used s).1
      ]
      | diverged ↦ (diverged, (m used s).1)
    ]

-- The loop of Load, over the output chain that all rounds share. What a failed round has written
-- is cleared only as far as the chain has passed it on to the stream below.
module _ {S : Type 0} (passed : Bytes → ℕ) where
  unfoldable pub load_attempts : ℕ → Exec (Bytes × S) (Unit {0}) → Exec (Bytes × S) (Unit {0})
  load_attempts zero m (held, s) = (ok tt, (held, s))
  load_attempts (suc k) m (held, s) =
      let done = m (held, s) in
      elim done.0 [
        | ok _ ↦ done
        | err e ↦ elim k [
          | zero ↦ done
          | suc _ ↦ load_attempts k m (drop (passed done.1.0) done.1.0, done.1.1)
        ]
        | diverged ↦ done
      ]
