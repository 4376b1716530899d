-- ===== src/ConnectionPool/Reduce.antt =====
-- TryReducePool
use data_proxy_library.Common.{
  ℕ, suc, ◌-◌, ◌&&◌, Option, none, some, List, [], ◌∷◌, length, ltb, if◌then◌else◌,
}
use data_proxy_library.ConnectionPool.{Connection, Pool, is_unique, set_connections}

module _ {D : Type 0} where
  -- The loop: instances without handles are closed until enough are, the others renumbered.
  unfoldable pub reduce_connections : ℕ → ℕ → List (Connection D) → List (Connection D)
  unfolding is_unique
  reduce_connections to_remove removed [] = []
  reduce_connections to_remove removed (c ∷ cs) =
      if ltb removed to_remove && is_unique c
      then reduce_connections to_remove (suc removed) cs
      else record c { number = c.number - removed } ∷ reduce_connections to_remove removed cs

  -- `size() - MinPoolSize`, as far as it is positive.
  abbrev pub surplus : Pool D → ℕ
  surplus p = length p.connections - p.config.min_pool_size

  -- What it returns is the time to sleep, or `none` for a pool that is never refreshed.
  unfoldable pub try_reduce_by : ℕ → Option ℕ → Pool D → Option ℕ × Pool D
  unfolding reduce_connections
  try_reduce_by now none p = (none, p)
  try_reduce_by now (some period) p =
      if ltb (now - p.refreshed_at) period then (some (period - (now - p.refreshed_at)), p) else (
        some period,
        record (set_connections (reduce_connections (surplus p) 0 p.connections) p) {
          refreshed_at = now;
        },
      )

  abbrev pub try_reduce_pool : ℕ → Pool D → Option ℕ × Pool D
  try_reduce_pool now p = try_reduce_by now p.config.pool_refresh_period p
