-- ===== src/ConnectionPool/History.antt =====
-- What happens to a pool over time: callers take and let go of handles, and the watcher refreshes it.
use data_proxy_library.Common.{
  ℕ, String, ◌+◌, ◌-◌, ◌≤◌, ◌≡◌, ap, Bool, false, List, [], ◌∷◌, length, some, arith, ◌⊎◌, inl, inr,
  ltb, Bool-cases,
}
use data_proxy_library.ConnectionPool.{Pool, PoolConfig, Databases, get_connection, release}
use data_proxy_library.ConnectionPool.Reduce.{
  reduce_connections, surplus, try_reduce_by, try_reduce_pool,
}
use data_proxy_library.ConnectionPool.Numbers.{
  busy_handles, unique_count, busy_handles-reduce_connections, unique_count-reduce_connections,
  length-busy_handles,
}
use data_proxy_library.ConnectionPool.Sound.Calls.{get_connection-Keeps}
use data_proxy_library.ConnectionPool.Sound.{
  IsOrdered, Ordered, release-Ordered, try_reduce_by-Ordered,
}

-- `now` is the time of the call.
pub data PoolCall : Type 0 where
  takes : (inside : Bool) → (now : ℕ) → PoolCall
  lets_go : ℕ → PoolCall
  refreshes : (now : ℕ) → PoolCall

module _ {D W : Type 0} (lib : Databases D W) where
  unfoldable pub perform : PoolCall → Pool D × W → Pool D × W
  unfolding get_connection release try_reduce_by
  perform (takes inside now) (p, w) = (get_connection lib now inside (p, w)).1
  perform (lets_go i) (p, w) = (release i p, w)
  perform (refreshes now) (p, w) = ((try_reduce_pool now p).1, w)

  unfoldable pub run : List PoolCall → Pool D × W → Pool D × W
  unfolding perform
  run [] s = s
  run (c ∷ cs) s = run cs (perform c s)

  perform-Ordered : (c : PoolCall) (p : Pool D) (w : W) → IsOrdered p → Ordered (perform c (p, w))
  unfolding perform
  perform-Ordered (takes inside now) p w h = (get_connection-Keeps lib now inside).at (p, w) h
  perform-Ordered (lets_go i) p w h = release-Ordered i p h
  perform-Ordered (refreshes now) p w h = try_reduce_by-Ordered now p.config.pool_refresh_period p h

  run-Ordered : (cs : List PoolCall) (p : Pool D) (w : W) → IsOrdered p → Ordered (run cs (p, w))
  unfolding run
  run-Ordered [] p w h = h
  run-Ordered (c ∷ cs) p w h =
      run-Ordered cs (perform c (p, w)).0 (perform c (p, w)).1 (perform-Ordered c p w h)

  -- After any history of calls on a new pool, in which callers get and let go of connections and
  -- the pool is refreshed, whichever calls have thrown: the connections are numbered from 1 on,
  -- in order, and there are no more of them than the maximal pool size.
  pub history-Ordered :
      (cs : List PoolCall) (name : String) (config : PoolConfig) (now : ℕ) (w : W)
      → Ordered (
          run cs (record { name = name; config = config; connections = []; refreshed_at = now }, w))
  history-Ordered cs name config now w =
      run-Ordered cs _ w (record { numbered = tt; bounded = omega arith })

tight_case : (m l b u v k : ℕ) → l ≡ b + u → k ≡ b + v → v ≡ u - (l - m) → (k ≤ m) ⊎ (v ≡ 0)
tight_case m l b u v k e f g = elim (Bool-cases (ltb m k)) [
  | inl h ↦ inr (ground arith)
  | inr h ↦ inl (ground arith)
]

module _ {D : Type 0} where
  -- What a refresh of `p` leaves.
  pub record IsReduced (p q : Pool D) : Type 0 where
    pub keeps_busy : busy_handles q.connections ≡ busy_handles p.connections
    pub enough :
        p.config.min_pool_size ≤ length p.connections
        → p.config.min_pool_size ≤ length q.connections
    pub no_less : length q.connections ≤ length p.connections
    pub tight : (length q.connections ≤ p.config.min_pool_size) ⊎ (unique_count q.connections ≡ 0)

  -- A refresh that is due keeps the busy connections, in order, leaves no more connections than
  -- before, and no fewer than the minimal pool size where there were as many. It leaves more than
  -- the minimal pool size only where all that are left are busy.
  pub try_reduce_by-IsReduced :
      (now period : ℕ) (p : Pool D)
      → ltb (now - p.refreshed_at) period ≡ false
      → IsReduced p (try_reduce_by now (some period) p).1
  unfolding try_reduce_by
  try_reduce_by-IsReduced now period p due =
      rw (due, try_reduce_by)
        (let after = reduce_connections (surplus p) 0 p.connections in
          let kept = busy_handles-reduce_connections (surplus p) 0 p.connections in
          let count = unique_count-reduce_connections (surplus p) 0 p.connections in
          let before = length-busy_handles p.connections in
          let behind = length-busy_handles after in
          record {
            keeps_busy = kept;
            enough = λ h. omega (arith, count, before, behind, ap length kept, h);
            no_less = omega (arith, count, before, behind, ap length kept);
            tight =
                tight_case p.config.min_pool_size (length p.connections)
                  (length (busy_handles p.connections)) (unique_count p.connections) _ _ before
                  (omega (arith, behind, ap length kept)) (omega (arith, count));
          })
