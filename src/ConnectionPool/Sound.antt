-- ===== src/ConnectionPool/Sound.antt =====
-- A pool stays in order, whatever happens to it.
pub mod Calls
use data_proxy_library.Common.{
  ℕ, suc, ◌+◌, ◌-◌, ◌≤◌, ◌<◌, ◌≡◌, refl, Bool, true, false, ◌&&◌, Option, none, some, List, [], ◌∷◌,
  ◌++◌, length, ltb, nat_eq, is_some, if◌then◌else◌, arith, Bool-cases, inl, inr,
}
use data_proxy_library.Common.Exec.{
  no_instances, empty_pool, Result, ok, err, diverged, Exec, pure, ◌>>=◌, ◌>>◌, continue,
}
use data_proxy_library.Common.Exec.Rules.{
  Keeps, Keeps-pure, Keeps-raise, Keeps-bind, Keeps-if, continue-Keeps, if-lands,
}
use data_proxy_library.ConnectionPool.{
  Connection, Pool, Databases, is_unique, update, find_unique, nth, with_world, ping_at,
  create_instance, create_connection, connection_lost, ping_shared, create_or_share,
  find_lowest_use_count, get_database, get_database_from, replace_handle, reconnect_instance,
  reconnect_if_necessary, hand_out, reset_timer_if_pegged, or_create, attempt_to_create,
  attempt_to_find, get_connection, release, set_connections,
}
use data_proxy_library.ConnectionPool.Reduce.{reduce_connections, surplus, try_reduce_by}
use data_proxy_library.ConnectionPool.Numbers.{
  IsNumbered, update-Numbered, append-Numbered, length-update, length-concat,
  reduce_connections-Numbered, length-reduce_connections,
}

-- The connections are numbered from 1 on, and there are no more of them than the pool may have.
pub record IsOrdered {D : Type 0} (p : Pool D) : Type 0 where
  pub numbered : IsNumbered 0 p.connections
  pub bounded : length p.connections ≤ p.config.max_pool_size

module _ {D : Type 0} where
  pub update-Ordered :
      (f : Connection D → Connection D)
      → ((c : Connection D) → (f c).number ≡ c.number)
      → (i : ℕ) (p : Pool D) → IsOrdered p
      → IsOrdered (set_connections (update f i p.connections) p)
  update-Ordered f same i p h = record {
    numbered = update-Numbered f same i 0 p.connections h.numbered;
    bounded = omega (arith, length-update f i p.connections, h.bounded);
  }

  pub create-Ordered :
      (p : Pool D) (handle : D) (now : ℕ)
      → IsOrdered p
      → length p.connections < p.config.max_pool_size
      → IsOrdered (
          set_connections
            (p.connections
              ++ record {
                number = length p.connections + 1;
                handle = handle;
                holders = 0;
                connected_at = now;
              }
                ∷ [])
            p)
  create-Ordered p handle now h below = record {
    numbered = append-Numbered 0 p.connections _ h.numbered (omega arith);
    bounded = omega (
      arith,
      length-concat p.connections (record {
        number = length p.connections + 1;
        handle = handle;
        holders = 0;
        connected_at = now;
      }),
    );
  }

module _ {D W : Type 0} where
  abbrev pub Ordered : Pool D × W → Type 0
  Ordered (p, w) = IsOrdered p

module _ {D : Type 0} where
  pub release-Ordered : (i : ℕ) (p : Pool D) → IsOrdered p → IsOrdered (release i p)
  unfolding release
  release-Ordered i p h =
      update-Ordered (λ c. record c { holders = c.holders - 1 }) (λ c. refl) i p h

  reduced-Ordered :
      (p : Pool D) (now : ℕ)
      → IsOrdered p
      → IsOrdered (record (set_connections (reduce_connections (surplus p) 0 p.connections) p) {
        refreshed_at = now;
      })
  reduced-Ordered p now h = record {
    numbered = reduce_connections-Numbered (surplus p) 0 0 p.connections h.numbered;
    bounded = omega (arith, length-reduce_connections (surplus p) 0 p.connections, h.bounded);
  }

  pub try_reduce_by-Ordered :
      (now : ℕ) (period : Option ℕ) (p : Pool D)
      → IsOrdered p
      → IsOrdered (try_reduce_by now period p).1
  unfolding try_reduce_by
  try_reduce_by-Ordered now none p h = h
  try_reduce_by-Ordered now (some period) p h =
      elim (Bool-cases (ltb (now - p.refreshed_at) period)) [
        | inl early ↦ rw (early, try_reduce_by) h
        | inr due ↦ rw (due, try_reduce_by) (reduced-Ordered p now h)
      ]
