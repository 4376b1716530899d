-- ===== src/ConnectionPool/Sound/Calls.antt =====
-- What GetConnection calls keeps a pool in order.
use data_proxy_library.Common.{
  ℕ, suc, ◌+◌, ◌-◌, ◌<◌, refl, Bool, true, false, ◌&&◌, Option, none, some, List, [], ◌∷◌, ◌++◌,
  length, ltb, nat_eq, is_some, if◌then◌else◌, arith,
}
use data_proxy_library.Common.Exec.{
  no_instances, empty_pool, Result, ok, err, diverged, Exec, pure, ◌>>=◌, ◌>>◌, continue,
}
use data_proxy_library.Common.Exec.Rules.{
  Keeps, Keeps-pure, Keeps-raise, Keeps-bind, Keeps-if, continue-Keeps, if-lands,
}
use data_proxy_library.ConnectionPool.{
  Connection, Pool, Databases, is_unique, find_unique, nth, with_world, ping_at, create_instance,
  create_connection, connection_lost, ping_shared, create_or_share, find_lowest_use_count,
  get_database, get_database_from, replace_handle, reconnect_instance, reconnect_if_necessary,
  hand_out, reset_timer_if_pegged, or_create, attempt_to_create, attempt_to_find, get_connection,
  set_connections,
}
use data_proxy_library.ConnectionPool.Sound.{IsOrdered, Ordered, update-Ordered, create-Ordered}

module _ {D W : Type 0} where
  with_world-Keeps :
      {A : Type 0} (lib : Databases D W) (now : ℕ) (m : Exec W A)
      → Keeps Ordered (with_world lib now m)
  with_world-Keeps lib now m = record { at = λ (p, w) h. h }

module _ {D W : Type 0} (lib : Databases D W) (now : ℕ) where
  ping_at-Keeps : (force : Bool) (i : ℕ) → Keeps (Ordered {W = W}) (ping_at lib now force i)
  unfolding ping_at
  ping_at-Keeps force i = record { at = λ (p, w) h. h }

  ping_shared-Keeps :
      (inside : Bool) (i : ℕ) → Keeps (Ordered {W = W}) (ping_shared lib now inside i)
  unfolding ping_shared
  ping_shared-Keeps inside i =
      Keeps-bind (ping_at lib now false i)
        (λ alive.
          if alive
          then pure tt
          else if inside
          then connection_lost lib now
          else (ping_at lib now true i >> pure tt))
        (ping_at-Keeps false i)
        (λ alive.
          Keeps-if alive (pure tt)
            (if inside then connection_lost lib now else (ping_at lib now true i >> pure tt))
            (Keeps-pure tt)
            (Keeps-if inside (connection_lost lib now) (ping_at lib now true i >> pure tt)
              (record { at = λ (p, w) h. h })
              (Keeps-bind (ping_at lib now true i) (λ _. pure tt) (ping_at-Keeps true i)
                (λ _. Keeps-pure tt))))

  created-Ordered :
      (p : Pool D) (r : Result D) (w : W)
      → IsOrdered p
      → length p.connections < p.config.max_pool_size
      → Ordered
          (continue r
            (λ handle after. (
              ok (length p.connections),
              (
                set_connections
                    (p.connections
                      ++ record {
                        number = length p.connections + 1;
                        handle = handle;
                        holders = 0;
                        connected_at = now;
                      }
                        ∷ [])
                    after.0,
                after.1,
              ),
            ))
            (p, w)).1
  created-Ordered p (ok handle) w h below = create-Ordered p handle now h below
  created-Ordered p (err e) w h below = h
  created-Ordered p diverged w h below = h

  find_lowest_use_count-Keeps :
      (cs : List (Connection D)) → Keeps (Ordered {D = D} {W = W}) (find_lowest_use_count cs)
  unfolding find_lowest_use_count
  find_lowest_use_count-Keeps [] = Keeps-raise no_instances
  find_lowest_use_count-Keeps (c ∷ cs) = Keeps-pure _

  create_or_share-Keeps : (inside : Bool) → Keeps (Ordered {W = W}) (create_or_share lib now inside)
  unfolding create_or_share create_instance
  create_or_share-Keeps inside = record {
    at = λ (p, w) h.
        if-lands Ordered (ltb (length p.connections) p.config.max_pool_size)
          ((create_instance lib now >>= λ i. ping_at lib now true i >> pure (some i)) (p, w))
          ((find_lowest_use_count p.connections >>= λ i.
              ping_shared lib now inside i >> pure (some i))
            (p, w))
          (λ below.
            continue-Keeps (create_instance lib now (p, w)).0
              (λ i. ping_at lib now true i >> pure (some i)) (create_instance lib now (p, w)).1
              (created-Ordered p (create_connection lib now p.config w).0
                (create_connection lib now p.config w).1 h (ground arith))
              (λ i.
                Keeps-bind (ping_at lib now true i) (λ _. pure (some i)) (ping_at-Keeps true i)
                  (λ _. Keeps-pure (some i))))
          (λ full.
            (Keeps-bind (find_lowest_use_count p.connections)
                (λ i. ping_shared lib now inside i >> pure (some i))
                (find_lowest_use_count-Keeps p.connections)
                (λ i.
                  Keeps-bind (ping_shared lib now inside i) (λ _. pure (some i))
                    (ping_shared-Keeps inside i) (λ _. Keeps-pure (some i)))).at
              (p, w) h);
  }

  get_database_from-Keeps :
      (inside create : Bool) (found : Option ℕ)
      → Keeps (Ordered {W = W}) (get_database_from lib now inside create found)
  unfolding get_database_from
  get_database_from-Keeps inside create (some i) =
      Keeps-bind (ping_at lib now true i) (λ _. pure (some i)) (ping_at-Keeps true i)
        (λ _. Keeps-pure (some i))
  get_database_from-Keeps inside true none = create_or_share-Keeps inside
  get_database_from-Keeps inside false none = Keeps-pure none

  get_database-Keeps :
      (inside create : Bool) → Keeps (Ordered {W = W}) (get_database lib now inside create)
  unfolding get_database
  get_database-Keeps inside create = record {
    at = λ (p, w) h.
        if-lands Ordered (nat_eq p.config.max_pool_size 0) (err (empty_pool p.name), (p, w))
          (get_database_from lib now inside create (find_unique p.connections) (p, w)) (λ _. h)
          (λ _. (get_database_from-Keeps inside create (find_unique p.connections)).at (p, w) h);
  }

  replace_handle-Keeps :
      (i : ℕ) (handle : D) → Keeps (Ordered {W = W}) (replace_handle lib now i handle)
  replace_handle-Keeps i handle = record {
    at = λ (p, w) h.
        update-Ordered (λ c. record c { handle = handle; connected_at = now }) (λ c. refl) i p h;
  }

  reconnect_instance-Keeps :
      (i : ℕ) (found : Option (Connection D))
      → Keeps (Ordered {W = W}) (reconnect_instance lib now i found)
  reconnect_instance-Keeps i none = record { at = λ (p, w) h. h }
  reconnect_instance-Keeps i (some c) = record {
    at = λ (p, w) h.
        if-lands Ordered (ltb p.config.reconnect_after (now - c.connected_at) && is_unique c)
          ((with_world lib now (lib.reconnect c.handle) >>= replace_handle lib now i) (p, w))
          (ok tt, (p, w))
          (λ _.
            (Keeps-bind (with_world lib now (lib.reconnect c.handle)) (replace_handle lib now i)
                (with_world-Keeps lib now (lib.reconnect c.handle)) (replace_handle-Keeps i)).at
              (p, w) h)
          (λ _. h);
  }

  reconnect_if_necessary-Keeps :
      (i : ℕ) → Keeps (Ordered {W = W}) (reconnect_if_necessary lib now i)
  unfolding reconnect_if_necessary
  reconnect_if_necessary-Keeps i = record {
    at = λ (p, w) h. (reconnect_instance-Keeps i (nth i p.connections)).at (p, w) h;
  }

  hand_out-Keeps : (i : ℕ) → Keeps (Ordered {W = W}) (hand_out lib now i)
  unfolding hand_out
  hand_out-Keeps i = record {
    at = λ (p, w) h. update-Ordered (λ c. record c { holders = suc c.holders }) (λ c. refl) i p h;
  }

  found-Keeps :
      (i : ℕ) → Keeps (Ordered {W = W}) (reconnect_if_necessary lib now i >> hand_out lib now i)
  found-Keeps i =
      Keeps-bind (reconnect_if_necessary lib now i) (λ _. hand_out lib now i)
        (reconnect_if_necessary-Keeps i) (λ _. hand_out-Keeps i)

  or_create-Keeps :
      (inside : Bool) (found : Option ℕ) → Keeps (Ordered {W = W}) (or_create lib now inside found)
  or_create-Keeps inside none = Keeps-raise no_instances
  or_create-Keeps inside (some i) = hand_out-Keeps i

  attempt_to_create-Keeps :
      (inside : Bool) (found : Option ℕ)
      → Keeps (Ordered {W = W}) (attempt_to_create lib now inside found)
  attempt_to_create-Keeps inside none =
      Keeps-bind (get_database lib now inside true) (or_create lib now inside)
        (get_database-Keeps inside true) (or_create-Keeps inside)
  attempt_to_create-Keeps inside (some i) = found-Keeps i

  attempt_to_find-Keeps :
      (inside : Bool) (found : Option ℕ)
      → Keeps (Ordered {W = W}) (attempt_to_find lib now inside found)
  attempt_to_find-Keeps inside none =
      Keeps-bind (get_database lib now inside false) (attempt_to_create lib now inside)
        (get_database-Keeps inside false) (attempt_to_create-Keeps inside)
  attempt_to_find-Keeps inside (some i) = found-Keeps i

  reset_timer-Ordered :
      (b : Bool) (p : Pool D)
      → IsOrdered p
      → IsOrdered (if b then p else record p { refreshed_at = now })
  reset_timer-Ordered true p h = h
  reset_timer-Ordered false p h = record { numbered = h.numbered; bounded = h.bounded }

  reset_timer_if_pegged-Keeps : Keeps (Ordered {W = W}) (reset_timer_if_pegged lib now)
  unfolding reset_timer_if_pegged
  reset_timer_if_pegged-Keeps = record {
    at = λ (p, w) h. reset_timer-Ordered (is_some (find_unique p.connections)) p h;
  }

  pub get_connection-Keeps :
      (inside : Bool) → Keeps (Ordered {W = W}) (get_connection lib now inside)
  unfolding get_connection
  get_connection-Keeps inside =
      Keeps-bind (get_database lib now inside false >>= attempt_to_find lib now inside)
        (λ i. reset_timer_if_pegged lib now >> pure i)
        (Keeps-bind (get_database lib now inside false) (attempt_to_find lib now inside)
          (get_database-Keeps inside false) (attempt_to_find-Keeps inside))
        (λ i.
          Keeps-bind (reset_timer_if_pegged lib now) (λ _. pure i) reset_timer_if_pegged-Keeps
            (λ _. Keeps-pure i))
