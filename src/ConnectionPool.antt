-- ===== src/ConnectionPool.antt =====
-- DatabaseConnectionManager.cpp: the pool of connections behind one connection name.
pub mod Reduce
pub mod Numbers
pub mod Sound
pub mod History
pub mod Least
pub mod Handed
pub mod Steps
pub mod Choice
pub mod Manager
pub mod Located
pub mod Shards
pub mod Parse
pub mod Parsed
pub mod ParseTests
pub mod ManagerTests
pub mod Tests
use data_proxy_library.Common.{
  ℕ, zero, suc, ◌+◌, ◌-◌, String, Bool, true, false, ◌&&◌, not, Option, none, some, List, [], ◌∷◌,
  ◌++◌, length, ltb, nat_eq, is_some, if◌then◌else◌, ◌==◌,
}
use data_proxy_library.Common.Exec.{
  empty_pool, invalid_database_type, no_instances, busy_connection_lost, Result, ok, err, Exec,
  pure, raise, ◌>>=◌, ◌>>◌,
}

-- DatabaseInstanceDatum. The pool shares the handle with `holders` others, so its use count is one
-- more. A stopwatch is the time at which it was reset last.
pub record Connection (D : Type 0) : Type 0 where
  pub number : ℕ
  pub handle : D
  pub holders : ℕ
  pub connected_at : ℕ

-- The kinds of connections of the database library that are used.
pub data Driver : Type 0 where
  oci_threadsafe_oracle : Driver
  odbc_mysql : Driver
  odbc_vertica : Driver

-- DatabaseConfigDatum. A refresh period below 0 is `none`.
pub record PoolConfig : Type 0 where
  pub connection_type : String
  pub server : String
  pub database : String
  pub user_name : String
  pub password : String
  pub schema : String
  pub disable_cache : Bool
  pub isolation_level : ℕ
  pub reconnect_after : ℕ
  pub min_pool_size : ℕ
  pub max_pool_size : ℕ
  pub pool_refresh_period : Option ℕ

-- DatabaseConnectionDatum
pub record Pool (D : Type 0) : Type 0 where
  pub name : String
  pub config : PoolConfig
  pub connections : List (Connection D)
  pub refreshed_at : ℕ

-- The library of databases: Ping( force ), the constructor of a Database from its driver, server,
-- name, user, password, whether the cache is disabled, schema and isolation level, and its copy
-- constructor.
pub record Databases (D W : Type 0) : Type 0 where
  pub ping : Bool → D → Exec W Bool
  pub connect : Driver → String → String → String → String → Bool → String → ℕ → Exec W D
  pub reconnect : D → Exec W D

module _ {D : Type 0} where
  -- shared_ptr::unique
  unfoldable pub is_unique : Connection D → Bool
  is_unique c = nat_eq c.holders 0

  -- The first instance that no one has a handle on, by its index.
  unfoldable pub find_unique : List (Connection D) → Option ℕ
  unfolding is_unique
  find_unique [] = none
  find_unique (c ∷ cs) =
      if is_unique c
      then some 0
      else (elim (find_unique cs) [ none ↦ none | some i ↦ some (suc i) ])

  -- The loop of FindLowestUseCount: the next index, the lowest count so far and its index.
  unfoldable pub lowest_from : ℕ → ℕ → ℕ → List (Connection D) → ℕ
  lowest_from i count index [] = index
  lowest_from i count index (c ∷ cs) =
      if ltb c.holders count
      then lowest_from (suc i) c.holders i cs
      else lowest_from (suc i) count index cs

  unfoldable pub find_lowest_use_count : {S : Type 0} → List (Connection D) → Exec S ℕ
  unfolding lowest_from
  find_lowest_use_count [] = raise no_instances
  find_lowest_use_count (c ∷ cs) = pure (lowest_from 1 c.holders 0 cs)

  unfoldable pub nth : ℕ → List (Connection D) → Option (Connection D)
  nth i [] = none
  nth zero (c ∷ cs) = some c
  nth (suc i) (c ∷ cs) = nth i cs

  unfoldable pub update :
      (Connection D → Connection D) → ℕ → List (Connection D) → List (Connection D)
  update f i [] = []
  update f zero (c ∷ cs) = f c ∷ cs
  update f (suc i) (c ∷ cs) = c ∷ update f i cs

  abbrev pub set_connections : List (Connection D) → Pool D → Pool D
  set_connections cs p = record p { connections = cs }

module _ {D W : Type 0} (lib : Databases D W) (now : ℕ) where
  -- An action on the world, beside the pool.
  abbrev pub with_world : {A : Type 0} → Exec W A → Exec (Pool D × W) A
  with_world m (p, w) = ((m w).0, (p, (m w).1))

  -- An index is good for as long as no instance is removed.
  abbrev pub on_instance :
      {A : Type 0} → A → (Connection D → Exec W A) → Option (Connection D) → Exec W A
  on_instance otherwise f none = pure otherwise
  on_instance otherwise f (some c) = f c

  unfoldable pub ping_at : Bool → ℕ → Exec (Pool D × W) Bool
  unfolding nth
  ping_at force i (p, w) =
      with_world (on_instance true (λ c. lib.ping force c.handle) (nth i p.connections)) (p, w)

  -- CreateConnection
  unfoldable pub create_connection : PoolConfig → Exec W D
  create_connection c =
      if c.connection_type == "oracle"
      then lib.connect oci_threadsafe_oracle "" c.database c.user_name c.password false c.schema
          c.isolation_level
      else if c.connection_type == "mysql"
      then lib.connect odbc_mysql c.server "" c.user_name c.password c.disable_cache c.database
          c.isolation_level
      else if c.connection_type == "vertica"
      then lib.connect odbc_vertica c.server "" c.user_name c.password false c.database
          c.isolation_level
      else raise (invalid_database_type c.connection_type)

  unfoldable pub create_instance : Exec (Pool D × W) ℕ
  unfolding create_connection
  create_instance (p, w) =
      (with_world (create_connection p.config) >>= λ handle after. (
        ok (length p.connections),
        (
          set_connections
              (p.connections
                ++ record {
                  number = length p.connections + 1;
                  handle = handle;
                  holders = 0;
                  connected_at = now;
                }
                  ∷ [])
              after.0,
          after.1,
        ),
      ))
        (p, w)

  abbrev pub connection_lost : Exec (Pool D × W) (Unit {0})
  connection_lost (p, w) = (err (busy_connection_lost p.name), (p, w))

  -- An instance that is shared is pinged softly. Where that fails, what is pending on it is lost.
  unfoldable pub ping_shared : Bool → ℕ → Exec (Pool D × W) (Unit {0})
  unfolding ping_at
  ping_shared inside i = ping_at false i >>= λ alive.
      if alive then pure tt else if inside then connection_lost else (ping_at true i >> pure tt)

  unfoldable pub create_or_share : Bool → Exec (Pool D × W) (Option ℕ)
  unfolding create_instance ping_at ping_shared find_lowest_use_count
  create_or_share inside (p, w) =
      if ltb (length p.connections) p.config.max_pool_size
      then (create_instance >>= λ i. ping_at true i >> pure (some i)) (p, w)
      else (find_lowest_use_count p.connections >>= λ i. ping_shared inside i >> pure (some i))
          (p, w)

  -- GetDatabase, behind its search for an instance without handles.
  unfoldable pub get_database_from : Bool → Bool → Option ℕ → Exec (Pool D × W) (Option ℕ)
  unfolding ping_at create_or_share
  get_database_from inside create (some i) = ping_at true i >> pure (some i)
  get_database_from inside true none = create_or_share inside
  get_database_from inside false none = pure none

  unfoldable pub get_database : Bool → Bool → Exec (Pool D × W) (Option ℕ)
  unfolding find_unique get_database_from
  get_database inside create (p, w) =
      if nat_eq p.config.max_pool_size 0
      then (err (empty_pool p.name), (p, w))
      else get_database_from inside create (find_unique p.connections) (p, w)

  abbrev pub replace_handle : ℕ → D → Exec (Pool D × W) (Unit {0})
  replace_handle i handle (p, w) = (
    ok tt,
    (
      set_connections
          (update (λ c. record c { handle = handle; connected_at = now }) i p.connections) p,
      w,
    ),
  )

  abbrev pub reconnect_instance : ℕ → Option (Connection D) → Exec (Pool D × W) (Unit {0})
  reconnect_instance i none (p, w) = (ok tt, (p, w))
  reconnect_instance i (some c) (p, w) =
      if ltb p.config.reconnect_after (now - c.connected_at) && is_unique c
      then (with_world (lib.reconnect c.handle) >>= replace_handle i) (p, w)
      else (ok tt, (p, w))

  unfoldable pub reconnect_if_necessary : ℕ → Exec (Pool D × W) (Unit {0})
  unfolding is_unique nth update
  reconnect_if_necessary i (p, w) = reconnect_instance i (nth i p.connections) (p, w)

  -- The caller has a handle of its own.
  unfoldable pub hand_out : ℕ → Exec (Pool D × W) ℕ
  unfolding update
  hand_out i (p, w) = (
    ok i,
    (set_connections (update (λ c. record c { holders = suc c.holders }) i p.connections) p, w),
  )

  unfoldable pub reset_timer_if_pegged : Exec (Pool D × W) (Unit {0})
  unfolding find_unique
  reset_timer_if_pegged (p, w) = (
    ok tt,
    ((if is_some (find_unique p.connections) then p else record p { refreshed_at = now }), w),
  )

  abbrev pub or_create : Bool → Option ℕ → Exec (Pool D × W) ℕ
  or_create inside none = raise no_instances
  or_create inside (some i) = hand_out i

  -- The second attempt, which may create an instance.
  abbrev pub attempt_to_create : Bool → Option ℕ → Exec (Pool D × W) ℕ
  attempt_to_create inside (some i) = reconnect_if_necessary i >> hand_out i
  attempt_to_create inside none = get_database inside true >>= or_create inside

  abbrev pub attempt_to_find : Bool → Option ℕ → Exec (Pool D × W) ℕ
  attempt_to_find inside (some i) = reconnect_if_necessary i >> hand_out i
  attempt_to_find inside none = get_database inside false >>= attempt_to_create inside

  -- GetConnection, behind the search for the pool: the index of the instance that it returns.
  unfoldable pub get_connection : Bool → Exec (Pool D × W) ℕ
  unfolding get_database reconnect_if_necessary hand_out reset_timer_if_pegged
  get_connection inside =
      get_database inside false >>= attempt_to_find inside >>= λ i. reset_timer_if_pegged >> pure i

-- A caller that lets go of its handle.
unfoldable pub release : {D : Type 0} → ℕ → Pool D → Pool D
unfolding update
release i p = set_connections (update (λ c. record c { holders = c.holders - 1 }) i p.connections) p
