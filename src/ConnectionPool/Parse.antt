-- ===== src/ConnectionPool/Parse.antt =====
-- DatabaseConnectionManager::Parse: the pools that the XML configuration names.
use Prim.Native.String.{◌++◌}
use data_proxy_library.Common.{
  ℕ, String, Bool, true, false, Option, none, some, List, [], ◌∷◌, ltb, nat_eq, is_some,
  if◌then◌else◌, ◌==◌,
}
use data_proxy_library.Common.Dict.{Dict, find, put}
use data_proxy_library.Common.Exec.{
  mv, duplicate_connection, invalid_database_type, ok, err, Exec, pure, raise, ◌>>=◌, ◌>>◌,
}
use data_proxy_library.ConnectionPool.{PoolConfig, Pool}
use data_proxy_library.ConnectionPool.Manager.{ShardCollection, Manager, insert_new}

-- The attributes of a Database node.
abbrev pub Attributes : Type 0
Attributes = Dict String

-- lexical_cast to an int, by its sign and its value, where -1 has the value 0 and so on; to a
-- number of seconds; and the isolation levels of the database library.
pub record Casts : Type 0 where
  pub read_int : String → Option (Bool × ℕ)
  pub read_seconds : String → Option ℕ
  pub read_committed : ℕ
  pub serializable : ℕ

abbrev pub base_config : String → String → String → ℕ → ℕ → ℕ → Option ℕ → ℕ → PoolConfig
base_config type user password timeout smallest largest period level = record {
  connection_type = type;
  server = "";
  database = "";
  user_name = user;
  password = password;
  schema = "";
  disable_cache = false;
  isolation_level = level;
  reconnect_after = timeout;
  min_pool_size = smallest;
  max_pool_size = largest;
  pool_refresh_period = period;
}

module _ {S : Type 0} where
  abbrev pub or_throw : {A : Type 0} → Option A → Exec S A
  or_throw none = raise (mv 0)
  or_throw (some a) = pure a

  -- XMLUtilities::GetAttributeValue
  unfoldable pub get_attribute : String → Attributes → Exec S String
  unfolding find
  get_attribute name node = or_throw (find name node)

module _ {S : Type 0} (casts : Casts) where
  abbrev pub size_of : Option (Bool × ℕ) → Exec S ℕ
  size_of none = raise (mv 0)
  size_of (some (negative, n)) = if negative then raise (mv 0) else pure n

  abbrev pub pool_size : ℕ → Option String → Exec S ℕ
  pool_size default none = pure default
  pool_size default (some s) = size_of (casts.read_int s)

  unfoldable pub get_pool_size : String → ℕ → Attributes → Exec S ℕ
  unfolding find
  get_pool_size name default node = pool_size default (find name node)

  abbrev pub period_of : Option (Bool × ℕ) → Exec S (Option ℕ)
  period_of none = raise (mv 0)
  period_of (some (negative, n)) = pure (if negative then none else some n)

  abbrev pub refresh_period : Option String → Exec S (Option ℕ)
  refresh_period none = pure (some 60)
  refresh_period (some s) = period_of (casts.read_int s)

  abbrev pub seconds_or : ℕ → Option String → Exec S ℕ
  seconds_or default none = pure default
  seconds_or default (some s) = or_throw (casts.read_seconds s)

  unfoldable pub get_isolation : Option String → Exec S ℕ
  get_isolation none = pure casts.read_committed
  get_isolation (some s) =
      if s == "readCommitted"
      then pure casts.read_committed
      else if s == "serializable"
      then pure casts.serializable
      else raise (mv 0)

  abbrev pub read_flag : String → Exec S Bool
  read_flag s = if s == "true" then pure true else if s == "false" then pure false else raise (mv 0)

  unfoldable pub fill_oracle : Attributes → PoolConfig → Exec S PoolConfig
  unfolding get_attribute
  fill_oracle node c = get_attribute "name" node >>= λ database.
      get_attribute "schema" node >>= λ schema.
      pure (record c { schema = schema; database = database })

  unfoldable pub fill_mysql : Attributes → PoolConfig → Exec S PoolConfig
  unfolding get_attribute
  fill_mysql node c = get_attribute "name" node >>= λ database.
      get_attribute "server" node >>= λ server.
      get_attribute "disableCache" node >>= read_flag >>= λ flag.
      pure (record c { database = database; server = server; disable_cache = flag })

  -- The schema stands for the name.
  unfoldable pub fill_vertica : Attributes → PoolConfig → Exec S PoolConfig
  unfolding get_attribute
  fill_vertica node c = get_attribute "schema" node >>= λ schema.
      get_attribute "server" node >>= λ server.
      pure (record c { database = schema; server = server })

  -- What each type of database has of its own.
  unfoldable pub fill_type : Attributes → PoolConfig → Exec S PoolConfig
  unfolding fill_oracle fill_mysql fill_vertica
  fill_type node c =
      if c.connection_type == "oracle"
      then fill_oracle node c
      else if c.connection_type == "mysql"
      then fill_mysql node c
      else if c.connection_type == "vertica"
      then fill_vertica node c
      else raise (invalid_database_type c.connection_type)

  unfoldable pub check_sizes : PoolConfig → Exec S PoolConfig
  check_sizes c =
      if ltb c.max_pool_size c.min_pool_size
      then raise (mv 0)
      else if nat_eq c.max_pool_size 0
      then raise (mv 0)
      else pure (
          if nat_eq c.min_pool_size c.max_pool_size
          then record c { pool_refresh_period = none }
          else c)

  unfoldable pub read_config : Attributes → Exec S (String × PoolConfig)
  unfolding get_attribute get_pool_size get_isolation find
  read_config node = get_attribute "type" node >>= λ type. get_attribute "user" node >>= λ user.
      get_attribute "password" node >>= λ password. get_attribute "connection" node >>= λ name.
      seconds_or 3600 (find "reconnectTimeout" node) >>= λ timeout.
      get_pool_size "minPoolSize" 1 node >>= λ smallest.
      get_pool_size "maxPoolSize" smallest node >>= λ largest.
      refresh_period (find "poolRefreshPeriod" node) >>= λ period.
      get_isolation (find "txnIsolationLevel" node) >>= λ level.
      pure (name, base_config type user password timeout smallest largest period level)

  abbrev pub finish_config : Attributes → String × PoolConfig → Exec S (String × PoolConfig)
  finish_config node (name, c) =
      (check_sizes c >>= fill_type node) >>= λ filled. pure (name, filled)

  unfoldable pub parse_config : Attributes → Exec S (String × PoolConfig)
  unfolding read_config check_sizes fill_type
  parse_config node = read_config node >>= finish_config node

-- Reading a node touches no pool.
abbrev pub reading : {S A : Type 0} → Exec (Unit {0}) A → Exec S A
reading m s = ((m tt).0, s)

unfoldable pub read_collection : Casts → Attributes → Exec (Unit {0}) (String × ShardCollection)
unfolding get_attribute find
read_collection casts node = get_attribute "name" node >>= λ name.
    get_attribute "connectionsNodeName" node >>= λ source.
    get_attribute "tablesNodeName" node >>= λ tables.
    seconds_or casts 3600 (find "reconnectTimeout" node) >>= λ timeout.
    pure
      (name, record { connections_node = source; tables_node = tables; reconnect_after = timeout })

module _ {D : Type 0} (casts : Casts) (now : ℕ) where
  abbrev pub new_pool : String → PoolConfig → Pool D
  new_pool name c = record { name = name; config = c; connections = []; refreshed_at = now }

  -- The pool, and one more for DDL operations.
  unfoldable pub insert_parsed : String × PoolConfig → Exec (Manager D) (Unit {0})
  unfolding insert_new find put
  insert_parsed (name, c) m =
      if is_some (find name m.connections) then (err (duplicate_connection name), m) else (
        ok tt,
        record m {
          connections =
              insert_new ("__ddl_connection_" ++ name) (new_pool ("__ddl_connection_" ++ name) c)
                (put name (new_pool name c) m.connections);
        },
      )

  unfoldable pub parse : List Attributes → Exec (Manager D) (Unit {0})
  unfolding parse_config insert_parsed
  parse [] = pure tt
  parse (node ∷ nodes) = (reading (parse_config casts node) >>= insert_parsed) >> parse nodes

  -- InsertUpdate retains the collection that is there.
  unfoldable pub insert_collection : String × ShardCollection → Exec (Manager D) (Unit {0})
  unfolding find put
  insert_collection (name, c) m = (
    ok tt,
    (if is_some (find name m.shard_collections)
        then m
        else record m { shard_collections = put name c m.shard_collections }),
  )

  -- ParseConnectionsByTable
  unfoldable pub parse_shards : List Attributes → Exec (Manager D) (Unit {0})
  unfolding read_collection insert_collection
  parse_shards [] = pure tt
  parse_shards (node ∷ nodes) =
      (reading (read_collection casts node) >>= insert_collection) >> parse_shards nodes
