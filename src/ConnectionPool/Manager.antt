-- ===== src/ConnectionPool/Manager.antt =====
-- DatabaseConnectionManager.cpp: the pools by their names, and the shards, which are connections by
-- the tables that they hold and are loaded when a table is not known.
use Prim.Native.String.{◌++◌}
use data_proxy_library.Common.{
  ℕ, String, Bool, false, ◌||◌, Option, none, some, List, [], ◌∷◌, ltb, nat_eq, is_some,
  if◌then◌else◌, ◌==◌,
}
use data_proxy_library.Common.Dict.{Dict, find, put}
use data_proxy_library.Common.Exec.{
  Error, std, unknown_connection, unknown_table, duplicate_connection, unknown_shard,
  invalid_database_type, ok, err, Exec, pure, raise, ◌>>=◌, ◌>>◌,
}
use data_proxy_library.ConnectionPool.{PoolConfig, Pool, Databases, get_connection}

-- ShardCollectionDatum, without its name.
pub record ShardCollection : Type 0 where
  pub connections_node : String
  pub tables_node : String
  pub reconnect_after : ℕ

-- The columns that are bound: the node, what the configuration has of its own, and the flag.
pub record ConnectionRow : Type 0 where
  pub node : String
  pub config : PoolConfig
  pub disable_cache : Option ℕ

pub record TableRow : Type 0 where
  pub table_name : String
  pub node : String

-- What the client loads from a node and the CSV reader makes of it: rows, and what is thrown behind
-- them, if anything is.
pub record ShardLoader (W : Type 0) : Type 0 where
  pub load_connections : String → Exec W (List ConnectionRow × Option Error)
  pub load_tables : String → Exec W (List TableRow × Option Error)

pub record Manager (D : Type 0) : Type 0 where
  pub connections : Dict (Pool D)
  pub shard_connections : Dict (Pool D)
  pub shard_collections : Dict ShardCollection
  pub connections_by_table : Dict String

-- GetConnectionName
abbrev pub connection_name : String → String → String
connection_name node shard = "__shard" ++ "_" ++ shard ++ "_" ++ node

-- lexical_cast< bool > of a nullable int.
abbrev pub cast_flag : {S : Type 0} → Option ℕ → Exec S Bool
cast_flag none = pure false
cast_flag (some n) = if ltb 1 n then raise (std 0) else pure (nat_eq n 1)

module _ {D : Type 0} where
  -- InsertUpdate, which retains what is there.
  unfoldable pub insert_new : String → Pool D → Dict (Pool D) → Dict (Pool D)
  insert_new name p pools = if is_some (find name pools) then pools else put name p pools

  abbrev pub or_else : Option (Pool D) → Option (Pool D) → Option (Pool D)
  or_else none q = q
  or_else (some p) q = some p

  -- PrivateGetConnection: a named connection, or else one of a shard.
  unfoldable pub find_pool : String → Manager D → Option (Pool D)
  unfolding find
  find_pool name m = or_else (find name m.connections) (find name m.shard_connections)

  abbrev pub put_pool : String → Pool D → Manager D → Manager D
  put_pool name p m =
      if is_some (find name m.connections)
      then record m { connections = put name p m.connections }
      else record m { shard_connections = put name p m.shard_connections }

  abbrev pub clear_shards : Manager D → Manager D
  clear_shards m = record m { shard_connections = []; connections_by_table = [] }

  -- ClearConnections
  abbrev pub clear_connections : Manager D → Manager D
  clear_connections m = record {
    connections = [];
    shard_connections = [];
    shard_collections = [];
    connections_by_table = [];
  }

module _ {D W : Type 0} (lib : Databases D W) (loader : ShardLoader W) (now : ℕ) where
  abbrev pub in_world : {A : Type 0} → Exec W A → Exec (Manager D × W) A
  in_world m (s, w) = ((m w).0, (s, (m w).1))

  abbrev pub throw_if : Option Error → Exec (Manager D × W) (Unit {0})
  throw_if none = pure tt
  throw_if (some e) = raise e

  abbrev pub shard_pool : String → ℕ → ConnectionRow → Bool → Pool D
  shard_pool name reconnect_after row flag = record {
    name = name;
    config = record row.config {
      reconnect_after = reconnect_after;
      disable_cache = flag;
      min_pool_size = 1;
      max_pool_size = 1;
      pool_refresh_period = none;
    };
    connections = [];
    refreshed_at = now;
  }

  -- The pool, and one more for DDL operations.
  unfoldable pub insert_shard : String → ℕ → ConnectionRow → Bool → Exec (Manager D × W) (Unit {0})
  unfolding insert_new
  insert_shard name reconnect_after row flag (m, w) = (
    ok tt,
    (
      record m {
        shard_connections =
            insert_new ("__ddl_connection_" ++ name)
              (shard_pool ("__ddl_connection_" ++ name) reconnect_after row flag)
              (insert_new name (shard_pool name reconnect_after row flag) m.shard_connections);
      },
      w,
    ),
  )

  unfoldable pub add_connection : String → ℕ → ConnectionRow → Exec (Manager D × W) (Unit {0})
  unfolding insert_shard
  add_connection shard reconnect_after row (m, w) =
      let type = row.config.connection_type in
      let name = connection_name row.node shard in
      if type == "mysql" || type == "oracle" || type == "vertica"
      then (if is_some (find name m.connections) || is_some (find name m.shard_connections)
          then (err (duplicate_connection name), (m, w))
          else (cast_flag row.disable_cache >>= insert_shard name reconnect_after row) (m, w))
      else (err (invalid_database_type type), (m, w))

  unfoldable pub add_connections : String → ℕ → List ConnectionRow → Exec (Manager D × W) (Unit {0})
  unfolding add_connection
  add_connections shard reconnect_after [] = pure tt
  add_connections shard reconnect_after (row ∷ rows) =
      add_connection shard reconnect_after row >> add_connections shard reconnect_after rows

  unfoldable pub add_table : String → TableRow → Exec (Manager D × W) (Unit {0})
  unfolding find put
  add_table shard row (m, w) =
      let name = connection_name row.node shard in
      if is_some (find name m.shard_connections)
      then (
        ok tt,
        (record m { connections_by_table = put row.table_name name m.connections_by_table }, w),
      )
      else (err (unknown_shard row.node), (m, w))

  unfoldable pub add_tables : String → List TableRow → Exec (Manager D × W) (Unit {0})
  unfolding add_table
  add_tables shard [] = pure tt
  add_tables shard (row ∷ rows) = add_table shard row >> add_tables shard rows

  -- FetchConnectionsByTable
  unfoldable pub fetch : String → ShardCollection → Exec (Manager D × W) (Unit {0})
  unfolding add_connections add_tables
  fetch name c =
      (in_world (loader.load_connections c.connections_node) >>= λ (rows, failure).
      add_connections name c.reconnect_after rows >> throw_if failure)
      >> (in_world (loader.load_tables c.tables_node) >>= λ (rows, failure).
          add_tables name rows >> throw_if failure)

  unfoldable pub fetch_all : Dict ShardCollection → Exec (Manager D × W) (Unit {0})
  unfolding fetch
  fetch_all [] = pure tt
  fetch_all ((name, c) ∷ rest) = fetch name c >> fetch_all rest

  -- RefreshConnectionsByTable
  unfoldable pub refresh_shards : Exec (Manager D × W) (Unit {0})
  unfolding fetch_all
  refresh_shards (m, w) = fetch_all m.shard_collections (clear_shards m, w)

  abbrev pub found_name : String → Option String → Exec (Manager D × W) String
  found_name table (some name) = pure name
  found_name table none = raise (unknown_table table)

  unfoldable pub find_table : String → Exec (Manager D × W) String
  unfolding find
  find_table table (m, w) = found_name table (find table m.connections_by_table) (m, w)

  -- PrivateGetConnectionNameByTable
  unfoldable pub get_name_by_table : String → Exec (Manager D × W) String
  unfolding find refresh_shards find_table
  get_name_by_table table (m, w) =
      if is_some (find table m.connections_by_table)
      then find_table table (m, w)
      else (refresh_shards >> find_table table) (m, w)

  abbrev pub connect_in : Bool → String → Option (Pool D) → Exec (Manager D × W) ℕ
  connect_in inside name none (m, w) = (err (unknown_connection name), (m, w))
  connect_in inside name (some p) (m, w) =
      let r = get_connection lib now inside (p, w) in (r.0, (put_pool name r.1.0 m, r.1.1))

  -- GetConnection: the index of the instance in its pool.
  unfoldable pub get_connection_named : Bool → String → Exec (Manager D × W) ℕ
  unfolding find_pool get_connection find put
  get_connection_named inside name (m, w) = connect_in inside name (find_pool name m) (m, w)

  unfoldable pub get_connection_by_table : Bool → String → Exec (Manager D × W) ℕ
  unfolding get_name_by_table get_connection_named
  get_connection_by_table inside table = get_name_by_table table >>= get_connection_named inside
