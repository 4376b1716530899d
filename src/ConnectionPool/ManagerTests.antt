-- ===== src/ConnectionPool/ManagerTests.antt =====
-- A manager with one collection of shards, of two nodes with a table each.
use data_proxy_library.Common.{ℕ, String, suc, ◌≡◌, refl, true, false, none, List, [], ◌∷◌}
use data_proxy_library.Common.Exec.{unknown_shard, ok, err}
use data_proxy_library.ConnectionPool.{Databases}
use data_proxy_library.ConnectionPool.Manager.{
  ConnectionRow, TableRow, ShardLoader, Manager, clear_shards, get_name_by_table,
  get_connection_by_table,
}
use data_proxy_library.ConnectionPool.Shards.{
  ManagerCall, by_name, by_table, IsKnown, run, history-Known,
}

abbrev counting : Databases ℕ ℕ
counting = record {
  ping = λ force handle w. (ok true, w);
  connect = λ driver server database user password cache schema level w. (ok w, suc w);
  reconnect = λ handle w. (ok w, suc w);
}

abbrev row : String → ConnectionRow
row node = record {
  node = node;
  config = record {
    connection_type = "vertica";
    server = "host";
    database = "data";
    user_name = "user";
    password = "secret";
    schema = "";
    disable_cache = false;
    isolation_level = 0;
    reconnect_after = 0;
    min_pool_size = 0;
    max_pool_size = 0;
    pool_refresh_period = none;
  };
  disable_cache = none;
}

abbrev loader : List TableRow → ShardLoader ℕ
loader tables = record {
  load_connections = λ node w. (ok (row "1" ∷ row "2" ∷ [], none), w);
  load_tables = λ node w. (ok (tables, none), w);
}

abbrev tables : List TableRow
tables = record { table_name = "t"; node = "1" } ∷ record { table_name = "u"; node = "2" } ∷ []

abbrev manager : Manager ℕ
manager = record {
  connections = [];
  shard_connections = [];
  shard_collections =
      ("s", record { connections_node = "c"; tables_node = "d"; reconnect_after = 60 }) ∷ [];
  connections_by_table = [];
}

abbrev calls : List ManagerCall
calls = by_table false 0 "t" ∷ by_name true 1 "none" ∷ by_table true 2 "v" ∷ []

history-Known_example : IsKnown (
    get_name_by_table counting
      (loader tables)
      3
      "u"
      (run counting (loader tables) calls (clear_shards manager, 0)))
history-Known_example = history-Known counting (loader tables) calls manager 0 3 "u"

name_found : (get_name_by_table counting (loader tables) 3 "u" (manager, 0)).0 ≡ ok "__shard_s_2"
unfolding get_name_by_table
name_found = refl

connection_found :
    (get_connection_by_table counting (loader tables) 3 false "u" (manager, 0)).0 ≡ ok 0
unfolding get_connection_by_table
connection_found = refl

-- A table in a node that is not loaded.
table_lost :
    (get_name_by_table counting
      (loader (record { table_name = "u"; node = "3" } ∷ []))
      3
      "u"
      (manager, 0)).0
    ≡ err (unknown_shard "3")
unfolding get_name_by_table
table_lost = refl
