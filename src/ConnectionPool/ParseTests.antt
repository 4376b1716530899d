-- ===== src/ConnectionPool/ParseTests.antt =====
-- A configuration of one MySQL connection.
use data_proxy_library.Common.{
  ℕ, String, ◌≡◌, refl, true, false, none, some, [], ◌∷◌, if◌then◌else◌, ◌==◌,
}
use data_proxy_library.Common.Dict.{find, put}
use data_proxy_library.Common.Exec.{mv, duplicate_connection, err}
use data_proxy_library.ConnectionPool.{Pool}
use data_proxy_library.ConnectionPool.Manager.{Manager}
use data_proxy_library.ConnectionPool.Parse.{Attributes, Casts, parse}
use data_proxy_library.ConnectionPool.Parsed.{IsUsable, parse-Usable}

abbrev casts : Casts
casts = record {
  read_int = λ s. if s == "2" then some (false, 2) else if s == "0" then some (false, 0) else none;
  read_seconds = λ s. none;
  read_committed = 1;
  serializable = 2;
}

abbrev node : String → Attributes
node largest =
    ("connection", "db")
    ∷ ("disableCache", "true")
    ∷ ("maxPoolSize", largest)
    ∷ ("name", "data")
    ∷ ("password", "secret")
    ∷ ("server", "host")
    ∷ ("type", "mysql")
    ∷ ("user", "me")
    ∷ []

abbrev empty : Manager ℕ
empty = record {
  connections = [];
  shard_connections = [];
  shard_collections = [];
  connections_by_table = [];
}

abbrev pool : Pool ℕ
pool = record {
  name = "db";
  config = record {
    connection_type = "mysql";
    server = "host";
    database = "data";
    user_name = "me";
    password = "secret";
    schema = "";
    disable_cache = true;
    isolation_level = 1;
    reconnect_after = 3600;
    min_pool_size = 1;
    max_pool_size = 2;
    pool_refresh_period = some 60;
  };
  connections = [];
  refreshed_at = 7;
}

parse-Usable_example : IsUsable pool.config
unfolding parse find put
parse-Usable_example = parse-Usable casts 7 (node "2" ∷ []) empty "db" pool refl refl

-- A second node of the same name, and one that may have no connections.
parsed_twice : (parse casts 7 (node "2" ∷ node "2" ∷ []) empty).0 ≡ err (duplicate_connection "db")
unfolding parse put
parsed_twice = refl

none_allowed : (parse casts 7 (node "0" ∷ []) empty).0 ≡ err (mv 0)
unfolding parse
none_allowed = refl
