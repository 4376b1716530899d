-- ===== src/ConnectionPool/Tests.antt =====
-- Pools of two connections at most, over a library whose calls all succeed: a handle is the number
-- of connections that were made before it.
use data_proxy_library.Common.{ℕ, suc, ◌≡◌, refl, true, false, some, List, [], ◌∷◌, arith}
use data_proxy_library.Common.Exec.{ok}
use data_proxy_library.ConnectionPool.{Connection, PoolConfig, Pool, Databases, get_connection}
use data_proxy_library.ConnectionPool.Reduce.{try_reduce_by, try_reduce_pool}
use data_proxy_library.ConnectionPool.History.{
  PoolCall, takes, lets_go, refreshes, run, history-Ordered, IsReduced, try_reduce_by-IsReduced,
}
use data_proxy_library.ConnectionPool.Steps.{IsWorking}
use data_proxy_library.ConnectionPool.Choice.{get_connection-Chosen}
use data_proxy_library.ConnectionPool.Handed.{IsServed}
use data_proxy_library.ConnectionPool.Sound.{Ordered}
use data_proxy_library.Common.Exec.Rules.{IsSettled}

abbrev counting : Databases ℕ ℕ
counting = record {
  ping = λ force handle w. (ok true, w);
  connect = λ driver server database user password cache schema level w. (ok w, suc w);
  reconnect = λ handle w. (ok w, suc w);
}

abbrev config : PoolConfig
config = record {
  connection_type = "mysql";
  server = "host";
  database = "data";
  user_name = "user";
  password = "secret";
  schema = "";
  disable_cache = false;
  isolation_level = 0;
  reconnect_after = 100;
  min_pool_size = 1;
  max_pool_size = 2;
  pool_refresh_period = some 10;
}

abbrev connection : ℕ → ℕ → ℕ → Connection ℕ
connection number handle holders = record {
  number = number;
  handle = handle;
  holders = holders;
  connected_at = 0;
}

abbrev pool : List (Connection ℕ) → Pool ℕ
pool cs = record { name = "db"; config = config; connections = cs; refreshed_at = 0 }

counting-IsWorking : IsWorking counting
counting-IsWorking = record {
  pings = λ force handle w. refl;
  connects = λ driver server database user password cache schema level w. (w, refl);
  reconnects = λ old w. (w, refl);
}

abbrev calls : List PoolCall
calls =
    takes false 0 ∷ takes false 1 ∷ takes true 2 ∷ lets_go 1 ∷ refreshes 20 ∷ takes false 21 ∷ []

history-Ordered_example : Ordered (
    run counting calls
      (record { name = "db"; config = config; connections = []; refreshed_at = 0 }, 0))
history-Ordered_example = history-Ordered counting calls "db" config 0 0

-- The third caller shares the first connection, and the refresh closes the second.
end_of_history :
    (run counting calls (pool [], 0)).0.connections
    ≡ record { number = 1; handle = 0; holders = 2; connected_at = 0 }
      ∷ record { number = 2; handle = 2; holders = 1; connected_at = 21 }
      ∷ []
unfolding run
end_of_history = refl

abbrev three : Pool ℕ
three = pool (connection 1 7 0 ∷ connection 2 8 1 ∷ connection 3 9 0 ∷ [])

try_reduce_by-IsReduced_example : IsReduced three (try_reduce_by 12 (some 10) three).1
try_reduce_by-IsReduced_example = try_reduce_by-IsReduced 12 10 three refl

-- The busy connection is all that is left, as number 1.
three_reduced : (try_reduce_pool 12 three).1.connections ≡ connection 1 8 1 ∷ []
unfolding try_reduce_by
three_reduced = refl

abbrev busy : Pool ℕ
busy = pool (connection 1 7 2 ∷ connection 2 8 1 ∷ [])

get_connection-Chosen_example :
    IsSettled (λ i s. IsServed counting 5 busy i s.0) (get_connection counting 5 true (busy, 0))
get_connection-Chosen_example =
    get_connection-Chosen counting 5 counting-IsWorking true busy 0 (omega arith) refl

busy_shared : (get_connection counting 5 true (busy, 0)).0 ≡ ok 1
unfolding get_connection
busy_shared = refl
