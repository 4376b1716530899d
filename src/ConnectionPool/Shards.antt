-- ===== src/ConnectionPool/Shards.antt =====
-- The manager over time: what GetConnectionByTable finds.
use data_proxy_library.Common.{
  ℕ, String, ◌≡◌, refl, Bool, true, Option, none, some, List, [], ◌∷◌, is_some, Bool-cases,
  Option-cases, inl, inr,
}
use data_proxy_library.Common.Dict.{Dict, find}
use data_proxy_library.Common.Exec.{Result, ok, err, diverged, continue}
use data_proxy_library.Common.Exec.Rules.{Keeps, Keeps-pure, Keeps-bind, if-lands}
use data_proxy_library.ConnectionPool.{Pool, Databases, get_connection}
use data_proxy_library.ConnectionPool.Manager.{
  ShardCollection, ShardLoader, Manager, find_pool, or_else, fetch, fetch_all, clear_shards,
  refresh_shards, found_name, find_table, get_name_by_table, connect_in, get_connection_named,
  get_connection_by_table, clear_connections,
}
use data_proxy_library.ConnectionPool.Located.{IsLocated, Located, put_pool-Located, fetch-Keeps}

-- `now` is the time of the call.
pub data ManagerCall : Type 0 where
  by_name : (inside : Bool) → (now : ℕ) → String → ManagerCall
  by_table : (inside : Bool) → (now : ℕ) → String → ManagerCall
  clears : ManagerCall

module _ {D W : Type 0} where
  -- A name that is returned is that of a pool.
  abbrev pub IsKnown : Result String × (Manager D × W) → Type 0
  IsKnown (ok name, (m, w)) = is_some (find_pool name m) ≡ true
  IsKnown (err e, s) = Unit
  IsKnown (diverged, s) = Unit

module _ {D W : Type 0} (lib : Databases D W) (loader : ShardLoader W) (now : ℕ) where
  fetch_all-Keeps : (cs : Dict ShardCollection) → Keeps Located (fetch_all lib loader now cs)
  unfolding fetch_all
  fetch_all-Keeps [] = Keeps-pure tt
  fetch_all-Keeps ((name, c) ∷ rest) =
      Keeps-bind (fetch lib loader now name c) (λ u. fetch_all lib loader now rest)
        (fetch-Keeps lib loader now name c) (λ u. fetch_all-Keeps rest)

  none_found :
      (t n : String) → find {V = String} t [] ≡ some n → is_some (find {V = Pool D} n []) ≡ true
  unfolding find
  none_found t n e = absurd cc

  no_tables-Located : (m : Manager D) → IsLocated (clear_shards m)
  no_tables-Located m = record { at = none_found }

  refresh_shards-Keeps : Keeps Located (refresh_shards lib loader now)
  unfolding refresh_shards
  refresh_shards-Keeps = record {
    at = λ (m, w) h.
        (fetch_all-Keeps m.shard_collections).at (clear_shards m, w) (no_tables-Located m);
  }

  find_table-Keeps : (table : String) → Keeps Located (find_table lib loader now table)
  unfolding find_table
  find_table-Keeps table = record { at = λ (m, w) h. go (find table m.connections_by_table) m w h }
    where
      go :
          (o : Option String) (m : Manager D) (w : W)
          → IsLocated m
          → Located (found_name lib loader now table o (m, w)).1
      go none m w h = h
      go (some n) m w h = h

  get_name_by_table-Keeps :
      (table : String) → Keeps Located (get_name_by_table lib loader now table)
  unfolding get_name_by_table
  get_name_by_table-Keeps table = record {
    at = λ (m, w) h.
        if-lands Located (is_some (find table m.connections_by_table)) _ _
          (λ e. (find_table-Keeps table).at (m, w) h)
          (λ e.
            (Keeps-bind (refresh_shards lib loader now) (λ u. find_table lib loader now table)
                refresh_shards-Keeps (λ u. find_table-Keeps table)).at
              (m, w) h);
  }

  or_else_found : (o q : Option (Pool D)) → is_some q ≡ true → is_some (or_else o q) ≡ true
  or_else_found none q h = h
  or_else_found (some p) q h = refl

  shard_found :
      (m : Manager D) (name : String)
      → is_some (find name m.shard_connections) ≡ true
      → is_some (find_pool name m) ≡ true
  unfolding find_pool
  shard_found m name h = or_else_found (find name m.connections) (find name m.shard_connections) h

  find_table-Known :
      (table : String) (m : Manager D) (w : W)
      → IsLocated m
      → IsKnown (find_table lib loader now table (m, w))
  unfolding find_table
  find_table-Known table m w h = elim (Option-cases (find table m.connections_by_table)) [
    | inl e ↦ rw e tt
    | inr (n, e) ↦ rw e (shard_found m n (h.at table n e))
  ]

  refreshed-Known :
      (table : String) (x : Result (Unit {0}) × (Manager D × W))
      → Located x.1
      → IsKnown (continue x.0 (λ u. find_table lib loader now table) x.1)
  refreshed-Known table (ok u, (m, w)) h = find_table-Known table m w h
  refreshed-Known table (err e, s) h = tt
  refreshed-Known table (diverged, s) h = tt

  get_name_by_table-Known :
      (table : String) (m : Manager D) (w : W)
      → IsLocated m
      → IsKnown (get_name_by_table lib loader now table (m, w))
  unfolding get_name_by_table
  get_name_by_table-Known table m w h =
      elim (Bool-cases (is_some (find table m.connections_by_table))) [
        | inl e ↦ rw e (find_table-Known table m w h)
        | inr e ↦ rw e (
            refreshed-Known table (refresh_shards lib loader now (m, w))
              (refresh_shards-Keeps.at (m, w) h))
      ]

  get_connection_named-Keeps :
      (inside : Bool) (name : String)
      → Keeps Located (get_connection_named lib loader now inside name)
  unfolding get_connection_named
  get_connection_named-Keeps inside name = record { at = λ (m, w) h. go (find_pool name m) m w h }
    where
      go :
          (o : Option (Pool D)) (m : Manager D) (w : W)
          → IsLocated m
          → Located (connect_in lib loader now inside name o (m, w)).1
      go none m w h = h
      go (some p) m w h = put_pool-Located m name (get_connection lib now inside (p, w)).1.0 h

  get_connection_by_table-Keeps :
      (inside : Bool) (table : String)
      → Keeps Located (get_connection_by_table lib loader now inside table)
  unfolding get_connection_by_table
  get_connection_by_table-Keeps inside table =
      Keeps-bind (get_name_by_table lib loader now table)
        (get_connection_named lib loader now inside) (get_name_by_table-Keeps table)
        (get_connection_named-Keeps inside)

module _ {D W : Type 0} (lib : Databases D W) (loader : ShardLoader W) where
  unfoldable pub perform : ManagerCall → Manager D × W → Manager D × W
  unfolding get_connection_named get_connection_by_table
  perform (by_name inside now name) (m, w) =
      (get_connection_named lib loader now inside name (m, w)).1
  perform (by_table inside now table) (m, w) =
      (get_connection_by_table lib loader now inside table (m, w)).1
  perform clears (m, w) = (clear_connections m, w)

  unfoldable pub run : List ManagerCall → Manager D × W → Manager D × W
  unfolding perform
  run [] s = s
  run (c ∷ cs) s = run cs (perform c s)

  perform-Located :
      (c : ManagerCall) (m : Manager D) (w : W) → IsLocated m → Located (perform c (m, w))
  unfolding perform
  perform-Located (by_name inside now name) m w h =
      (get_connection_named-Keeps lib loader now inside name).at (m, w) h
  perform-Located (by_table inside now table) m w h =
      (get_connection_by_table-Keeps lib loader now inside table).at (m, w) h
  perform-Located clears m w h = record { at = none_found lib loader 0 }

  run-Located :
      (cs : List ManagerCall) (m : Manager D) (w : W) → IsLocated m → Located (run cs (m, w))
  unfolding run
  run-Located [] m w h = h
  run-Located (c ∷ cs) m w h =
      run-Located cs (perform c (m, w)).0 (perform c (m, w)).1 (perform-Located c m w h)

  -- After any history of connections by name, connections by table and clearings of a manager
  -- that has loaded no shards yet, whichever of them have thrown: where the look-up of a table,
  -- which reloads the shards if the table is not known, returns a connection's name, there is a
  -- pool under that name.
  pub history-Known :
      (cs : List ManagerCall) (m : Manager D) (w : W) (now : ℕ) (table : String)
      → IsKnown (get_name_by_table lib loader now table (run cs (clear_shards m, w)))
  history-Known cs m w now table =
      get_name_by_table-Known lib loader now table (run cs (clear_shards m, w)).0
        (run cs (clear_shards m, w)).1
        (run-Located cs (clear_shards m) w (no_tables-Located lib loader 0 m))
