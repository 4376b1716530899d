-- ===== src/ConnectionPool/Located.antt =====
-- Every table that the manager knows is in a shard that it knows.
use data_proxy_library.Common.{
  ℕ, String, ◌≡◌, refl, subst, Bool, true, false, ◌||◌, Option, none, some, List, [], ◌∷◌, is_some,
  ◌==◌, Bool-cases, inl, inr,
}
use data_proxy_library.Common.Dict.{Dict, find, put, find-put}
use data_proxy_library.Common.Exec.{Error, std, Exec}
use data_proxy_library.Common.Exec.Rules.{
  Keeps, Keeps-pure, Keeps-raise, Keeps-bind, Keeps-if, if-lands,
}
use data_proxy_library.ConnectionPool.{Pool, Databases}
use data_proxy_library.ConnectionPool.Manager.{
  ShardCollection, ConnectionRow, TableRow, ShardLoader, Manager, connection_name, cast_flag,
  insert_new, in_world, throw_if, insert_shard, add_connection, add_connections, add_table,
  add_tables, fetch, put_pool,
}

some_injective : {A : Type 0} (a b : A) → some a ≡ some b → a ≡ b
some_injective a b e = cc

module _ {D : Type 0} where
  pub record IsLocated (m : Manager D) : Type 0 where
    pub at :
        (table name : String)
        → find table m.connections_by_table ≡ some name
        → is_some (find name m.shard_connections) ≡ true

  put-known :
      (k j : String) (p : Pool D) (pools : Dict (Pool D))
      → is_some (find j pools) ≡ true
      → is_some (find j (put k p pools)) ≡ true
  put-known k j p pools h = elim (Bool-cases (k == j)) [
    | inl e ↦ rw (find-put k j p pools, e) refl
    | inr e ↦ rw (find-put k j p pools, e) h
  ]

  insert_new-known :
      (k j : String) (p : Pool D) (pools : Dict (Pool D))
      → is_some (find j pools) ≡ true
      → is_some (find j (insert_new k p pools)) ≡ true
  unfolding insert_new
  insert_new-known k j p pools h = elim (Bool-cases (is_some (find k pools))) [
    | inl e ↦ rw e h
    | inr e ↦ rw e (put-known k j p pools h)
  ]

  put_table-Located :
      (m : Manager D) (table name : String)
      → is_some (find name m.shard_connections) ≡ true
      → IsLocated m
      → IsLocated (record m { connections_by_table = put table name m.connections_by_table })
  put_table-Located m table name known h = record {
    at = λ t n e. elim (Bool-cases (table == t)) [
      | inl same ↦
          subst (λ x. is_some (find x m.shard_connections) ≡ true)
            (some_injective name n (rw (find-put table t name m.connections_by_table, same) at e))
            known
      | inr other ↦ h.at t n (rw (find-put table t name m.connections_by_table, other) at e)
    ];
  }

  pub put_pool-Located :
      (m : Manager D) (name : String) (p : Pool D) → IsLocated m → IsLocated (put_pool name p m)
  put_pool-Located m name p h = elim (Bool-cases (is_some (find name m.connections))) [
    | inl e ↦ rw e (record { at = h.at })
    | inr e ↦ rw e (record { at = λ t n f. put-known name n p m.shard_connections (h.at t n f) })
  ]

module _ {D W : Type 0} where
  abbrev pub Located : Manager D × W → Type 0
  Located (m, w) = IsLocated m

module _ {D W : Type 0} (lib : Databases D W) (loader : ShardLoader W) (now : ℕ) where
  in_world-Keeps : {A : Type 0} (m : Exec W A) → Keeps (Located {D = D}) (in_world lib loader now m)
  in_world-Keeps m = record { at = λ (s, w) h. h }

  throw_if-Keeps : (o : Option Error) → Keeps (Located {D = D} {W = W}) (throw_if lib loader now o)
  throw_if-Keeps none = Keeps-pure tt
  throw_if-Keeps (some e) = Keeps-raise e

  cast_flag-Keeps : (o : Option ℕ) → Keeps (Located {D = D} {W = W}) (cast_flag o)
  cast_flag-Keeps none = Keeps-pure false
  cast_flag-Keeps (some n) = Keeps-if _ _ _ (Keeps-raise (std 0)) (Keeps-pure _)

  insert_shard-Keeps :
      (name : String) (after : ℕ) (row : ConnectionRow) (flag : Bool)
      → Keeps Located (insert_shard lib loader now name after row flag)
  unfolding insert_shard
  insert_shard-Keeps name after row flag = record {
    at = λ (m, w) h. record {
      at = λ t n e.
          insert_new-known _ n _ _ (insert_new-known name n _ m.shard_connections (h.at t n e));
    };
  }

  add_connection-Keeps :
      (shard : String) (after : ℕ) (row : ConnectionRow)
      → Keeps Located (add_connection lib loader now shard after row)
  unfolding add_connection
  add_connection-Keeps shard after row = record {
    at = λ (m, w) h.
        let type = row.config.connection_type in
        let name = connection_name row.node shard in
        if-lands Located (type == "mysql" || type == "oracle" || type == "vertica") _ _
          (λ known.
            if-lands Located
              (is_some (find name m.connections) || is_some (find name m.shard_connections)) _ _
              (λ e. h)
              (λ e.
                (Keeps-bind (cast_flag row.disable_cache)
                    (insert_shard lib loader now name after row) (cast_flag-Keeps row.disable_cache)
                    (insert_shard-Keeps name after row)).at
                  (m, w) h))
          (λ e. h);
  }

  add_connections-Keeps :
      (shard : String) (after : ℕ) (rows : List ConnectionRow)
      → Keeps Located (add_connections lib loader now shard after rows)
  unfolding add_connections
  add_connections-Keeps shard after [] = Keeps-pure tt
  add_connections-Keeps shard after (row ∷ rows) =
      Keeps-bind (add_connection lib loader now shard after row)
        (λ u. add_connections lib loader now shard after rows)
        (add_connection-Keeps shard after row) (λ u. add_connections-Keeps shard after rows)

  add_table-Keeps :
      (shard : String) (row : TableRow) → Keeps Located (add_table lib loader now shard row)
  unfolding add_table
  add_table-Keeps shard row = record {
    at = λ (m, w) h.
        let name = connection_name row.node shard in
        if-lands Located (is_some (find name m.shard_connections)) _ _
          (λ e. put_table-Located m row.table_name name e h) (λ e. h);
  }

  add_tables-Keeps :
      (shard : String) (rows : List TableRow) → Keeps Located (add_tables lib loader now shard rows)
  unfolding add_tables
  add_tables-Keeps shard [] = Keeps-pure tt
  add_tables-Keeps shard (row ∷ rows) =
      Keeps-bind (add_table lib loader now shard row) (λ u. add_tables lib loader now shard rows)
        (add_table-Keeps shard row) (λ u. add_tables-Keeps shard rows)

  pub fetch-Keeps :
      (name : String) (c : ShardCollection) → Keeps Located (fetch lib loader now name c)
  unfolding fetch
  fetch-Keeps name c =
      Keeps-bind _ _
        (Keeps-bind (in_world lib loader now (loader.load_connections c.connections_node)) _
          (in_world-Keeps (loader.load_connections c.connections_node))
          (λ (rows, failure).
            Keeps-bind (add_connections lib loader now name c.reconnect_after rows)
              (λ u. throw_if lib loader now failure)
              (add_connections-Keeps name c.reconnect_after rows) (λ u. throw_if-Keeps failure)))
        (λ u.
          Keeps-bind (in_world lib loader now (loader.load_tables c.tables_node)) _
            (in_world-Keeps (loader.load_tables c.tables_node))
            (λ (rows, failure).
              Keeps-bind (add_tables lib loader now name rows)
                (λ v. throw_if lib loader now failure) (add_tables-Keeps name rows)
                (λ v. throw_if-Keeps failure)))
