-- ===== src/ConnectionPool/Parsed.antt =====
-- What the configuration makes sure of the pools.
use data_proxy_library.Common.{
  ℕ, String, ◌≡◌, ◌≤◌, refl, sym, subst, Bool, true, false, none, some, List, [], ◌∷◌, ltb, nat_eq,
  is_some, if◌then◌else◌, ◌==◌, Bool-cases, inl, inr, arith,
}
use data_proxy_library.Common.Dict.{Dict, find, put, str_lt}
use data_proxy_library.Common.Exec.{
  mv, Result, ok, err, diverged, Exec, pure, raise, ◌>>=◌, continue,
}
use data_proxy_library.Common.Exec.Rules.{
  Keeps, Keeps-pure, Keeps-bind, Keeps-bind_yielded, Yields, Yields-pure, Yields-bind, if-lands,
}
use data_proxy_library.ConnectionPool.{PoolConfig, Pool}
use data_proxy_library.ConnectionPool.Manager.{Manager, insert_new}
use data_proxy_library.ConnectionPool.Steps.{is_known_type}
use data_proxy_library.ConnectionPool.Parse.{
  Attributes, Casts, get_attribute, read_flag, fill_type, fill_oracle, fill_mysql, fill_vertica,
  check_sizes, read_config, finish_config, parse_config, reading, new_pool, insert_parsed, parse,
}

-- What GetConnection and the refresh rely on.
pub record IsUsable (c : PoolConfig) : Type 0 where
  pub some_connections : 1 ≤ c.max_pool_size
  pub in_order : c.min_pool_size ≤ c.max_pool_size
  pub known : is_known_type c.connection_type ≡ true
  pub no_refresh : c.min_pool_size ≡ c.max_pool_size → c.pool_refresh_period ≡ none

-- The sizes alone.
pub record IsSized (c : PoolConfig) : Type 0 where
  pub some_connections : 1 ≤ c.max_pool_size
  pub in_order : c.min_pool_size ≤ c.max_pool_size
  pub no_refresh : c.min_pool_size ≡ c.max_pool_size → c.pool_refresh_period ≡ none

period_or_none :
    (c : PoolConfig) (b : Bool)
    → nat_eq c.min_pool_size c.max_pool_size ≡ b
    → 1 ≤ c.max_pool_size
    → c.min_pool_size ≤ c.max_pool_size
    → IsSized (if b then record c { pool_refresh_period = none } else c)
period_or_none c true e s o = record { some_connections = s; in_order = o; no_refresh = λ h. refl }
period_or_none c false e s o = record {
  some_connections = s;
  in_order = o;
  no_refresh = λ h. absurd (ground arith);
}

usable : (c : PoolConfig) → IsSized c → is_known_type c.connection_type ≡ true → IsUsable c
usable c s k = record {
  some_connections = s.some_connections;
  in_order = s.in_order;
  known = k;
  no_refresh = s.no_refresh;
}

abbrev IsNamedUsable : String × PoolConfig → Type 0
IsNamedUsable (name, c) = IsUsable c

module _ {S : Type 0} where
  Yields-raise : {A : Type 0} (Q : A → Type 0) (e : _) → Yields {S = S} Q (raise e)
  Yields-raise Q e = record { at = λ s a h. absurd cc }

  Yields-if :
      {A : Type 0} (Q : A → Type 0) (b : Bool) (m n : Exec S A)
      → (b ≡ true → Yields Q m)
      → (b ≡ false → Yields Q n)
      → Yields Q (if b then m else n)
  Yields-if Q true m n h k = h refl
  Yields-if Q false m n h k = k refl

  check_sizes-Yields :
      (casts : Casts) (c : PoolConfig) → Yields {S = S} IsSized (check_sizes casts c)
  unfolding check_sizes
  check_sizes-Yields casts c =
      Yields-if IsSized (ltb c.max_pool_size c.min_pool_size) _ _ (λ e. Yields-raise IsSized (mv 0))
        (λ less.
          Yields-if IsSized (nat_eq c.max_pool_size 0) _ _ (λ e. Yields-raise IsSized (mv 0))
            (λ zero. Yields-pure IsSized _ (
              period_or_none c (nat_eq c.min_pool_size c.max_pool_size) refl (ground arith)
                (ground arith))))

  fill_oracle-Yields :
      (casts : Casts) (node : Attributes) (c : PoolConfig)
      → IsUsable c
      → Yields {S = S} IsUsable (fill_oracle casts node c)
  unfolding fill_oracle
  fill_oracle-Yields casts node c u =
      Yields-bind IsUsable (get_attribute "name" node) _ (λ database.
        Yields-bind IsUsable (get_attribute "schema" node) _ (λ schema.
          Yields-pure IsUsable _ (record {
            some_connections = u.some_connections;
            in_order = u.in_order;
            known = u.known;
            no_refresh = u.no_refresh;
          })))

  fill_mysql-Yields :
      (casts : Casts) (node : Attributes) (c : PoolConfig)
      → IsUsable c
      → Yields {S = S} IsUsable (fill_mysql casts node c)
  unfolding fill_mysql
  fill_mysql-Yields casts node c u = Yields-bind IsUsable (get_attribute "name" node) _ (λ database.
      Yields-bind IsUsable (get_attribute "server" node) _ (λ server.
        Yields-bind IsUsable (get_attribute "disableCache" node >>= read_flag casts) _ (λ flag.
          Yields-pure IsUsable _ (record {
            some_connections = u.some_connections;
            in_order = u.in_order;
            known = u.known;
            no_refresh = u.no_refresh;
          }))))

  fill_vertica-Yields :
      (casts : Casts) (node : Attributes) (c : PoolConfig)
      → IsUsable c
      → Yields {S = S} IsUsable (fill_vertica casts node c)
  unfolding fill_vertica
  fill_vertica-Yields casts node c u =
      Yields-bind IsUsable (get_attribute "schema" node) _ (λ schema.
        Yields-bind IsUsable (get_attribute "server" node) _ (λ server.
          Yields-pure IsUsable _ (record {
            some_connections = u.some_connections;
            in_order = u.in_order;
            known = u.known;
            no_refresh = u.no_refresh;
          })))

  fill_type-Yields :
      (casts : Casts) (node : Attributes) (c : PoolConfig)
      → IsSized c
      → Yields {S = S} IsUsable (fill_type casts node c)
  unfolding fill_type
  fill_type-Yields casts node c s =
      Yields-if IsUsable (c.connection_type == "oracle") _ _
        (λ e. fill_oracle-Yields casts node c (usable c s (ground arith)))
        (λ o.
          Yields-if IsUsable (c.connection_type == "mysql") _ _
            (λ e. fill_mysql-Yields casts node c (usable c s (ground arith)))
            (λ m.
              Yields-if IsUsable (c.connection_type == "vertica") _ _
                (λ e. fill_vertica-Yields casts node c (usable c s (ground arith)))
                (λ v. Yields-raise IsUsable _)))

  yielded_bind :
      {A B : Type 0} (Q : A → Type 0) (R : B → Type 0) (m : Exec S A) (f : A → Exec S B)
      → Yields Q m
      → ((a : A) → Q a → Yields R (f a))
      → Yields R (m >>= f)
  yielded_bind Q R m f y k = record { at = λ s b e. go (m s).0 (m s).1 b (y.at s) e }
    where
      go :
          (r : Result _) (s : S) (b : _)
          → ((a : _) → r ≡ ok a → Q a)
          → (continue r f s).0 ≡ ok b
          → R b
      go (ok a) s b q e = (k a (q a refl)).at s b e
      go (err d) s b q e = absurd cc
      go diverged s b q e = absurd cc

  parse_config-Yields :
      (casts : Casts) (node : Attributes) → Yields {S = S} IsNamedUsable (parse_config casts node)
  unfolding parse_config
  parse_config-Yields casts node =
      Yields-bind IsNamedUsable (read_config casts node) (finish_config casts node) (λ (name, c).
        yielded_bind IsUsable IsNamedUsable (check_sizes casts c >>= fill_type casts node)
          (λ filled. pure (name, filled))
          (yielded_bind IsSized IsUsable (check_sizes casts c) (fill_type casts node)
            (check_sizes-Yields casts c) (λ sized s. fill_type-Yields casts node sized s))
          (λ filled u. Yields-pure IsNamedUsable _ u))

module _ {D : Type 0} where
  abbrev pub AreUsable : Dict (Pool D) → Type 0
  AreUsable [] = Unit
  AreUsable ((name, p) ∷ pools) = IsUsable p.config × AreUsable pools

  put-Usable :
      (name : String) (p : Pool D) (pools : Dict (Pool D))
      → IsUsable p.config
      → AreUsable pools
      → AreUsable (put name p pools)
  unfolding put
  put-Usable name p [] u h = (u, tt)
  put-Usable name p ((other, q) ∷ pools) u (v, h) = elim (Bool-cases (other == name)) [
    | inl e ↦ rw e (u, h)
    | inr e ↦ elim (Bool-cases (str_lt name other)) [
      | inl l ↦ rw (e, l) (u, (v, h))
      | inr l ↦ rw (e, l) (v, put-Usable name p pools u h)
    ]
  ]

  insert_new-Usable :
      (name : String) (p : Pool D) (pools : Dict (Pool D))
      → IsUsable p.config
      → AreUsable pools
      → AreUsable (insert_new name p pools)
  unfolding insert_new
  insert_new-Usable name p pools u h = elim (Bool-cases (is_some (find name pools))) [
    | inl e ↦ rw e h
    | inr e ↦ rw e (put-Usable name p pools u h)
  ]

  found-Usable :
      (name : String) (p : Pool D) (pools : Dict (Pool D))
      → AreUsable pools
      → find name pools ≡ some p
      → IsUsable p.config
  unfolding find
  found-Usable name p [] h e = absurd cc
  found-Usable name p ((other, q) ∷ pools) (v, h) e = elim (Bool-cases (other == name)) [
    | inl same ↦ subst (λ x. IsUsable x.config) (pool_injective q p (rw same at e)) v
    | inr there ↦ found-Usable name p pools h (rw there at e)
  ]
    where
      pool_injective : (a b : Pool D) → some a ≡ some b → a ≡ b
      pool_injective a b e = cc

module _ {D : Type 0} (casts : Casts) (now : ℕ) where
  abbrev Usable : Manager D → Type 0
  Usable m = AreUsable m.connections

  insert_parsed-Keeps :
      (c : String × PoolConfig) → IsNamedUsable c → Keeps Usable (insert_parsed casts now c)
  unfolding insert_parsed
  insert_parsed-Keeps (name, c) u = record {
    at = λ m h.
        if-lands Usable (is_some (find name m.connections)) _ _ (λ e. h)
          (λ e.
            insert_new-Usable _ _ _ u
              (put-Usable name (new_pool casts now name c) m.connections u h));
  }

  parse-Keeps : (nodes : List Attributes) → Keeps Usable (parse casts now nodes)
  unfolding parse
  parse-Keeps [] = Keeps-pure tt
  parse-Keeps (node ∷ nodes) =
      Keeps-bind (reading (parse_config casts node) >>= insert_parsed casts now)
        (λ u. parse casts now nodes)
        (Keeps-bind_yielded IsNamedUsable (reading (parse_config casts node))
          (insert_parsed casts now) (record { at = λ m h. h })
          (record { at = λ m c e. (parse_config-Yields casts node).at tt c e }) insert_parsed-Keeps)
        (λ u. parse-Keeps nodes)

  -- In a manager without connections, behind a Parse of any Database nodes, whether it has
  -- thrown: the pool under any name has a configuration of a known database type that allows for
  -- at least one connection, with a minimal size not above the maximal one, and without a refresh
  -- where the two are the same.
  pub parse-Usable :
      (nodes : List Attributes) (m : Manager D) (name : String) (p : Pool D)
      → m.connections ≡ []
      → find name (parse casts now nodes m).1.connections ≡ some p
      → IsUsable p.config
  parse-Usable nodes m name p e f =
      found-Usable name p (parse casts now nodes m).1.connections
        ((parse-Keeps nodes).at m (subst AreUsable (sym e) tt)) f
