-- ===== src/ConnectionPool/Steps.antt =====
-- The steps of GetConnection over a database library whose calls succeed.
use data_proxy_library.Common.{
  ℕ, String, subst, ◌+◌, ◌-◌, ◌≤◌, ◌≡◌, ◌==◌, ◌||◌, ◌&&◌, refl, sym, Bool, true, false, Option,
  none, some, List, [], ◌∷◌, ◌++◌, length, ltb, if◌then◌else◌, arith, Bool-cases, inl, inr,
}
use data_proxy_library.Common.Exec.{ok, Exec, pure, ◌>>=◌, ◌>>◌}
use data_proxy_library.Common.Exec.Rules.{Settles, IsSettled, Settles-bind, continue-Settles}
use data_proxy_library.ConnectionPool.{
  Connection, Pool, PoolConfig, Driver, oci_threadsafe_oracle, odbc_mysql, odbc_vertica, Databases,
  is_unique, nth, set_connections, with_world, on_instance, ping_at, create_instance,
  create_connection, ping_shared, find_lowest_use_count, lowest_from, replace_handle,
  reconnect_instance, reconnect_if_necessary, hand_out, reset_timer_if_pegged,
}
use data_proxy_library.ConnectionPool.Least.{
  IsLeast, IsChosen, find_unique_cases, lowest_from-IsLeast,
}
use data_proxy_library.ConnectionPool.Handed.{
  IsServing, IsServed, IsReady, IsHanded, same-Ready, reconnected-Ready,
}

-- The type is one that CreateConnection knows.
abbrev pub is_known_type : String → Bool
is_known_type type = type == "oracle" || type == "mysql" || type == "vertica"

-- Every call of the library succeeds, and every connection is alive.
pub record IsWorking {D W : Type 0} (lib : Databases D W) : Type 0 where
  pub pings : (force : Bool) (handle : D) (w : W) → (lib.ping force handle w).0 ≡ ok true
  pub connects :
      (driver : Driver) (server database user password : String) (cache : Bool) (schema : String)
      (level : ℕ) (w : W)
      → (handle : D) × ((lib.connect driver server database user password cache schema level w).0
          ≡ ok handle)
  pub reconnects : (old : D) (w : W) → (handle : D) × ((lib.reconnect old w).0 ≡ ok handle)

module _ {D W : Type 0} (lib : Databases D W) (now : ℕ) where
  -- What is said of an action on one pool.
  pub at_pool :
      {A : Type 0} (p : Pool D) (m : Exec (Pool D × W) A) (Q : A → Pool D × W → Type 0)
      → ((w : W) → IsSettled Q (m (p, w)))
      → Settles (λ s. s.0 ≡ p) m Q
  at_pool p m Q f = record { at = λ (q, w) e. subst (λ x. IsSettled Q (m (x, w))) (sym e) (f w) }

  -- The action returns the value and leaves the pool alone.
  abbrev pub Gives : {A : Type 0} → A → Exec (Pool D × W) A → Type 0
  Gives a m = (p : Pool D) → Settles (λ s. s.0 ≡ p) m (λ b s. (b ≡ a) × (s.0 ≡ p))

  pub hand_out-Serves :
      (p : Pool D) (i : ℕ)
      → Settles
          (λ s. IsReady lib now p i s.0)
          (hand_out lib now i)
          (λ j s. IsServing lib now p j s.0)
  unfolding hand_out
  hand_out-Serves p i = record { at = λ s h. (i, refl, h) }

  pub find_lowest_use_count-Settles :
      (cs : List (Connection D)) (s : Pool D × W)
      → 1 ≤ length cs
      → IsSettled (λ i s'. IsLeast i cs × (s'.0 ≡ s.0)) (find_lowest_use_count cs s)
  unfolding find_lowest_use_count
  find_lowest_use_count-Settles [] s h = absurd (omega (arith, h))
  find_lowest_use_count-Settles (c ∷ cs) s h =
      (lowest_from 1 c.holders 0 cs, refl, (lowest_from-IsLeast c cs, refl))

  -- The timer is reset once no instance is without a holder.
  pub reset_timer_if_pegged-Serves :
      (p : Pool D) (i : ℕ)
      → Settles
          (λ s. IsServing lib now p i s.0)
          (reset_timer_if_pegged lib now >> pure i)
          (λ j s. IsServed lib now p j s.0)
  unfolding reset_timer_if_pegged
  reset_timer_if_pegged-Serves p i = record {
    at = λ (q, w) (chosen, cs, handed, e).
        (at_pool (set_connections cs p) (reset_timer_if_pegged lib now >> pure i)
            (λ j s. IsServed lib now p j s.0) (λ w'. served chosen cs handed w')).at
          (q, w) e;
  }
    where
      served :
          IsChosen p i
          → (cs : List (Connection D))
          → IsHanded lib now p.config.reconnect_after 0 i p.connections cs
          → (w : W)
          → IsSettled
              (λ j s. IsServed lib now p j s.0)
              ((reset_timer_if_pegged lib now >> pure i) (set_connections cs p, w))
      served chosen cs handed w = elim (find_unique_cases cs) [
        | inl (j, e, (c, n, z)) ↦ rw e (i, refl, (chosen, cs, handed, inr ((j, c, n, z), refl)))
        | inr (e, busy) ↦ rw e (i, refl, (chosen, cs, handed, inl (busy, refl)))
      ]

module _ {D W : Type 0} (lib : Databases D W) (now : ℕ) (working : IsWorking lib) where
  ping_at-Gives : (force : Bool) (i : ℕ) → Gives lib now true (ping_at lib now force i)
  unfolding ping_at
  ping_at-Gives force i p = at_pool lib now p _ _ (λ w. pinged (nth i p.connections) w)
    where
      pinged :
          (o : Option (Connection D)) (w : W)
          → IsSettled
              (λ alive s. (alive ≡ true) × (s.0 ≡ p))
              (with_world lib now
                (on_instance lib now true (λ c. lib.ping force c.handle) o)
                (p, w))
      pinged none w = (true, refl, (refl, refl))
      pinged (some c) w = (true, working.pings force c.handle w, (refl, refl))

  pub ping_then-Gives :
      {A : Type 0} (a : A) (i : ℕ) → Gives lib now a (ping_at lib now true i >> pure a)
  ping_then-Gives a i p =
      Settles-bind (ping_at lib now true i) (λ b. pure a) (λ b s. (b ≡ true) × (s.0 ≡ p)) _
        (ping_at-Gives true i p) (λ b. record { at = λ s (t, e). (a, refl, (refl, e)) })

  pub share_at-Gives :
      (inside : Bool) (i : ℕ)
      → Gives lib now (some i) (ping_shared lib now inside i >> pure (some i))
  unfolding ping_shared
  share_at-Gives inside i p =
      Settles-bind (ping_shared lib now inside i) (λ u. pure (some i)) (λ u s. s.0 ≡ p) _
        (Settles-bind (ping_at lib now false i) _ (λ b s. (b ≡ true) × (s.0 ≡ p)) _
          (ping_at-Gives false i p) (λ b. record { at = λ s (t, e). rw t (tt, refl, e) }))
        (λ u. record { at = λ s e. (some i, refl, (refl, e)) })

  reconnect_with :
      (p : Pool D) (i : ℕ) (c : Connection D) (w : W) (b : Bool)
      → IsChosen p i
      → nth i p.connections ≡ some c
      → c.holders ≡ 0
      → (ltb p.config.reconnect_after (now - c.connected_at) && is_unique c) ≡ b
      → IsSettled
          (λ u s. IsReady lib now p i s.0)
          (if b
            then (with_world lib now (lib.reconnect c.handle) >>= replace_handle lib now i) (p, w)
            else (ok tt, (p, w)))
  unfolding is_unique
  reconnect_with p i c w true chosen found idle old =
      continue-Settles (lib.reconnect c.handle w).0 (replace_handle lib now i)
        (p, (lib.reconnect c.handle w).1) (λ h s. ((lib.reconnect c.handle w).0 ≡ ok h) × (s.0 ≡ p))
        (λ u s. IsReady lib now p i s.0)
        (let made = working.reconnects c.handle w in (made.0, made.1, (made.1, refl)))
        (λ h. record {
          at = λ (q, w') (made, e).
              (at_pool lib now p (replace_handle lib now i h) (λ u s. IsReady lib now p i s.0)
                  (λ w''. (
                    tt,
                    refl,
                    reconnected-Ready lib now p i c h w chosen found (ground arith) idle made,
                  ))).at
                (q, w') e;
        })
  reconnect_with p i c w false chosen found idle fresh =
      (tt, refl, same-Ready lib now p i c chosen found (inl (ground arith)))

  pub reconnect-Ready :
      (p : Pool D) (i : ℕ) (c : Connection D)
      → IsChosen p i
      → nth i p.connections ≡ some c
      → c.holders ≡ 0
      → Settles (λ s. s.0 ≡ p) (reconnect_if_necessary lib now i) (λ u s. IsReady lib now p i s.0)
  unfolding reconnect_if_necessary
  reconnect-Ready p i c chosen found idle = at_pool lib now p _ _ (λ w.
      subst
        (λ o. IsSettled (λ u s. IsReady lib now p i s.0) (reconnect_instance lib now i o (p, w)))
        (sym found) (reconnect_with p i c w _ chosen found idle refl))

  create_connection-Settled :
      (c : PoolConfig) (w : W)
      → is_known_type c.connection_type ≡ true
      → (handle : D) × ((create_connection lib now c w).0 ≡ ok handle)
  unfolding create_connection
  create_connection-Settled c w known = elim (Bool-cases (c.connection_type == "oracle")) [
    | inl o ↦ rw o (
        working.connects oci_threadsafe_oracle "" c.database c.user_name c.password false c.schema
          c.isolation_level w)
    | inr o ↦ elim (Bool-cases (c.connection_type == "mysql")) [
      | inl m ↦
          rw (o, m)
            (working.connects odbc_mysql c.server "" c.user_name c.password c.disable_cache
              c.database c.isolation_level w)
      | inr m ↦ elim (Bool-cases (c.connection_type == "vertica")) [
        | inl v ↦
            rw (o, m, v)
              (working.connects odbc_vertica c.server "" c.user_name c.password false c.database
                c.isolation_level w)
        | inr v ↦ absurd (ground arith)
      ]
    ]
  ]

  -- A new instance is the last one of the pool.
  abbrev pub IsCreated : Pool D → ℕ → Pool D × W → Type 0
  IsCreated p i s =
      (i ≡ length p.connections)
      × (handle : D) × (s.0
          ≡ set_connections
              (p.connections
                ++ record {
                  number = length p.connections + 1;
                  handle = handle;
                  holders = 0;
                  connected_at = now;
                }
                  ∷ [])
              p)

  pub create_instance-Settles :
      (p : Pool D) (w : W)
      → is_known_type p.config.connection_type ≡ true
      → IsSettled (IsCreated p) (create_instance lib now (p, w))
  unfolding create_instance
  create_instance-Settles p w known =
      continue-Settles (create_connection lib now p.config w).0 _
        (p, (create_connection lib now p.config w).1) (λ h s. s.0 ≡ p) (IsCreated p)
        (let made = create_connection-Settled p.config w known in (made.0, made.1, refl))
        (λ h.
          at_pool lib now p _ (IsCreated p) (λ w'. (length p.connections, refl, (refl, h, refl))))
