-- ===== src/ConnectionPool/Choice.antt =====
-- Which instance GetConnection returns, and what it leaves of the pool.
use data_proxy_library.Common.{
  ℕ, subst, ◌≤◌, ◌≡◌, refl, sym, Bool, true, false, Option, none, some, length, ltb, nat_eq, arith,
  Bool-cases, inl, inr, All,
}
use data_proxy_library.Common.Exec.{Result, Exec, ◌>>=◌, continue}
use data_proxy_library.Common.Exec.Rules.{Settles, IsSettled, Settles-bind, continue-Settles}
use data_proxy_library.ConnectionPool.{
  Connection, Pool, Databases, find_unique, nth, create_or_share, get_database, get_database_from,
  reconnect_if_necessary, hand_out, or_create, attempt_to_create, attempt_to_find, get_connection,
}
use data_proxy_library.ConnectionPool.Least.{IsLeast, find_unique_cases}
use data_proxy_library.ConnectionPool.Handed.{
  IsServing, IsServed, IsReady, All-nth, same-Ready, created-Ready,
}
use data_proxy_library.ConnectionPool.Steps.{
  IsWorking, is_known_type, Gives, hand_out-Serves, find_lowest_use_count-Settles,
  reset_timer_if_pegged-Serves, ping_then-Gives, share_at-Gives, reconnect-Ready, IsCreated,
  create_instance-Settles,
}

nonzero : (n : ℕ) → 1 ≤ n → nat_eq n 0 ≡ false
nonzero n h = ground arith

module _ {D W : Type 0} (lib : Databases D W) (now : ℕ) (working : IsWorking lib) where
  abbrev Serves : Pool D → ℕ → Pool D × W → Type 0
  Serves p i s = IsServing lib now p i s.0

  get_database-when :
      (Q : ℕ → Pool D × W → Type 0) (inside create : Bool) (p : Pool D) (w : W) (found : Option ℕ)
      (f : Option ℕ → Exec (Pool D × W) ℕ)
      → 1 ≤ p.config.max_pool_size
      → find_unique p.connections ≡ found
      → IsSettled Q ((get_database_from lib now inside create found >>= f) (p, w))
      → IsSettled Q ((get_database lib now inside create >>= f) (p, w))
  unfolding get_database
  get_database-when Q inside create p w found f m e h =
      subst (λ (x : Result (Option ℕ) × (Pool D × W)). IsSettled Q (continue x.0 f x.1))
        (sym (rw (e, nonzero p.config.max_pool_size m) refl)) h

  -- The instance at the index is ready.
  abbrev IsReadySome : Pool D → Option ℕ → Pool D × W → Type 0
  IsReadySome p o s = (i : ℕ) × (o ≡ some i) × IsReady lib now p i s.0

  hand_on_index :
      (p : Pool D) (i : ℕ) (m : Exec (Pool D × W) (Option ℕ)) (Q : Pool D × W → Type 0)
      → ((s : Pool D × W) → Q s → IsReady lib now p i s.0)
      → Gives lib now (some i) m
      → Settles Q m (IsReadySome p)
  hand_on_index p i m Q q g = record {
    at = λ s h.
        let (o, e, (e', same)) = (g s.0).at s refl in
        (o, e, (i, e', subst (IsReady lib now p i) (sym same) (q s h)));
  }

  create_or_share-Settles :
      (inside : Bool) (p : Pool D) (w : W)
      → All (λ c. 1 ≤ c.holders) p.connections
      → 1 ≤ p.config.max_pool_size
      → is_known_type p.config.connection_type ≡ true
      → IsSettled (IsReadySome p) (create_or_share lib now inside (p, w))
  unfolding create_or_share
  create_or_share-Settles inside p w busy m known =
      elim (Bool-cases (ltb (length p.connections) p.config.max_pool_size)) [
        | inl below ↦ rw below (
            continue-Settles _ _ _ (IsCreated lib now working p) (IsReadySome p)
              (create_instance-Settles lib now working p w known)
              (λ i.
                hand_on_index p i _ (IsCreated lib now working p i)
                  (λ (q, w') (last, handle, made).
                    rw (last, made)
                      (created-Ready lib now p _ (inr (busy, inl (ground arith, refl))) refl refl
                        refl))
                  (ping_then-Gives lib now working (some i) i)))
        | inr full ↦ rw full (
            continue-Settles _ _ _ (λ i s. IsLeast i p.connections × (s.0 ≡ p)) (IsReadySome p)
              (find_lowest_use_count-Settles lib now p.connections (p, w) (ground arith))
              (λ i.
                hand_on_index p i _ (λ s. IsLeast i p.connections × (s.0 ≡ p))
                  (λ (q, w') (l, same). subst (IsReady lib now p i) (sym same) (
                    same-Ready lib now p i l.instance_ (inr (busy, inr (ground arith, l))) l.at
                      (inr (All-nth (λ c. 1 ≤ c.holders) i l.instance_ p.connections busy l.at))))
                  (share_at-Gives lib now working inside i)))
      ]

  create_or_share-Serves :
      (inside : Bool) (p : Pool D) (w : W)
      → All (λ c. 1 ≤ c.holders) p.connections
      → 1 ≤ p.config.max_pool_size
      → is_known_type p.config.connection_type ≡ true
      → IsSettled (Serves p) ((create_or_share lib now inside >>= or_create lib now inside) (p, w))
  create_or_share-Serves inside p w busy m known =
      continue-Settles (create_or_share lib now inside (p, w)).0 (or_create lib now inside)
        (create_or_share lib now inside (p, w)).1 (IsReadySome p) (Serves p)
        (create_or_share-Settles inside p w busy m known)
        (λ o. record { at = λ s (i, e, ready). rw e ((hand_out-Serves lib now p i).at s ready) })

  found-Serves :
      (inside : Bool) (p : Pool D) (w : W) (i : ℕ) (c : Connection D)
      → nth i p.connections ≡ some c
      → c.holders ≡ 0
      → IsSettled (Serves p) (
          (get_database_from lib now inside false (some i) >>= attempt_to_find lib now inside)
            (p, w))
  unfolding get_database_from
  found-Serves inside p w i c found idle =
      continue-Settles _ _ _ (λ o s. (o ≡ some i) × (s.0 ≡ p)) (Serves p)
        ((ping_then-Gives lib now working (some i) i p).at (p, w) refl)
        (λ o. record {
          at = λ s (e, same). rw e (
              (Settles-bind (reconnect_if_necessary lib now i) (λ u. hand_out lib now i)
                  (λ u s'. IsReady lib now p i s'.0) (Serves p)
                  (reconnect-Ready lib now working p i c (inl (c, found, idle)) found idle)
                  (λ u. hand_out-Serves lib now p i)).at
                s same);
        })

  -- Where the database library's calls succeed, every connection is alive, the database type is a
  -- known one and the maximal pool size is not 0, GetConnection returns an instance: one that no
  -- one has a handle on where there is such a one; otherwise a new one where the pool may grow;
  -- otherwise one that no other has fewer holders than. In the pool behind it that instance has
  -- one holder more. A new one is the last of the pool, with the next number and one holder; any
  -- other keeps its number, and its connection too unless no one had a handle on it and it was
  -- older than the configuration allows, when it is reconnected. The other instances are the
  -- same, the refresh timer is reset where every instance then has a holder, and nothing else of
  -- the pool has changed.
  pub get_connection-Chosen :
      (inside : Bool) (p : Pool D) (w : W)
      → 1 ≤ p.config.max_pool_size
      → is_known_type p.config.connection_type ≡ true
      → IsSettled (λ i s. IsServed lib now p i s.0) (get_connection lib now inside (p, w))
  unfolding get_connection get_database_from
  get_connection-Chosen inside p w m known =
      continue-Settles _ _ _ (Serves p) (λ i s. IsServed lib now p i s.0)
        (elim (find_unique_cases p.connections) [
          | inl (i, e, (c, n, z)) ↦
              get_database-when (Serves p) inside false p w (some i)
                (attempt_to_find lib now inside) m e (found-Serves inside p w i c n z)
          | inr (e, busy) ↦
              get_database-when (Serves p) inside false p w none (attempt_to_find lib now inside) m
                e
                (get_database-when (Serves p) inside false p w none
                  (attempt_to_create lib now inside) m e
                  (get_database-when (Serves p) inside true p w none (or_create lib now inside) m e
                    (create_or_share-Serves inside p w busy m known)))
        ])
        (λ i. reset_timer_if_pegged-Serves lib now p i)
