-- ===== src/ConnectionPool/Handed.antt =====
-- What GetConnection makes of the pool: the instance that it returns has one holder more.
use data_proxy_library.Common.{
  ℕ, zero, suc, ◌+◌, ◌-◌, ◌≤◌, ◌<◌, ◌≡◌, refl, sym, subst, some, List, [], ◌∷◌, ◌++◌, length, inl,
  inr, ◌⊎◌, All, arith,
}
use data_proxy_library.Common.Exec.{ok}
use data_proxy_library.ConnectionPool.{Connection, Pool, Databases, nth, update, set_connections}
use data_proxy_library.ConnectionPool.Least.{IsChosen}

some_injective : {A : Type 0} (a b : A) → some a ≡ some b → b ≡ a
some_injective a b e = cc

-- No instance is touched.
update-same : {D : Type 0} (i : ℕ) (cs : List (Connection D)) → update (λ c. c) i cs ≡ cs
unfolding update
update-same i [] = refl
update-same zero (c ∷ cs) = refl
update-same (suc i) (c ∷ cs) = rw (update-same i cs) refl

pub All-nth :
    {D : Type 0} (P : Connection D → Type 0) (i : ℕ) (c : Connection D) (cs : List (Connection D))
    → All P cs
    → nth i cs ≡ some c
    → P c
unfolding nth
All-nth P i c [] all e = absurd cc
All-nth P zero c (b ∷ cs) all e = subst P (some_injective c b (sym e)) all.0
All-nth P (suc i) c (b ∷ cs) all e = All-nth P i c cs all.1 e

module _ {D W : Type 0} (lib : Databases D W) (now limit : ℕ) where
  -- An instance that is handed out: it is reconnected first where its connection is older than the
  -- limit and no one has a handle on it, and it is the same otherwise.
  pub record IsTaken (c d : Connection D) : Type 0 where
    pub same_number : d.number ≡ c.number
    pub one_more : d.holders ≡ suc c.holders
    pub connection :
        ((limit < now - c.connected_at)
          × (c.holders ≡ 0)
          × (d.connected_at ≡ now)
          × ((w : W) × ((lib.reconnect c.handle w).0 ≡ ok d.handle)))
        ⊎ (((now - c.connected_at ≤ limit) ⊎ (1 ≤ c.holders))
            × (d.handle ≡ c.handle)
            × (d.connected_at ≡ c.connected_at))

  -- The instances after the one at an index has been handed out, behind as many others as the
  -- first argument: the others are the same, and behind the last one there is a new one.
  unfoldable pub IsHanded : ℕ → ℕ → List (Connection D) → List (Connection D) → Type 0
  IsHanded before zero [] (d ∷ []) =
      (d.number ≡ before + 1) × (d.holders ≡ 1) × (d.connected_at ≡ now)
  IsHanded before zero (c ∷ cs) (d ∷ ds) = IsTaken c d × (ds ≡ cs)
  IsHanded before (suc i) (c ∷ cs) (d ∷ ds) = (d ≡ c) × IsHanded (suc before) i cs ds
  IsHanded before i cs ds = ⊥

  pub update-Handed :
      (f g : Connection D → Connection D) (before i : ℕ) (c : Connection D)
      (cs : List (Connection D))
      → nth i cs ≡ some c
      → IsTaken c (f (g c))
      → IsHanded before i cs (update f i (update g i cs))
  unfolding IsHanded update nth
  update-Handed f g before i c [] e t = absurd cc
  update-Handed f g before zero c (b ∷ cs) e t =
      (subst (λ x. IsTaken x (f (g x))) (some_injective b c e) t, refl)
  update-Handed f g before (suc i) c (b ∷ cs) e t =
      (refl, update-Handed f g (suc before) i c cs e t)

  pub append-Handed :
      (f : Connection D → Connection D) (before : ℕ) (d : Connection D) (cs : List (Connection D))
      → (f d).number ≡ before + length cs + 1
      → (f d).holders ≡ 1
      → (f d).connected_at ≡ now
      → IsHanded before (length cs) cs (update f (length cs) (cs ++ d ∷ []))
  unfolding IsHanded update
  append-Handed f before d [] n h t = (omega (arith, n), h, t)
  append-Handed f before d (c ∷ cs) n h t =
      (refl, append-Handed f (suc before) d cs (omega (arith, n)) h t)

abbrev pub count_holder : {D : Type 0} → Connection D → Connection D
count_holder c = record c { holders = suc c.holders }

module _ {D W : Type 0} (lib : Databases D W) (now : ℕ) where
  -- The pool once an instance of it is handed out; nothing else of it has changed.
  abbrev pub IsServing : Pool D → ℕ → Pool D → Type 0
  IsServing p i q =
      IsChosen p i
      × (cs : List (Connection D)) × IsHanded lib now p.config.reconnect_after 0 i p.connections cs
      × (q ≡ set_connections cs p)

  -- The pool behind GetConnection: the refresh timer is reset where every instance is in use.
  abbrev pub IsServed : Pool D → ℕ → Pool D → Type 0
  IsServed p i q =
      IsChosen p i
      × (cs : List (Connection D)) × IsHanded lib now p.config.reconnect_after 0 i p.connections cs
      × ((All (λ c. 1 ≤ c.holders) cs × (q ≡ record p { connections = cs; refreshed_at = now }))
          ⊎ (((j : ℕ) × (c : Connection D) × (nth j cs ≡ some c) × (c.holders ≡ 0))
              × (q ≡ set_connections cs p)))

  -- The instance is found and connected, and what is left is to count its holder.
  abbrev pub IsReady : Pool D → ℕ → Pool D → Type 0
  IsReady p i q = IsServing p i (set_connections (update count_holder i q.connections) q)

  pub same-Ready :
      (p : Pool D) (i : ℕ) (c : Connection D)
      → IsChosen p i
      → nth i p.connections ≡ some c
      → (now - c.connected_at ≤ p.config.reconnect_after) ⊎ (1 ≤ c.holders)
      → IsReady p i p
  same-Ready p i c chosen at kept = (
    chosen,
    update count_holder i p.connections,
    subst
        (λ cs.
          IsHanded lib now p.config.reconnect_after 0 i p.connections (update count_holder i cs))
        (update-same i p.connections)
        (update-Handed lib now p.config.reconnect_after count_holder (λ b. b) 0 i c p.connections at
          (record { same_number = refl; one_more = refl; connection = inr (kept, refl, refl) })),
    refl,
  )

  pub reconnected-Ready :
      (p : Pool D) (i : ℕ) (c : Connection D) (handle : D) (w : W)
      → IsChosen p i
      → nth i p.connections ≡ some c
      → p.config.reconnect_after < now - c.connected_at
      → c.holders ≡ 0
      → (lib.reconnect c.handle w).0 ≡ ok handle
      → IsReady p i (
          set_connections
            (update (λ b. record b { handle = handle; connected_at = now }) i p.connections)
            p)
  reconnected-Ready p i c handle w chosen at old idle made = (
    chosen,
    update count_holder i
        (update (λ b. record b { handle = handle; connected_at = now }) i p.connections),
    update-Handed lib now p.config.reconnect_after count_holder
        (λ b. record b { handle = handle; connected_at = now }) 0 i c p.connections at
        (record {
          same_number = refl;
          one_more = refl;
          connection = inl (old, idle, refl, (w, made));
        }),
    refl,
  )

  pub created-Ready :
      (p : Pool D) (d : Connection D)
      → IsChosen p (length p.connections)
      → d.number ≡ length p.connections + 1
      → d.holders ≡ 0
      → d.connected_at ≡ now
      → IsReady p (length p.connections) (set_connections (p.connections ++ d ∷ []) p)
  created-Ready p d chosen number idle fresh = (
    chosen,
    update count_holder (length p.connections) (p.connections ++ d ∷ []),
    append-Handed lib now p.config.reconnect_after count_holder 0 d p.connections
        (omega (arith, number)) (rw idle refl) fresh,
    refl,
  )
