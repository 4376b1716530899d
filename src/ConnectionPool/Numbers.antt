-- ===== src/ConnectionPool/Numbers.antt =====
-- The numbers of the connections in a pool, and what reducing the pool removes.
use data_proxy_library.Common.{
  ℕ, zero, suc, ◌+◌, ◌-◌, ◌≤◌, ◌≡◌, refl, ap, ◌∙◌, ◌&&◌, List, [], ◌∷◌, ◌++◌, length, ltb,
  if◌then◌else◌, arith, Bool-cases, inl, inr, subst,
}
use data_proxy_library.ConnectionPool.{Connection, is_unique, update}
use data_proxy_library.ConnectionPool.Reduce.{reduce_connections}

module _ {D : Type 0} where
  -- The numbers count up, behind a number.
  abbrev pub IsNumbered : ℕ → List (Connection D) → Type 0
  IsNumbered n [] = Unit
  IsNumbered n (c ∷ cs) = (c.number ≡ suc n) × IsNumbered (suc n) cs

  pub update-Numbered :
      (f : Connection D → Connection D)
      → ((c : Connection D) → (f c).number ≡ c.number)
      → (i n : ℕ) (cs : List (Connection D)) → IsNumbered n cs
      → IsNumbered n (update f i cs)
  unfolding update
  update-Numbered f same i n [] h = h
  update-Numbered f same zero n (c ∷ cs) (e, h) = (same c ∙ e, h)
  update-Numbered f same (suc i) n (c ∷ cs) (e, h) = (e, update-Numbered f same i (suc n) cs h)

  pub append-Numbered :
      (n : ℕ) (cs : List (Connection D)) (c : Connection D)
      → IsNumbered n cs
      → c.number ≡ suc (n + length cs)
      → IsNumbered n (cs ++ c ∷ [])
  append-Numbered n [] c h e = (omega (arith, e), tt)
  append-Numbered n (d ∷ cs) c (f, h) e = (f, append-Numbered (suc n) cs c h (omega (arith, e)))

  pub length-update :
      (f : Connection D → Connection D) (i : ℕ) (cs : List (Connection D))
      → length (update f i cs) ≡ length cs
  unfolding update
  length-update f i [] = refl
  length-update f zero (c ∷ cs) = refl
  length-update f (suc i) (c ∷ cs) = ap suc (length-update f i cs)

  pub length-concat :
      (cs : List (Connection D)) (c : Connection D) → length (cs ++ c ∷ []) ≡ suc (length cs)
  length-concat [] c = refl
  length-concat (d ∷ cs) c = ap suc (length-concat cs c)

  pub reduce_connections-Numbered :
      (t r n : ℕ) (cs : List (Connection D))
      → IsNumbered (n + r) cs
      → IsNumbered n (reduce_connections t r cs)
  unfolding reduce_connections
  reduce_connections-Numbered t r n [] h = tt
  reduce_connections-Numbered t r n (c ∷ cs) (e, h) = elim (Bool-cases (ltb r t && is_unique c)) [
    | inl p ↦
        rw (p, reduce_connections)
          (reduce_connections-Numbered t (suc r) n cs
            (subst (λ k. IsNumbered k cs) (omega arith) h))
    | inr p ↦
        rw (p, reduce_connections)
          (
            omega (arith, e),
            reduce_connections-Numbered t r (suc n) cs
                (subst (λ k. IsNumbered k cs) (omega arith) h),
          )
  ]

  -- The handles that others hold as well, in order.
  unfoldable pub busy_handles : List (Connection D) → List D
  unfolding is_unique
  busy_handles [] = []
  busy_handles (c ∷ cs) =
      let rest = busy_handles cs in if is_unique c then rest else c.handle ∷ rest

  -- The number of the others.
  unfoldable pub unique_count : List (Connection D) → ℕ
  unfolding is_unique
  unique_count [] = 0
  unique_count (c ∷ cs) = let rest = unique_count cs in if is_unique c then suc rest else rest

  pub busy_handles-reduce_connections :
      (t r : ℕ) (cs : List (Connection D))
      → busy_handles (reduce_connections t r cs) ≡ busy_handles cs
  unfolding reduce_connections busy_handles is_unique
  busy_handles-reduce_connections t r [] = refl
  busy_handles-reduce_connections t r (c ∷ cs) =
      ground (
        arith,
        busy_handles-reduce_connections t (suc r) cs,
        busy_handles-reduce_connections t r cs,
      )

  pub unique_count-reduce_connections :
      (t r : ℕ) (cs : List (Connection D))
      → unique_count (reduce_connections t r cs) ≡ unique_count cs - (t - r)
  unfolding reduce_connections unique_count is_unique
  unique_count-reduce_connections t r [] = omega arith
  unique_count-reduce_connections t r (c ∷ cs) =
      ground (
        arith,
        unique_count-reduce_connections t (suc r) cs,
        unique_count-reduce_connections t r cs,
      )

  pub length-busy_handles :
      (cs : List (Connection D)) → length cs ≡ length (busy_handles cs) + unique_count cs
  unfolding busy_handles unique_count is_unique
  length-busy_handles [] = refl
  length-busy_handles (c ∷ cs) = ground (arith, length-busy_handles cs)

  pub length-reduce_connections :
      (t r : ℕ) (cs : List (Connection D)) → length (reduce_connections t r cs) ≤ length cs
  unfolding reduce_connections
  length-reduce_connections t r [] = omega arith
  length-reduce_connections t r (c ∷ cs) =
      ground (arith, length-reduce_connections t (suc r) cs, length-reduce_connections t r cs)
