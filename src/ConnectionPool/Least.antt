-- ===== src/ConnectionPool/Least.antt =====
-- The searches through a pool: the first instance without holders, and the one with the fewest.
use data_proxy_library.Common.{
  ℕ, suc, ◌+◌, ◌≤◌, ◌<◌, ◌≡◌, refl, none, some, List, [], ◌∷◌, length, ltb, arith, Bool-cases, inl,
  inr, ◌⊎◌, All,
}
use data_proxy_library.ConnectionPool.{Connection, Pool, is_unique, find_unique, lowest_from, nth}

module _ {D : Type 0} where
  -- No instance has fewer holders than the one at the index.
  pub record IsLeast (i : ℕ) (cs : List (Connection D)) : Type 0 where
    pub instance_ : Connection D
    pub at : nth i cs ≡ some instance_
    pub least : All (λ c. instance_.holders ≤ c.holders) cs

  -- What an instance is that a caller may get from a pool.
  abbrev pub IsChosen : Pool D → ℕ → Type 0
  IsChosen p i =
      ((c : Connection D) × (nth i p.connections ≡ some c) × (c.holders ≡ 0))
      ⊎ (All (λ c. 1 ≤ c.holders) p.connections
          × ((length p.connections < p.config.max_pool_size) × (i ≡ length p.connections)
              ⊎ (p.config.max_pool_size ≤ length p.connections) × IsLeast i p.connections))

  pub find_unique_cases :
      (cs : List (Connection D))
      → ((i : ℕ) × (find_unique cs ≡ some i)
          × ((c : Connection D) × (nth i cs ≡ some c) × (c.holders ≡ 0)))
        ⊎ ((find_unique cs ≡ none) × All (λ c. 1 ≤ c.holders) cs)
  unfolding find_unique is_unique nth
  find_unique_cases [] = inr (refl, tt)
  find_unique_cases (c ∷ cs) = elim (Bool-cases (is_unique c)) [
    | inl idle ↦ inl (0, rw idle refl, (c, refl, ground arith))
    | inr used ↦ elim (find_unique_cases cs) [
      | inl (i, e, (d, n, z)) ↦ inl (suc i, rw (used, e) refl, (d, n, z))
      | inr (e, busy) ↦ inr (rw (used, e) refl, (ground arith, busy))
    ]
  ]

  lowest_from_cases :
      (i count index : ℕ) (cs : List (Connection D))
      → ((lowest_from i count index cs ≡ index) × All (λ c. count ≤ c.holders) cs)
        ⊎ ((k : ℕ) × (d : Connection D) × (lowest_from i count index cs ≡ i + k)
            × (nth k cs ≡ some d)
            × (d.holders ≤ count)
            × All (λ c. d.holders ≤ c.holders) cs)
  unfolding lowest_from nth
  lowest_from_cases i count index [] = inl (refl, tt)
  lowest_from_cases i count index (c ∷ cs) = elim (Bool-cases (ltb c.holders count)) [
    | inl less ↦ rw less (elim (lowest_from_cases (suc i) c.holders i cs) [
      | inl (e, all) ↦ inr (0, c, omega (arith, e), refl, ground arith, (omega arith, all))
      | inr (k, d, e, n, le, all) ↦ inr (suc k, d, omega (arith, e), n, ground arith, (le, all))
    ])
    | inr more ↦ rw more (elim (lowest_from_cases (suc i) count index cs) [
      | inl (e, all) ↦ inl (e, (ground arith, all))
      | inr (k, d, e, n, le, all) ↦ inr (suc k, d, omega (arith, e), n, le, (ground arith, all))
    ])
  ]

  later-IsLeast :
      (c d : Connection D) (cs : List (Connection D)) (k j : ℕ)
      → j ≡ suc k
      → nth k cs ≡ some d
      → All (λ c. d.holders ≤ c.holders) (c ∷ cs)
      → IsLeast j (c ∷ cs)
  unfolding nth
  later-IsLeast c d cs k j e n all = rw e (record { instance_ = d; at = n; least = all })

  pub lowest_from-IsLeast :
      (c : Connection D) (cs : List (Connection D))
      → IsLeast (lowest_from 1 c.holders 0 cs) (c ∷ cs)
  unfolding nth
  lowest_from-IsLeast c cs = elim (lowest_from_cases 1 c.holders 0 cs) [
    | inl (e, all) ↦ rw e (record { instance_ = c; at = refl; least = (omega arith, all) })
    | inr (k, d, e, n, le, all) ↦ later-IsLeast c d cs k _ (omega (arith, e)) n (le, all)
  ]
