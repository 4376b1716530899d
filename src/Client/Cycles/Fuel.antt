-- ===== src/Client/Cycles/Fuel.antt =====
-- CheckForCycles ends: it never goes deeper than there are nodes.
use data_proxy_library.Common.{
  ℕ, zero, suc, ◌+◌, ◌≤◌, ◌<◌, String, ◌≡◌, ◌≢◌, refl, inl, inr, false, none, List, [], ◌∷◌, ◌++◌,
  arith, contains, IsDistinct, append-IsDistinct, length, ◌==◌, eq_iff, eq_refl, Bool-cases,
  Option-cases, if◌then◌else◌, All,
}
use data_proxy_library.Common.Dict.{Dict, find}
use data_proxy_library.Common.Exec.{Result, ok, err, diverged}
use data_proxy_library.Nodes.{Node}
use data_proxy_library.Client.Cycles.{
  WhichPath, read_path, write_path, delete_path, forwards_of, check_forwards, check_for_cycles,
  and_then, check_nodes,
}

module _ {V : Type 0} where
  keys_without : String → Dict V → Dict V
  keys_without k [] = []
  keys_without k ((j, v) ∷ m) =
      let rest = keys_without k m in if j == k then rest else (j, v) ∷ rest

  abbrev IsKnown : Dict V → String → Type 0
  IsKnown m x = find x m ≢ none

  length-keys_without-le : (k : String) (m : Dict V) → length (keys_without k m) ≤ length m
  unfolding keys_without
  length-keys_without-le k [] = omega arith
  length-keys_without-le k ((j, v) ∷ m) = ground (arith, length-keys_without-le k m)

  length-keys_without-lt :
      (k : String) (m : Dict V) → IsKnown m k → length (keys_without k m) < length m
  unfolding keys_without find
  length-keys_without-lt k [] h = absurd (h refl)
  length-keys_without-lt k ((j, v) ∷ m) h =
      ground (arith, length-keys_without-le k m, length-keys_without-lt k m)

  find-keys_without :
      (k x : String) (m : Dict V) → (k == x) ≡ false → find x (keys_without k m) ≡ find x m
  unfolding keys_without find
  find-keys_without k x [] h = refl
  find-keys_without k x ((j, v) ∷ m) h =
      ground (arith, eq_iff j k, eq_iff j x, eq_iff k x, find-keys_without k x m)

  All-keys_without :
      (k : String) (m : Dict V) (xs : List String)
      → contains k xs ≡ false
      → All (IsKnown m) xs
      → All (IsKnown (keys_without k m)) xs
  All-keys_without k m [] c h = tt
  All-keys_without k m (x ∷ xs) c h = (
    λ e. h.0 (ground (arith, find-keys_without k x m, eq_iff x k, eq_iff k x)),
    All-keys_without k m xs (ground arith) h.1,
  )

  -- A list of names that are keys and differ is no longer than the map.
  pigeonhole :
      (xs : List String) (m : Dict V) → IsDistinct xs → All (IsKnown m) xs → length xs ≤ length m
  pigeonhole [] m d h = omega arith
  pigeonhole (x ∷ xs) m d h = omega (
    arith,
    length-keys_without-lt x m h.0,
    pigeonhole xs (keys_without x m) d.1 (All-keys_without x m xs d.0 h.1),
  )

  All-IsKnown-append :
      (m : Dict V) (xs : List String) (x : String)
      → All (IsKnown m) xs
      → IsKnown m x
      → All (IsKnown m) (xs ++ x ∷ [])
  All-IsKnown-append m [] x h k = (k, tt)
  All-IsKnown-append m (y ∷ xs) x h k = (h.0, All-IsKnown-append m xs x h.1 k)

module _ {W : Type 0} (nodes : Dict (Node W)) where
  -- A path that the check is on.
  record IsPath (path : List String) : Type 0 where
    distinct : IsDistinct path
    known : All (IsKnown nodes) path

  check_forwards-Returns :
      (descend : String → Node W → List String → Result (Unit {0})) (name : String)
      (path : List String)
      → IsPath path
      → ((f : String) (node : Node W)
          → IsPath (path ++ f ∷ [])
          → descend f node (path ++ f ∷ []) ≢ diverged)
      → (fs : List String) → check_forwards nodes descend name path fs ≢ diverged
  unfolding check_forwards
  check_forwards-Returns descend name path v h [] = λ e. cc
  check_forwards-Returns descend name path v h (f ∷ fs) = elim (Option-cases (find f nodes)) [
    | inl e ↦ ground arith
    | inr (node, e) ↦ elim (Bool-cases (contains f path)) [
      | inl c ↦ ground arith
      | inr c ↦ ground (
        arith,
        check_forwards-Returns descend name path v h fs,
        h f node (record {
          distinct = append-IsDistinct f path v.distinct c;
          known = All-IsKnown-append nodes path f v.known (λ n. cc);
        }),
      )
    ]
  ]

  length-concat : (xs : List String) (x : String) → length (xs ++ x ∷ []) ≡ suc (length xs)
  length-concat [] x = refl
  length-concat (y ∷ xs) x = omega (arith, length-concat xs x)

  check_for_cycles-Returns :
      (which : WhichPath) (fuel : ℕ) (name : String) (node : Node W) (path : List String)
      → IsPath path
      → length nodes < fuel + length path
      → check_for_cycles nodes which fuel name node path ≢ diverged
  unfolding check_for_cycles
  check_for_cycles-Returns which zero name node path v h =
      absurd (omega (arith, pigeonhole path nodes v.distinct v.known))
  check_for_cycles-Returns which (suc n) name node path v h =
      check_forwards-Returns (check_for_cycles nodes which n) name path v
        (λ f next v'.
          check_for_cycles-Returns which n f next (path ++ f ∷ []) v'
            (omega (arith, length-concat path f)))
        (forwards_of which node)

  from_here :
      (which : WhichPath) (name : String) (node : Node W)
      → IsKnown nodes name
      → check_for_cycles nodes which (length nodes) name node (name ∷ []) ≢ diverged
  from_here which name node k =
      check_for_cycles-Returns which (length nodes) name node (name ∷ [])
        (record { distinct = (refl, tt); known = (k, tt) }) (omega arith)

  and_then-Returns :
      (a b : Result (Unit {0})) → a ≢ diverged → b ≢ diverged → and_then a b ≢ diverged
  and_then-Returns (ok _) b ha hb = hb
  and_then-Returns (err e) b ha hb = λ h. cc
  and_then-Returns diverged b ha hb = ha

  check_rest-Returns :
      (rest : Dict (Node W))
      → ((name : String) → IsKnown rest name → IsKnown nodes name)
      → check_nodes nodes (length nodes) rest ≢ diverged
  unfolding check_nodes find
  check_rest-Returns [] k = λ e. cc
  check_rest-Returns ((n, m) ∷ rest) k =
      let known : IsKnown nodes n = k n (λ e. ground (arith, eq_refl n)) in
      and_then-Returns _ _ (from_here read_path n m known) (
        and_then-Returns _ _ (from_here write_path n m known) (
          and_then-Returns _ _ (from_here delete_path n m known)
            (check_rest-Returns rest (λ name h. k name (λ e. h (ground arith))))))

  -- The check of a configuration comes to an answer, whatever the nodes forward to: a depth of as
  -- many steps as there are nodes is enough for it.
  pub check_nodes-returns : check_nodes nodes (length nodes) nodes ≢ diverged
  check_nodes-returns = check_rest-Returns nodes (λ name h. h)
