-- ===== src/Client/Cycles/Bounded.antt =====
-- What a configuration that CheckForCycles accepts has: forwarding from every node ends.
use data_proxy_library.Common.{
  ℕ, zero, suc, String, ◌≡◌, inl, inr, true, false, none, some, subst, List, [], ◌∷◌, ◌++◌, arith,
  contains, ◌==◌, eq_iff, Bool-cases, Option-cases,
}
use data_proxy_library.Common.Dict.{Dict, find}
use data_proxy_library.Common.Exec.{Result, ok}
use data_proxy_library.Nodes.{Node}
use data_proxy_library.Client.Cycles.{
  WhichPath, read_path, write_path, delete_path, forwards_of, check_forwards, check_for_cycles,
  check_nodes,
}

module _ {W : Type 0} (nodes : Dict (Node W)) where
  -- No chain of forwards from the named node is longer than the bound.
  abbrev pub Bounded : WhichPath → ℕ → String → Type 0
  Bounded which zero name = find name nodes ≡ none
  Bounded which (suc n) name =
      (node : Node W)
      → find name nodes ≡ some node
      → (f : String) → contains f (forwards_of which node) ≡ true
      → Bounded which n f

  pub Bounded-unknown :
      (which : WhichPath) (n : ℕ) (name : String) → find name nodes ≡ none → Bounded which n name
  Bounded-unknown which zero name h = h
  Bounded-unknown which (suc n) name h = λ node e. absurd (cc)

  pub Bounded-mono :
      (which : WhichPath) (n : ℕ) (name : String)
      → Bounded which n name
      → Bounded which (suc n) name
  Bounded-mono which zero name h = Bounded-unknown which 1 name h
  Bounded-mono which (suc n) name h = λ node e f c. Bounded-mono which n f (h node e f c)

  -- What an accepting loop has found of a forward.
  abbrev Accepted :
      (String → Node W → List String → Result (Unit {0})) → List String → String → Type 0
  Accepted descend path f =
      (node : Node W) × (find f nodes ≡ some node)
      × (contains f path ≡ false)
      × (descend f node (path ++ f ∷ []) ≡ ok tt)

  module _ (descend : String → Node W → List String → Result (Unit {0})) (name : String)
      (path : List String) where
    check_forwards-head :
        (g : String) (gs : List String)
        → check_forwards nodes descend name path (g ∷ gs) ≡ ok tt
        → Accepted descend path g
    unfolding check_forwards
    check_forwards-head g gs h = elim (Option-cases (find g nodes)) [
      | inl e ↦ absurd (ground arith)
      | inr (node, e) ↦ (node, e, ground arith, ground arith)
    ]

    check_forwards-tail :
        (g : String) (gs : List String)
        → check_forwards nodes descend name path (g ∷ gs) ≡ ok tt
        → check_forwards nodes descend name path gs ≡ ok tt
    unfolding check_forwards
    check_forwards-tail g gs h = ground arith

    check_forwards-accepts :
        (fs : List String) (f : String)
        → check_forwards nodes descend name path fs ≡ ok tt
        → contains f fs ≡ true
        → Accepted descend path f
    check_forwards-accepts [] f h c = absurd (cc)
    check_forwards-accepts (g ∷ gs) f h c = elim (Bool-cases (g == f)) [
      | inl e ↦ subst (Accepted descend path) ((eq_iff g f).0 e) (check_forwards-head g gs h)
      | inr e ↦ check_forwards-accepts gs f (check_forwards-tail g gs h) (rw e at c)
    ]

  -- One node that CheckForCycles accepts.
  pub check_for_cycles-Bounded :
      (which : WhichPath) (fuel : ℕ) (name : String) (node : Node W) (path : List String)
      → find name nodes ≡ some node
      → check_for_cycles nodes which fuel name node path ≡ ok tt
      → Bounded which fuel name
  unfolding check_for_cycles
  check_for_cycles-Bounded which zero name node path found h = absurd (cc)
  check_for_cycles-Bounded which (suc n) name node path found h = λ node' e f c.
      let same : node ≡ node' = cc in
      let (next, at_f, _, accepted) =
        check_forwards-accepts (check_for_cycles nodes which n) name path (forwards_of which node) f
          h (rw same c) in
      check_for_cycles-Bounded which n f next (path ++ f ∷ []) at_f accepted

  check_nodes-accepts :
      (fuel : ℕ) (rest : Dict (Node W)) (which : WhichPath) (name : String) (node : Node W)
      → check_nodes nodes fuel rest ≡ ok tt
      → find name rest ≡ some node
      → check_for_cycles nodes which fuel name node (name ∷ []) ≡ ok tt
  unfolding check_nodes find
  check_nodes-accepts fuel [] which name node h e = absurd (cc)
  check_nodes-accepts fuel ((n, m) ∷ rest) read_path name node h e =
      ground (arith, eq_iff n name, check_nodes-accepts fuel rest read_path name node)
  check_nodes-accepts fuel ((n, m) ∷ rest) write_path name node h e =
      ground (arith, eq_iff n name, check_nodes-accepts fuel rest write_path name node)
  check_nodes-accepts fuel ((n, m) ∷ rest) delete_path name node h e =
      ground (arith, eq_iff n name, check_nodes-accepts fuel rest delete_path name node)

  -- An accepted configuration bounds the forwarding from every name, on each of the three paths.
  pub check_nodes-Bounded :
      (fuel : ℕ) (which : WhichPath) (name : String)
      → check_nodes nodes fuel nodes ≡ ok tt
      → Bounded which fuel name
  check_nodes-Bounded fuel which name h = elim (Option-cases (find name nodes)) [
    | inl e ↦ Bounded-unknown which fuel name e
    | inr (node, e) ↦
        check_for_cycles-Bounded which fuel name node (name ∷ []) e
          (check_nodes-accepts fuel nodes which name node h e)
  ]
