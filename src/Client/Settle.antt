-- ===== src/Client/Settle.antt =====
-- The loops of Commit and Rollback over the pending nodes, against what they mean.
use data_proxy_library.Common.{
  String, ◌≡◌, refl, true, none, some, inl, inr, List, [], ◌∷◌, ◌++◌, arith, All, Option-cases,
  if◌then◌else◌,
}
use mathlib.Core.List.{append-nil, append_assoc}
use data_proxy_library.Common.Dict.{Dict, find}
use data_proxy_library.Common.Exec.{ok, Exec, is_ok, Result-cases}
use data_proxy_library.Common.Exec.Rules.{Returns}
use data_proxy_library.Nodes.{Node, Kind, supports_transactions}
use data_proxy_library.Client.Transaction.{settle}

module _ {W : Type 0} (nodes : Dict (Node W)) where
  -- A node that is there and takes part in transactions.
  abbrev pub IsTransactional : String → Type 0
  IsTransactional n =
      (node : Node W) × (find n nodes ≡ some node) × (supports_transactions node.kind ≡ true)

  module _ (act : Kind W → Exec W (Unit {0})) where
    -- Acting on one named node.
    abbrev pub visit : String → Exec W (Unit {0})
    visit n w = elim (find n nodes) [ none ↦ (ok tt, w) | some node ↦ act node.kind w ]

    -- Acting on each of the names once, in order, whatever comes of it.
    unfoldable pub visit_all : List String → W → W
    visit_all [] w = w
    visit_all (n ∷ ns) w = visit_all ns (visit n w).1

    -- The names at which that fails.
    unfoldable pub failures : List String → W → List String
    failures [] w = []
    failures (n ∷ ns) w =
        let rest = failures ns (visit n w).1 in if is_ok (visit n w).0 then rest else n ∷ rest

    pub settle_lem :
        (returns : (n : String) → Returns (visit n)) (ns errors : List String) (w : W)
        → All IsTransactional ns
        → settle nodes act ns errors w ≡ (ok (errors ++ failures ns w), ([], visit_all ns w))
    unfolding settle failures visit_all
    settle_lem returns [] errors w known = ground (arith, append-nil errors)
    settle_lem returns (n ∷ ns) errors w ((node, at_n, _), known) = ground (
      arith,
      (returns n).at w,
      settle_lem returns ns errors (act node.kind w).1 known,
      settle_lem returns ns (errors ++ n ∷ []) (act node.kind w).1 known,
      append_assoc errors (n ∷ []) (failures ns (act node.kind w).1),
    )

    -- What is left of the names is a tail of them.
    pub settle-left :
        (P : List String → Type 0) (tail : (x : String) (xs : List String) → P (x ∷ xs) → P xs)
        (ns errors : List String) (w : W)
        → P ns
        → P (settle nodes act ns errors w).1.0
    unfolding settle
    settle-left P tail [] errors w h = h
    settle-left P tail (n ∷ ns) errors w h = elim (Option-cases (find n nodes)) [
      | inl e ↦ rw (e, settle) h
      | inr (node, e) ↦ elim (Result-cases (act node.kind w).0) [
        | inl (u, o) ↦
            rw (e, o, settle) (settle-left P tail ns errors (act node.kind w).1 (tail n ns h))
        | inr (inl (x, o)) ↦
            rw (e, o, settle)
              (settle-left P tail ns (errors ++ n ∷ []) (act node.kind w).1 (tail n ns h))
        | inr (inr o) ↦ rw (e, o, settle) h
      ]
    ]

    -- Nothing is left if the loop has come to its end.
    pub settle-done :
        (ns errors : List String) (w : W) (failed : List String)
        → (settle nodes act ns errors w).0 ≡ ok failed
        → (settle nodes act ns errors w).1.0 ≡ []
    unfolding settle
    settle-done [] errors w failed h = refl
    settle-done (n ∷ ns) errors w failed h = elim (Option-cases (find n nodes)) [
      | inl e ↦ absurd (ground arith)
      | inr (node, e) ↦ ground (
        arith,
        settle-done ns errors (act node.kind w).1 failed,
        settle-done ns (errors ++ n ∷ []) (act node.kind w).1 failed,
      )
    ]
