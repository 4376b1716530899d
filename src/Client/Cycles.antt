-- ===== src/Client/Cycles.antt =====
-- DataProxyClient::CheckForCycles.
pub mod Bounded
pub mod Fuel
use data_proxy_library.Common.{
  ℕ, zero, suc, String, true, false, none, some, List, [], ◌∷◌, ◌++◌, contains,
}
use data_proxy_library.Common.Dict.{Dict, find}
use data_proxy_library.Common.Exec.{missing_forward, forward_cycle, Result, ok, err, diverged}
use data_proxy_library.Nodes.{
  Node, insert_read_forwards, insert_write_forwards, insert_delete_forwards,
}

-- READ_PATH, WRITE_PATH, DELETE_PATH
pub data WhichPath : Type 0 where
  read_path write_path delete_path : WhichPath

abbrev pub and_then : Result (Unit {0}) → Result (Unit {0}) → Result (Unit {0})
and_then (ok _) next = next
and_then (err e) next = err e
and_then diverged next = diverged

module _ {W : Type 0} where
  unfoldable pub forwards_of : WhichPath → Node W → List String
  unfolding insert_read_forwards insert_write_forwards insert_delete_forwards
  forwards_of read_path node = insert_read_forwards node []
  forwards_of write_path node = insert_write_forwards node []
  forwards_of delete_path node = insert_delete_forwards node []

  -- The loop over the forwards of one node, with the recursive call as `descend`.
  unfoldable pub check_forwards :
      Dict (Node W)
      → (String → Node W → List String → Result (Unit {0}))
      → String
      → List String
      → List String
      → Result (Unit {0})
  check_forwards nodes descend name path [] = ok tt
  check_forwards nodes descend name path (f ∷ fs) = elim (find f nodes) [
    | none ↦ err (missing_forward name f)
    | some node ↦ elim (contains f path) [
      | true ↦ err (forward_cycle path f)
      | false ↦
          and_then (descend f node (path ++ f ∷ [])) (check_forwards nodes descend name path fs)
    ]
  ]

  unfoldable pub check_for_cycles :
      Dict (Node W) → WhichPath → ℕ → String → Node W → List String → Result (Unit {0})
  unfolding forwards_of check_forwards
  check_for_cycles nodes which zero name node path = diverged
  check_for_cycles nodes which (suc fuel) name node path =
      check_forwards nodes (check_for_cycles nodes which fuel) name path (forwards_of which node)

  -- The loop of InitializeImplementation that checks every node on its three paths.
  unfoldable pub check_nodes : Dict (Node W) → ℕ → Dict (Node W) → Result (Unit {0})
  unfolding check_for_cycles
  check_nodes nodes fuel [] = ok tt
  check_nodes nodes fuel ((name, node) ∷ rest) =
      and_then (check_for_cycles nodes read_path fuel name node (name ∷ [])) (
        and_then (check_for_cycles nodes write_path fuel name node (name ∷ [])) (
          and_then (check_for_cycles nodes delete_path fuel name node (name ∷ []))
            (check_nodes nodes fuel rest)))
