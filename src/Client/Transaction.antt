-- ===== src/Client/Transaction.antt =====
-- The transaction of a client: HandleResult, BeginTransaction, Commit and Rollback.
use data_proxy_library.Common.{
  String, Bool, true, false, ◌&&◌, not, none, some, List, [], ◌∷◌, ◌++◌, contains, is_empty,
  if◌then◌else◌,
}
use data_proxy_library.Common.Dict.{Dict, find}
use data_proxy_library.Common.Exec.{
  uninitialized, unknown_node, already_started, marked_for_rollback, marked_for_commit,
  partial_commit, Result, ok, err, diverged, Exec, pure, raise, ◌>>=◌, ◌>>◌,
}
use data_proxy_library.Request.{Session, on_world}
use data_proxy_library.Nodes.{
  Node, Kind, Platform, supports_transactions, commit_node, rollback_node,
}

-- What a client's calls find: m_Initialized, m_Nodes, and the libraries.
pub record Environment (W : Type 0) : Type 0 where
  pub initialized : Bool
  pub nodes : Dict (Node W)
  pub platform : Platform W

unfoldable pub add_if_absent : String → List String → List String
add_if_absent name names = if contains name names then names else names ++ name ∷ []

module _ {W : Type 0} where
  -- HandleResult outside a transaction, and inside one, by whether the node supports transactions.
  unfoldable pub handle_outside : Kind W → Bool → Bool → Exec (Session W) (Unit {0})
  unfolding commit_node rollback_node
  handle_outside kind true true = on_world (commit_node kind)
  handle_outside kind true false = on_world (rollback_node kind)
  handle_outside kind false success = pure tt

  unfoldable pub handle_inside : String → Bool → Bool → Exec (Session W) (Unit {0})
  unfolding add_if_absent
  handle_inside name false success s =
      (ok tt, record s { auto_committed = add_if_absent name s.auto_committed })
  handle_inside name true true s =
      if contains name s.pending_rollbacks
      then (err (marked_for_rollback name), s)
      else (ok tt, record s { pending_commits = add_if_absent name s.pending_commits })
  handle_inside name true false s =
      if contains name s.pending_commits
      then (err (marked_for_commit name), s)
      else (ok tt, record s { pending_rollbacks = add_if_absent name s.pending_rollbacks })

  unfoldable pub handle_result : String → Kind W → Bool → Exec (Session W) (Unit {0})
  unfolding handle_outside handle_inside supports_transactions
  handle_result name kind success s =
      if not s.inside
      then handle_outside kind (supports_transactions kind) success s
      else handle_inside name (supports_transactions kind) success s

  -- A loop over pending nodes, which erases each name as it passes it. It returns the names of the
  -- nodes that have thrown; a name that is unknown ends it.
  unfoldable pub settle :
      Dict (Node W)
      → (Kind W → Exec W (Unit {0}))
      → List String
      → List String
      → W
      → Result (List String) × (List String × W)
  settle nodes act [] errors w = (ok errors, ([], w))
  settle nodes act (n ∷ ns) errors w = elim (find n nodes) [
    | none ↦ (err (unknown_node n), (n ∷ ns, w))
    | some node ↦ elim (act node.kind w).0 [
      | ok _ ↦ settle nodes act ns errors (act node.kind w).1
      | err e ↦ settle nodes act ns (errors ++ n ∷ []) (act node.kind w).1
      | diverged ↦ (diverged, (n ∷ ns, (act node.kind w).1))
    ]
  ]

  unfoldable pub settle_commits :
      Dict (Node W) → (Kind W → Exec W (Unit {0})) → Exec (Session W) (List String)
  unfolding settle
  settle_commits nodes act s =
      let r = settle nodes act s.pending_commits [] s.world in
      (r.0, record s { pending_commits = r.1.0; world = r.1.1 })

  unfoldable pub settle_rollbacks :
      Dict (Node W) → (Kind W → Exec W (Unit {0})) → Exec (Session W) (List String)
  unfolding settle
  settle_rollbacks nodes act s =
      let r = settle nodes act s.pending_rollbacks [] s.world in
      (r.0, record s { pending_rollbacks = r.1.0; world = r.1.1 })

  abbrev pub end_transaction : Exec (Session W) (Unit {0})
  end_transaction s = (ok tt, record s { inside = false; auto_committed = [] })

  unfoldable pub commit : Environment W → Exec (Session W) (Unit {0})
  unfolding settle_commits settle_rollbacks commit_node rollback_node
  commit env s =
      if not env.initialized
      then (err uninitialized, s)
      else if not s.inside
      then (ok tt, s)
      else (settle_commits env.nodes commit_node >>= λ errors.
            (if is_empty errors then pure tt else raise (partial_commit errors))
            >> settle_rollbacks env.nodes rollback_node
            >> end_transaction)
          s

  -- PrivateRollback; the lock that it may obtain is held by its caller otherwise.
  unfoldable pub rollback : Environment W → Exec (Session W) (Unit {0})
  unfolding settle_commits settle_rollbacks rollback_node
  rollback env s =
      if not env.initialized
      then (err uninitialized, s)
      else if not s.inside
      then (ok tt, s)
      else (settle_commits env.nodes rollback_node
            >> settle_rollbacks env.nodes rollback_node
            >> end_transaction)
          s

  abbrev pub start_transaction : Exec (Session W) (Unit {0})
  start_transaction s =
      if s.inside then (err already_started, s) else (ok tt, record s { inside = true })

  unfoldable pub begin_transaction : Environment W → Bool → Exec (Session W) (Unit {0})
  unfolding rollback
  begin_transaction env abort_current s =
      if not env.initialized
      then (err uninitialized, s)
      else ((if abort_current && s.inside then rollback env else pure tt) >> start_transaction) s
