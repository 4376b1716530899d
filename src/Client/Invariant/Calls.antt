-- ===== src/Client/Invariant/Calls.antt =====
-- Every call of a client keeps its transaction state consistent, however the call ends.
use data_proxy_library.Common.{
  ℕ, zero, suc, String, ◌≡◌, refl, Bool, ◌&&◌, not, some, inl, inr, List, [], ◌∷◌, arith, is_empty,
  Bool-cases, Option-cases, if◌then◌else◌,
}
use data_proxy_library.Common.Dict.{Dict, find}
use data_proxy_library.Common.Exec.{
  ok, Exec, pure, ◌>>=◌, ◌>>◌, uninitialized, unknown_node, Result-cases,
}
use data_proxy_library.Common.Exec.Rules.{
  Keeps, Keeps-pure, Keeps-raise, Keeps-bind, Keeps-if, if-lands,
}
use data_proxy_library.Request.{Session, Forwarder}
use data_proxy_library.Node.Keeps.{Beside, beside-Keeps, ForwarderKeeps}
use data_proxy_library.Nodes.{Node, Kind, commit_node, rollback_node}
use data_proxy_library.Nodes.Keeps.{node_load-Keeps, node_store-Keeps, node_delete-Keeps}
use data_proxy_library.Client.Transaction.{
  Environment, settle, settle_commits, settle_rollbacks, end_transaction, commit, rollback,
  begin_transaction, start_transaction,
}
use data_proxy_library.Client.Requests.{
  find_node, load_request, store_request, delete_request, forwarder,
}
use data_proxy_library.Client.Settle.{settle-left, settle-done}
use data_proxy_library.Client.Invariant.{Consistent, any_world, handle_result-Consistent}

module _ {W : Type 0} (nodes : Dict (Node W)) where
  -- Forgetting the first pending node.
  tail_commits :
      (s : Session W) (w : W) (x : String) (xs : List String)
      → Consistent nodes (record s { pending_commits = x ∷ xs; world = w })
      → Consistent nodes (record s { pending_commits = xs; world = w })
  tail_commits s w x xs v = record {
    commits_distinct = v.commits_distinct.1;
    rollbacks_distinct = v.rollbacks_distinct;
    apart = λ y h. v.apart y (ground arith);
    commits_known = v.commits_known.1;
    rollbacks_known = v.rollbacks_known;
    auto_distinct = v.auto_distinct;
    idle = λ o. absurd (cc (v.idle o).0);
  }

  tail_rollbacks :
      (s : Session W) (w : W) (x : String) (xs : List String)
      → Consistent nodes (record s { pending_rollbacks = x ∷ xs; world = w })
      → Consistent nodes (record s { pending_rollbacks = xs; world = w })
  tail_rollbacks s w x xs v = record {
    commits_distinct = v.commits_distinct;
    rollbacks_distinct = v.rollbacks_distinct.1;
    apart = λ y h. ground (arith, v.apart y h);
    commits_known = v.commits_known;
    rollbacks_known = v.rollbacks_known.1;
    auto_distinct = v.auto_distinct;
    idle = λ o. absurd (cc (v.idle o).1);
  }

  module _ (act : Kind W → Exec W (Unit {0})) where
    settle_commits-Consistent : Keeps (Consistent nodes) (settle_commits nodes act)
    unfolding settle_commits
    settle_commits-Consistent = record {
      at = λ s v.
          let w = (settle nodes act s.pending_commits [] s.world).1.1 in
          settle-left nodes act
            (λ xs. Consistent nodes (record s { pending_commits = xs; world = w }))
            (tail_commits s w) s.pending_commits [] s.world (any_world nodes s w v);
    }

    settle_rollbacks-Consistent : Keeps (Consistent nodes) (settle_rollbacks nodes act)
    unfolding settle_rollbacks
    settle_rollbacks-Consistent = record {
      at = λ s v.
          let w = (settle nodes act s.pending_rollbacks [] s.world).1.1 in
          settle-left nodes act
            (λ xs. Consistent nodes (record s { pending_rollbacks = xs; world = w }))
            (tail_rollbacks s w) s.pending_rollbacks [] s.world (any_world nodes s w v);
    }

    settle_commits-done :
        (s : Session W) (failed : List String)
        → (settle_commits nodes act s).0 ≡ ok failed
        → (settle_commits nodes act s).1.pending_commits ≡ []
    unfolding settle_commits
    settle_commits-done s failed h = settle-done nodes act s.pending_commits [] s.world failed h

    settle_rollbacks-done :
        (s : Session W) (failed : List String)
        → (settle_rollbacks nodes act s).0 ≡ ok failed
        → (settle_rollbacks nodes act s).1.pending_rollbacks ≡ []
    unfolding settle_rollbacks
    settle_rollbacks-done s failed h = settle-done nodes act s.pending_rollbacks [] s.world failed h

  end_transaction-Consistent :
      (s : Session W)
      → s.pending_commits ≡ []
      → s.pending_rollbacks ≡ []
      → Consistent nodes s
      → Consistent nodes (end_transaction s).1
  end_transaction-Consistent s c r v = record {
    commits_distinct = v.commits_distinct;
    rollbacks_distinct = v.rollbacks_distinct;
    apart = v.apart;
    commits_known = v.commits_known;
    rollbacks_known = v.rollbacks_known;
    auto_distinct = tt;
    idle = λ o. (c, r, refl);
  }

  -- The second half of Commit and Rollback.
  finish-Consistent :
      (act : Kind W → Exec W (Unit {0})) (s : Session W)
      → s.pending_commits ≡ []
      → Consistent nodes s
      → Consistent nodes ((settle_rollbacks nodes act >> end_transaction) s).1
  finish-Consistent act s c v = elim (Result-cases (settle_rollbacks nodes act s).0) [
    | inl (failed, e) ↦ rw e (
        end_transaction-Consistent _ (unfold settle_rollbacks in c)
          (settle_rollbacks-done act s failed e) ((settle_rollbacks-Consistent act).at s v))
    | inr (inl (x, e)) ↦ rw e ((settle_rollbacks-Consistent act).at s v)
    | inr (inr e) ↦ rw e ((settle_rollbacks-Consistent act).at s v)
  ]

module _ {W : Type 0} (env : Environment W) where
  pub rollback-Consistent : Keeps (Consistent env.nodes) (rollback env)
  unfolding rollback
  rollback-Consistent = record {
    at = λ s v.
        if-lands (Consistent env.nodes) (not env.initialized) _ _ (λ c. v)
          (λ c.
            if-lands (Consistent env.nodes) (not s.inside) _ _ (λ i. v)
              (λ i.
                let first = settle_commits env.nodes rollback_node s in
                let v' = (settle_commits-Consistent env.nodes rollback_node).at s v in
                elim (Result-cases first.0) [
                  | inl (failed, e) ↦ rw e (
                      finish-Consistent env.nodes rollback_node first.1
                        (settle_commits-done env.nodes rollback_node s failed e) v')
                  | inr (inl (x, e)) ↦ rw e v'
                  | inr (inr e) ↦ rw e v'
                ]));
  }

  pub commit-Consistent : Keeps (Consistent env.nodes) (commit env)
  unfolding commit
  commit-Consistent = record {
    at = λ s v.
        if-lands (Consistent env.nodes) (not env.initialized) _ _ (λ c. v)
          (λ c.
            if-lands (Consistent env.nodes) (not s.inside) _ _ (λ i. v)
              (λ i.
                let first = settle_commits env.nodes commit_node s in
                let v' = (settle_commits-Consistent env.nodes commit_node).at s v in
                elim (Result-cases first.0) [
                  | inl (failed, e) ↦ rw e (elim (Bool-cases (is_empty failed)) [
                    | inl none_failed ↦ rw none_failed (
                        finish-Consistent env.nodes rollback_node first.1
                          (settle_commits-done env.nodes commit_node s failed e) v')
                    | inr some_failed ↦ rw some_failed v'
                  ])
                  | inr (inl (x, e)) ↦ rw e v'
                  | inr (inr e) ↦ rw e v'
                ]));
  }

  start_transaction-Consistent : Keeps (Consistent env.nodes) start_transaction
  start_transaction-Consistent = record {
    at = λ s v.
        if-lands (Consistent env.nodes) s.inside _ _ (λ i. v)
          (λ i. record {
            commits_distinct = v.commits_distinct;
            rollbacks_distinct = v.rollbacks_distinct;
            apart = v.apart;
            commits_known = v.commits_known;
            rollbacks_known = v.rollbacks_known;
            auto_distinct = v.auto_distinct;
            idle = λ o. absurd (cc);
          });
  }

  pub begin_transaction-Consistent :
      (abort_current : Bool) → Keeps (Consistent env.nodes) (begin_transaction env abort_current)
  unfolding begin_transaction
  begin_transaction-Consistent abort_current = record {
    at = λ s v.
        if-lands (Consistent env.nodes) (not env.initialized) _ _ (λ c. v)
          (λ c.
            (Keeps-bind (if abort_current && s.inside then rollback env else pure tt)
                (λ _. start_transaction)
                (Keeps-if (abort_current && s.inside) (rollback env) (pure tt) rollback-Consistent
                  (Keeps-pure tt))
                (λ u. start_transaction-Consistent)).at
              s v);
  }

  -- The node that a request names is one of the client's.
  find_node-Keeps :
      {S A : Type 0} (P : S → Type 0) (name : String) (f : Node W → Exec S A)
      → ((node : Node W) → find name env.nodes ≡ some node → Keeps P (f node))
      → Keeps P (find_node env name >>= f)
  unfolding find_node
  find_node-Keeps P name f h = elim (Bool-cases (not env.initialized)) [
    | inl c ↦ rw (c, find_node) (Keeps-raise uninitialized)
    | inr c ↦ elim (Option-cases (find name env.nodes)) [
      | inl e ↦ rw (c, e, find_node) (Keeps-raise (unknown_node name))
      | inr (node, e) ↦ rw (c, e, find_node) (h node e)
    ]
  ]

  -- Requests keep the state consistent at every depth of forwarding.
  pub forwarder-Consistent :
      (depth : ℕ)
      → ForwarderKeeps (Consistent env.nodes) (any_world env.nodes) (forwarder env depth)
  unfolding forwarder load_request store_request delete_request
  forwarder-Consistent zero = record {
    loads = λ n p. record { at = λ st v. v };
    stores = λ n p d. record { at = λ s v. v };
    deletes = λ n p. record { at = λ s v. v };
  }
  forwarder-Consistent (suc depth) =
      let keeps = forwarder-Consistent depth in
      let P : Session W → Type 0 = Consistent env.nodes in
      let fw : Forwarder W = forwarder env depth in
      record {
        loads = λ n p. find_node-Keeps (Beside P) n _ λ node e.
            Keeps-bind _ _ (node_load-Keeps P (any_world env.nodes) env.platform fw keeps node p)
              (λ success.
                beside-Keeps P (any_world env.nodes) _
                  (handle_result-Consistent env.nodes n node success e));
        stores = λ n p d. find_node-Keeps P n _ λ node e.
            Keeps-bind _ _ (node_store-Keeps P (any_world env.nodes) env.platform fw keeps node p d)
              (λ success. handle_result-Consistent env.nodes n node success e);
        deletes = λ n p. find_node-Keeps P n _ λ node e.
            Keeps-bind _ _ (node_delete-Keeps P (any_world env.nodes) env.platform fw keeps node p)
              (λ success. handle_result-Consistent env.nodes n node success e);
      }
