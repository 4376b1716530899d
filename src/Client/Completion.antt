-- ===== src/Client/Completion.antt =====
-- What Commit and Rollback do to the pending nodes.
use data_proxy_library.Common.{String, ◌≡◌, true, false, List, [], arith, is_empty, if◌then◌else◌}
use data_proxy_library.Common.Exec.{partial_commit, ok, err}
use data_proxy_library.Common.Exec.Rules.{Returns}
use data_proxy_library.Request.{Session}
use data_proxy_library.Nodes.{commit_node, rollback_node}
use data_proxy_library.Client.Transaction.{
  Environment, settle_commits, settle_rollbacks, commit, rollback,
}
use data_proxy_library.Client.Settle.{visit, visit_all, failures, settle_lem}
use data_proxy_library.Client.Invariant.{IsConsistent}

module _ {W : Type 0} (env : Environment W) (s : Session W) (ready : env.initialized ≡ true)
    (inside : s.inside ≡ true) (consistent : IsConsistent env.nodes s)
    (commits_return : (n : String) → Returns (visit env.nodes commit_node n))
    (rollbacks_return : (n : String) → Returns (visit env.nodes rollback_node n)) where
  -- The worlds after committing, and after rolling back, each of some names.
  abbrev pub committed : List String → W → W
  committed = visit_all env.nodes commit_node

  abbrev pub rolled_back : List String → W → W
  rolled_back = visit_all env.nodes rollback_node

  -- Commit, inside a transaction of an initialized client with a consistent state, where
  -- committing and rolling back each named node returns or throws: every node that is pending for
  -- commit is committed once, in order, also behind one that fails. If none fails, then every
  -- node that is pending for rollback is rolled back once, in order, and the transaction is over
  -- with nothing pending. Otherwise a PartialCommitException names the nodes that failed, nothing
  -- is pending for commit any more, and the transaction stays open with its pending rollbacks.
  pub commit_lem : commit env s ≡ (
      if is_empty (failures env.nodes commit_node s.pending_commits s.world)
      then (
        ok tt,
        record {
          inside = false;
          pending_commits = [];
          pending_rollbacks = [];
          auto_committed = [];
          world = rolled_back s.pending_rollbacks (committed s.pending_commits s.world);
        },
      )
      else (
        err (partial_commit (failures env.nodes commit_node s.pending_commits s.world)),
        record s { pending_commits = []; world = committed s.pending_commits s.world },
      ))
  unfolding commit settle_commits settle_rollbacks
  commit_lem = ground (
    arith,
    settle_lem env.nodes commit_node commits_return s.pending_commits [] s.world
        consistent.commits_known,
    settle_lem env.nodes rollback_node rollbacks_return s.pending_rollbacks []
        (committed s.pending_commits s.world) consistent.rollbacks_known,
  )

  -- Rollback, inside a transaction of an initialized client with a consistent state, where
  -- committing and rolling back each named node returns or throws: every node that is pending for
  -- commit and then every node that is pending for rollback is rolled back once, in order,
  -- whichever of them fail; the call returns, and the transaction is over with nothing pending.
  pub rollback_lem : rollback env s ≡ (
    ok tt,
    record {
      inside = false;
      pending_commits = [];
      pending_rollbacks = [];
      auto_committed = [];
      world = rolled_back s.pending_rollbacks (rolled_back s.pending_commits s.world);
    },
  )
  unfolding rollback settle_commits settle_rollbacks
  rollback_lem = ground (
    arith,
    settle_lem env.nodes rollback_node rollbacks_return s.pending_commits [] s.world
        consistent.commits_known,
    settle_lem env.nodes rollback_node rollbacks_return s.pending_rollbacks []
        (rolled_back s.pending_commits s.world) consistent.rollbacks_known,
  )
