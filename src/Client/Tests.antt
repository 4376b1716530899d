-- ===== src/Client/Tests.antt =====
-- A client of a router "r" over two data nodes, "a" and "b", that log what they do; "b" has no
-- transactions.
use data_proxy_library.Common.{
  String, ◌≡◌, ◌≢◌, refl, subst, arith, Bool, true, false, none, some, inl, inr, List, [], ◌∷◌,
  ◌++◌, ◌==◌, Bool-cases, All, length,
}
use data_proxy_library.Common.Dict.{insert, Dict, find}
use data_proxy_library.Common.Exec.{ok, diverged, Exec, pure}
use data_proxy_library.Common.Exec.Rules.{Returns}
use data_proxy_library.Request.{Session}
use data_proxy_library.Node.Config.{OpConfig, process}
use data_proxy_library.Node.Returns.{IsResponsive}
use data_proxy_library.Router.Broadcast.{Route, stop}
use data_proxy_library.Nodes.{
  Endpoint, Node, Kind, data_node, router_node, commit_node, rollback_node, supports_transactions,
}
use data_proxy_library.Nodes.Returns.{NodeResponsive}
use data_proxy_library.Client.Transaction.{Environment, commit, rollback}
use data_proxy_library.Client.Requests.{forwarder}
use data_proxy_library.Client.Cycles.{check_nodes}
use data_proxy_library.Client.Cycles.Fuel.{check_nodes-returns}
use data_proxy_library.Client.Termination.{
  ClientResponsive, delete-comes_back, store-comes_back, load-comes_back,
}
use data_proxy_library.Client.Settle.{visit_all, failures, visit}
use data_proxy_library.Client.Invariant.{IsConsistent}
use data_proxy_library.Client.Initialize.{ConfigFile}
use data_proxy_library.Client.History.{
  Call, initializes, stores, deletes, begins, run, new_client, InitializesIdle, run-IsConsistent,
}
use data_proxy_library.Client.Completion.{commit_lem, rollback_lem}

abbrev pub Log : Type 0
Log = List String

abbrev side : OpConfig Log
side = record {
  translator = none;
  transformers = [];
  required_parameters = [];
  retry_count = 0;
  forward_node_name = none;
  include_node_name_as_parameter = none;
  use_translated_parameters = false;
  use_transformed_stream = false;
  operation = process;
}

abbrev logs : String → Exec Log (Unit {0})
logs text log = (ok tt, log ++ text ∷ [])

abbrev endpoint : Bool → Endpoint Log
endpoint transactions = record {
  load_data = λ params. pure tt;
  store_data = λ params data_in. logs "store";
  delete_data = λ params. logs "delete";
  ping_data = λ mode. logs "ping";
  has_transactions = transactions;
  commit_data = logs "commit";
  rollback_data = logs "rollback";
}

abbrev node : String → Kind Log → Node Log
node name kind = record {
  config = record {
    name = name;
    read = side;
    write = side;
    delete = side;
    tee = record {
      tee_to = none;
      tee_translated_parameters = false;
      tee_transformed_stream = false;
    };
  };
  kind = kind;
}

abbrev routes : List Route
routes =
    record { node_name = "a"; is_critical = true }
    ∷ record { node_name = "b"; is_critical = false }
    ∷ []

abbrev router : Kind Log
router = router_node (record {
  read_route = some "a";
  read_enabled = true;
  write_route = routes;
  write_enabled = true;
  on_critical_write_error = stop;
  delete_route = routes;
  delete_enabled = true;
  on_critical_delete_error = stop;
})

abbrev pub env : Environment Log
env = record {
  initialized = true;
  nodes =
      ("a", node "a" (data_node (endpoint true)))
      ∷ ("b", node "b" (data_node (endpoint false)))
      ∷ ("r", node "r" router)
      ∷ [];
  platform = record {
    passed = λ bytes. 0;
    stops_at = λ name params data_in s. length data_in.bytes;
    partition_library = record {
      header_tokens = λ header. [];
      sort_by = λ i bytes. pure (0, bytes);
      read_rows = λ bytes columns i. ([], none);
    };
  };
}

-- What holds of every value of a map holds of what is found in it.
find-All :
    {V : Type 0} (P : V → Type 0) (m : Dict V) (k : String) (v : V)
    → All (λ e. P e.1) m
    → find k m ≡ some v
    → P v
unfolding find
find-All P [] k v h e = absurd (cc)
find-All P ((j, w) ∷ m) k v (h, hs) e = elim (Bool-cases (j == k)) [
  | inl p ↦ let same : w ≡ v = ground arith in subst P same h
  | inr p ↦ let found : find k m ≡ some v = ground arith in find-All P m k v hs found
]

side-IsResponsive : IsResponsive side
side-IsResponsive = record { translates = λ tr e. absurd (cc); transforms = tt }

data-NodeResponsive :
    (name : String) (t : Bool) → NodeResponsive (node name (data_node (endpoint t)))
data-NodeResponsive name t = record {
  reads = side-IsResponsive;
  writes = side-IsResponsive;
  deletes = side-IsResponsive;
  acts = record {
    loads = λ p. record { at = λ s e. cc };
    stores = λ p d. record { at = λ s e. cc };
    deletes = λ p. record { at = λ s e. cc };
    commits = record { at = λ s e. cc };
    rolls_back = record { at = λ s e. cc };
  };
}

router-NodeResponsive : NodeResponsive (node "r" router)
router-NodeResponsive = record {
  reads = side-IsResponsive;
  writes = side-IsResponsive;
  deletes = side-IsResponsive;
  acts = tt;
}

env-Responsive : ClientResponsive env
env-Responsive = record {
  nodes_act = λ name n e.
      find-All NodeResponsive env.nodes name n
        (data-NodeResponsive "a" true, (data-NodeResponsive "b" false, (router-NodeResponsive, tt)))
        e;
  sorts = λ i b. record { at = λ s e. cc };
}

check_nodes-returns_example : check_nodes env.nodes 3 env.nodes ≢ diverged
check_nodes-returns_example = check_nodes-returns env.nodes

delete-comes_back_example : Returns ((forwarder env 4).delete "r" [])
unfolding check_nodes insert find
delete-comes_back_example = delete-comes_back env env-Responsive refl "r" []

store-comes_back_example :
    Returns ((forwarder env 4).store "r" [] (record { bytes = 1 ∷ []; pos = 0 }))
unfolding check_nodes insert find
store-comes_back_example =
    store-comes_back env env-Responsive refl "r" [] (record { bytes = 1 ∷ []; pos = 0 })

load-comes_back_example : Returns ((forwarder env 7).load "r" [])
unfolding check_nodes insert find
load-comes_back_example = load-comes_back env env-Responsive refl "r" []

-- A file with the nodes of the test client.
abbrev pub file_of : String → ConfigFile Log
file_of sum = record {
  md5 = sum;
  clear_connections = λ log. log;
  read_nodes = λ (nodes, log). (ok tt, (env.nodes, log));
  parse_connections = pure tt;
}

-- The second initialization ends a transaction in which nothing is pending.
abbrev calls : List (Call Log)
calls =
    initializes (some (file_of "first"))
    ∷ begins false
    ∷ initializes (some (file_of "second"))
    ∷ begins false
    ∷ stores "r" [] (record { bytes = 1 ∷ []; pos = 0 })
    ∷ deletes "a" []
    ∷ []

calls-InitializesIdle : InitializesIdle env.platform 4 calls (new_client [])
unfolding InitializesIdle insert find
calls-InitializesIdle = ((refl, refl), (tt, ((refl, refl), (tt, (tt, (tt, tt))))))

run-IsConsistent_example :
    IsConsistent
      (run env.platform 4 calls (new_client [])).nodes
      (run env.platform 4 calls (new_client [])).session
run-IsConsistent_example = run-IsConsistent env.platform 4 calls [] calls-InitializesIdle

run_pending : (run env.platform 4 calls (new_client [])).session.pending_commits ≡ "a" ∷ "r" ∷ []
unfolding run insert find data_proxy_library.Node.Attempts.attempts
    data_proxy_library.Node.Attempts.rounds
run_pending = refl

abbrev pub open_session : Session Log
open_session = record {
  inside = true;
  pending_commits = "a" ∷ "r" ∷ [];
  pending_rollbacks = [];
  auto_committed = "b" ∷ [];
  world = [];
}

-- The node that a name stands for, and that it takes part in transactions.
open_session-IsConsistent : IsConsistent env.nodes open_session
unfolding find supports_transactions
open_session-IsConsistent = record {
  commits_distinct = (refl, (refl, tt));
  rollbacks_distinct = tt;
  apart = λ x h. refl;
  commits_known =
      ((node "a" (data_node (endpoint true)), refl, refl), ((node "r" router, refl, refl), tt));
  rollbacks_known = tt;
  auto_distinct = (refl, tt);
  idle = λ h. absurd (cc);
}

commit-Returns : (n : String) → Returns (visit env.nodes commit_node n)
unfolding find commit_node
commit-Returns n = record { at = λ s e. ground arith }

rollback-Returns : (n : String) → Returns (visit env.nodes rollback_node n)
unfolding find rollback_node
rollback-Returns n = record { at = λ s e. ground arith }

commit_lem_example : commit env open_session ≡ (
  ok tt,
  record {
    inside = false;
    pending_commits = [];
    pending_rollbacks = [];
    auto_committed = [];
    world = "commit" ∷ [];
  },
)
unfolding failures find commit_node visit_all
commit_lem_example =
    commit_lem env open_session refl refl open_session-IsConsistent commit-Returns rollback-Returns

rollback_lem_example : rollback env open_session ≡ (
  ok tt,
  record {
    inside = false;
    pending_commits = [];
    pending_rollbacks = [];
    auto_committed = [];
    world = "rollback" ∷ [];
  },
)
unfolding visit_all find rollback_node
rollback_lem_example =
    rollback_lem env open_session refl refl open_session-IsConsistent commit-Returns
      rollback-Returns
