-- ===== src/Client/Termination.antt =====
-- Requests of a client whose configuration CheckForCycles has accepted come back.
use data_proxy_library.Common.{
  ℕ, zero, suc, ◌+◌, String, ◌≡◌, subst, Bool, not, some, inl, inr, [], arith, Option-cases,
  Bool-cases, length,
}
use data_proxy_library.Common.Dict.{find}
use data_proxy_library.Common.Exec.{ok, Exec, ◌>>=◌, uninitialized, unknown_node}
use data_proxy_library.Common.Exec.Rules.{Returns, Returns-pure, Returns-raise, Returns-bind}
use data_proxy_library.Request.{Params, Bytes, Input, Forwarder, insert_forward}
use data_proxy_library.Node.Returns.{beside-Returns}
use data_proxy_library.Node.Returns.Requests.{delete-Returns, store-Returns, load-Returns}
use data_proxy_library.Nodes.{
  Node, Kind, data_node, router_node, partition_node, commit_node, rollback_node, node_load,
  node_store, node_delete, kind_load, kind_store, kind_delete, insert_read_forwards,
  insert_write_forwards, insert_delete_forwards,
}
use data_proxy_library.Nodes.Returns.{
  KindResponsive, NodeResponsive, contains-read_forward, contains-write_forward,
  contains-delete_forward, kind_load-Returns, kind_store-Returns, kind_delete-Returns,
}
use data_proxy_library.Client.Transaction.{Environment, handle_result}
use data_proxy_library.Client.Requests.{
  find_node, load_request, store_request, delete_request, forwarder,
}
use data_proxy_library.Client.Cycles.{read_path, write_path, delete_path, forwards_of, check_nodes}
use data_proxy_library.Client.Cycles.Bounded.{Bounded, Bounded-mono, check_nodes-Bounded}

module _ {W : Type 0} where
  commit_node-Returns : (kind : Kind W) → KindResponsive kind → Returns (commit_node kind)
  unfolding commit_node
  commit_node-Returns (data_node endpoint) v = v.commits
  commit_node-Returns (router_node router) v = Returns-pure tt
  commit_node-Returns (partition_node partition) v = Returns-pure tt

  rollback_node-Returns : (kind : Kind W) → KindResponsive kind → Returns (rollback_node kind)
  unfolding rollback_node
  rollback_node-Returns (data_node endpoint) v = v.rolls_back
  rollback_node-Returns (router_node router) v = Returns-pure tt
  rollback_node-Returns (partition_node partition) v = Returns-pure tt

  handle_result-Returns :
      (name : String) (kind : Kind W) (success : Bool)
      → KindResponsive kind
      → Returns (handle_result name kind success)
  unfolding handle_result
  handle_result-Returns name kind success v = record {
    at = λ s.
        ground (
          arith,
          (commit_node-Returns kind v).at s.world,
          (rollback_node-Returns kind v).at s.world,
        );
  }

  find_node-Returns :
      {S A : Type 0} (env : Environment W) (name : String) (f : Node W → Exec S A)
      → ((node : Node W) → find name env.nodes ≡ some node → Returns (f node))
      → Returns (find_node env name >>= f)
  unfolding find_node
  find_node-Returns env name f h = elim (Bool-cases (not env.initialized)) [
    | inl c ↦ rw (c, find_node) (Returns-raise uninitialized)
    | inr c ↦ elim (Option-cases (find name env.nodes)) [
      | inl e ↦ rw (c, e, find_node) (Returns-raise (unknown_node name))
      | inr (node, e) ↦ rw (c, e, find_node) (h node e)
    ]
  ]

  -- What the nodes of a client call comes back.
  pub record ClientResponsive (env : Environment W) : Type 0 where
    pub nodes_act :
        (name : String) (node : Node W) → find name env.nodes ≡ some node → NodeResponsive node
    pub sorts : (i : ℕ) (b : Bytes) → Returns (env.platform.partition_library.sort_by i b)

deeper : ℕ → ℕ → ℕ
deeper zero k = k
deeper (suc n) k = suc (deeper n k)

deeper-eq-add : (n k : ℕ) → deeper n k ≡ n + k
unfolding deeper
deeper-eq-add zero k = omega arith
deeper-eq-add (suc n) k = omega (arith, deeper-eq-add n k)

module _ {W : Type 0} (env : Environment W) (responsive : ClientResponsive env) where
  delete_within :
      (n : ℕ) (name : String)
      → Bounded env.nodes delete_path n name
      → (p : Params) → Returns ((forwarder env (suc n)).delete name p)
  unfolding forwarder delete_request node_delete forwards_of insert_delete_forwards
  delete_within zero name b p = find_node-Returns env name _ (λ node e. absurd (cc))
  delete_within (suc n) name b p = find_node-Returns env name _ λ node e.
      let v = responsive.nodes_act name node e in
      let fw : Forwarder W = forwarder env (suc n) in
      Returns-bind _ _
        (delete-Returns fw node.config (kind_delete fw node.config.name node.kind)
          (kind_delete-Returns env.platform fw node.config.name
            (insert_forward node.config.delete.forward_node_name []) node.kind v.acts
            (λ m c. delete_within n m (b node e m c)))
          v.deletes (λ m c. delete_within n m (b node e m (contains-delete_forward node m c))) p)
        (λ success. handle_result-Returns name node.kind success v.acts)

  store_within :
      (n : ℕ) (name : String)
      → Bounded env.nodes write_path n name
      → (p : Params) (d : Input) → Returns ((forwarder env (suc n)).store name p d)
  unfolding forwarder store_request node_store forwards_of insert_write_forwards
  store_within zero name b p d = find_node-Returns env name _ (λ node e. absurd (cc))
  store_within (suc n) name b p d = find_node-Returns env name _ λ node e.
      let v = responsive.nodes_act name node e in
      let fw : Forwarder W = forwarder env (suc n) in
      Returns-bind _ _
        (store-Returns fw node.config (kind_store env.platform fw node.config.name node.kind)
          (kind_store-Returns env.platform fw node.config.name
            (insert_forward node.config.write.forward_node_name []) node.kind v.acts
            responsive.sorts (λ m c. store_within n m (b node e m c)))
          v.writes (λ m c. store_within n m (b node e m (contains-write_forward node m c))) p d)
        (λ success. handle_result-Returns name node.kind success v.acts)

  -- Loads tee into stores, so they need the room for these at every step.
  load_within :
      (k : ℕ)
      → ((n : ℕ) (m : String) → Bounded env.nodes write_path (deeper n k) m)
      → (n : ℕ) (name : String) → Bounded env.nodes read_path n name
      → (p : Params) → Returns ((forwarder env (suc (deeper n k))).load name p)
  unfolding forwarder load_request node_load forwards_of insert_read_forwards deeper
  load_within k w zero name b p = find_node-Returns env name _ (λ node e. absurd (cc))
  load_within k w (suc n) name b p = find_node-Returns env name _ λ node e.
      let v = responsive.nodes_act name node e in
      let fw : Forwarder W = forwarder env (suc (deeper n k)) in
      Returns-bind _ _
        (load-Returns fw node.config env.platform.passed (kind_load fw node.config.name node.kind)
          (kind_load-Returns env.platform fw node.config.name
            (insert_forward node.config.read.forward_node_name []) node.kind v.acts
            (λ m c. load_within k w n m (b node e m c)))
          v.reads (λ m c. load_within k w n m (b node e m (contains-read_forward node m c)))
          (λ m c. store_within (deeper n k) m (w n m)) p)
        (λ success. beside-Returns _ (handle_result-Returns name node.kind success v.acts))

  Bounded-deeper :
      (k n : ℕ) (m : String)
      → Bounded env.nodes write_path k m
      → Bounded env.nodes write_path (deeper n k) m
  unfolding deeper
  Bounded-deeper k zero m b = b
  Bounded-deeper k (suc n) m b =
      Bounded-mono env.nodes write_path (deeper n k) m (Bounded-deeper k n m b)

  -- The depth of forwarding that a client with these nodes needs.
  abbrev pub enough_depth : ℕ
  enough_depth = suc (length env.nodes)

  module _ (accepted : check_nodes env.nodes (length env.nodes) env.nodes ≡ ok tt) where
    -- Where CheckForCycles has accepted the configuration and the endpoints, translators,
    -- transformers and the sort return or throw, every Delete returns or throws, forwarding no
    -- deeper than one step more than there are nodes.
    pub delete-comes_back :
        (name : String) (p : Params) → Returns ((forwarder env enough_depth).delete name p)
    delete-comes_back name p =
        delete_within (length env.nodes) name
          (check_nodes-Bounded env.nodes (length env.nodes) delete_path name accepted) p

    -- Where CheckForCycles has accepted the configuration and the endpoints, translators,
    -- transformers and the sort return or throw, every Store returns or throws, forwarding no
    -- deeper than one step more than there are nodes.
    pub store-comes_back :
        (name : String) (p : Params) (d : Input)
        → Returns ((forwarder env enough_depth).store name p d)
    store-comes_back name p d =
        store_within (length env.nodes) name
          (check_nodes-Bounded env.nodes (length env.nodes) write_path name accepted) p d

    -- Where CheckForCycles has accepted the configuration and the endpoints, translators,
    -- transformers and the sort return or throw, every Load returns or throws. As it may tee at
    -- each of its steps, it may go twice as deep as a Store.
    pub load-comes_back :
        (name : String) (p : Params)
        → Returns ((forwarder env (suc (length env.nodes + length env.nodes))).load name p)
    load-comes_back name p =
        subst (λ d. Returns ((forwarder env (suc d)).load name p))
          (deeper-eq-add (length env.nodes) (length env.nodes))
          (load_within (length env.nodes)
            (λ n m.
              Bounded-deeper (length env.nodes) n m
                (check_nodes-Bounded env.nodes (length env.nodes) write_path m accepted))
            (length env.nodes) name
            (check_nodes-Bounded env.nodes (length env.nodes) read_path name accepted) p)
