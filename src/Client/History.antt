-- ===== src/Client/History.antt =====
-- The calls of a client, one after the other.
use data_proxy_library.Common.{ℕ, String, Bool, false, Option, List, [], ◌∷◌, refl}
use data_proxy_library.Request.{Params, Bytes, Input, Session}
use data_proxy_library.Nodes.{Platform}
use data_proxy_library.Client.Transaction.{begin_transaction, commit, rollback}
use data_proxy_library.Client.Requests.{forwarder}
use data_proxy_library.Client.Initialize.{ClientState, ConfigFile, environment, initialize}
use data_proxy_library.Client.Initialize.Consistent.{IsIdle, initialize-Consistent}
use data_proxy_library.Client.Invariant.{IsConsistent}
use data_proxy_library.Client.Invariant.Calls.{
  begin_transaction-Consistent, commit-Consistent, rollback-Consistent, forwarder-Consistent,
}

-- The public operations of DataProxyClient that touch its transaction. An initialization has the
-- configuration file that it finds, if there is one.
pub data Call (W : Type 0) : Type 0 where
  initializes : Option (ConfigFile W) → Call W
  loads : String → Params → Bytes → Call W
  stores : String → Params → Input → Call W
  deletes : String → Params → Call W
  begins : Bool → Call W
  commits rolls_back : Call W

-- A new client: it has no nodes, and nothing is pending.
abbrev pub new_client : {W : Type 0} → W → ClientState W
new_client w = record {
  initialized = false;
  nodes = [];
  config_md5 = "";
  session = record {
    inside = false;
    pending_commits = [];
    pending_rollbacks = [];
    auto_committed = [];
    world = w;
  };
}

module _ {W : Type 0} (platform : Platform W) (depth : ℕ) where
  -- The session changes, and the rest of the client stays.
  abbrev with_session : ClientState W → Session W → ClientState W
  with_session c s = record c { session = s }

  -- The client after a call, whether it has returned or thrown.
  unfoldable pub step : Call W → ClientState W → ClientState W
  unfolding initialize forwarder begin_transaction commit rollback
  step (initializes file) c = (initialize platform file c).1
  step (loads name params out) c =
      with_session c
        ((forwarder (environment platform c) depth).load name params (out, c.session)).1.1
  step (stores name params data_in) c =
      with_session c
        ((forwarder (environment platform c) depth).store name params data_in c.session).1
  step (deletes name params) c =
      with_session c ((forwarder (environment platform c) depth).delete name params c.session).1
  step (begins abort_current) c =
      with_session c (begin_transaction (environment platform c) abort_current c.session).1
  step commits c = with_session c (commit (environment platform c) c.session).1
  step rolls_back c = with_session c (rollback (environment platform c) c.session).1

  unfoldable pub run : List (Call W) → ClientState W → ClientState W
  unfolding step
  run [] c = c
  run (x ∷ xs) c = run xs (step x c)

  -- Where the call is an initialization, no node is pending.
  abbrev pub MayCall : Call W → ClientState W → Type 0
  MayCall (initializes file) c = IsIdle c.session
  MayCall (loads name params out) c = Unit {0}
  MayCall (stores name params data_in) c = Unit {0}
  MayCall (deletes name params) c = Unit {0}
  MayCall (begins abort_current) c = Unit {0}
  MayCall commits c = Unit {0}
  MayCall rolls_back c = Unit {0}

  -- No initialization of the history finds pending nodes.
  unfoldable pub InitializesIdle : List (Call W) → ClientState W → Type 0
  unfolding step
  InitializesIdle [] c = Unit {0}
  InitializesIdle (x ∷ xs) c = MayCall x c × InitializesIdle xs (step x c)

  abbrev pub IsConsistentClient : ClientState W → Type 0
  IsConsistentClient c = IsConsistent c.nodes c.session

  step-IsConsistent :
      (x : Call W) (c : ClientState W)
      → MayCall x c
      → IsConsistentClient c
      → IsConsistentClient (step x c)
  unfolding step
  step-IsConsistent (initializes file) c i v = initialize-Consistent platform file c i v
  step-IsConsistent (loads name params out) c i v =
      ((forwarder-Consistent (environment platform c) depth).loads name params).at (out, c.session)
        v
  step-IsConsistent (stores name params data_in) c i v =
      ((forwarder-Consistent (environment platform c) depth).stores name params data_in).at
        c.session v
  step-IsConsistent (deletes name params) c i v =
      ((forwarder-Consistent (environment platform c) depth).deletes name params).at c.session v
  step-IsConsistent (begins abort_current) c i v =
      (begin_transaction-Consistent (environment platform c) abort_current).at c.session v
  step-IsConsistent commits c i v = (commit-Consistent (environment platform c)).at c.session v
  step-IsConsistent rolls_back c i v = (rollback-Consistent (environment platform c)).at c.session v

  run-Keeps :
      (xs : List (Call W)) (c : ClientState W)
      → InitializesIdle xs c
      → IsConsistentClient c
      → IsConsistentClient (run xs c)
  unfolding run InitializesIdle
  run-Keeps [] c i v = v
  run-Keeps (x ∷ xs) c (i, is) v = run-Keeps xs (step x c) is (step-IsConsistent x c i v)

  -- After any history of calls of a new client, initializations from any configuration files
  -- among them, at any depth of forwarding and whichever calls have thrown, where no
  -- initialization is called while nodes are pending: each pending node is known to the client as
  -- it is then, supports transactions and is listed once, for commit or for rollback and never
  -- both, no auto-committed node is listed twice, and outside a transaction all three lists are
  -- empty.
  pub run-IsConsistent :
      (xs : List (Call W)) (w : W)
      → InitializesIdle xs (new_client w)
      → IsConsistent (run xs (new_client w)).nodes (run xs (new_client w)).session
  run-IsConsistent xs w i = run-Keeps xs (new_client w) i (record {
    commits_distinct = tt;
    rollbacks_distinct = tt;
    apart = λ x h. refl;
    commits_known = tt;
    rollbacks_known = tt;
    auto_distinct = tt;
    idle = λ o. (refl, refl, refl);
  })
