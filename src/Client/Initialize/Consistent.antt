-- ===== src/Client/Initialize/Consistent.antt =====
-- What an initialization makes of the transaction of a client.
use data_proxy_library.Common.{
  String, Option, none, some, List, [], ◌∷◌, All, ◌≡◌, ◌==◌, true, inl, inr, Bool-cases,
}
use data_proxy_library.Common.Dict.{Dict, find}
use data_proxy_library.Common.Exec.{ok, ◌>>◌}
use data_proxy_library.Common.Exec.Rules.{Keeps, Keeps-bind, continue-Keeps, if-lands}
use data_proxy_library.Request.{Session}
use data_proxy_library.Nodes.{Node, Platform}
use data_proxy_library.Client.Settle.{IsTransactional}
use data_proxy_library.Client.Initialize.{
  ClientState, ConfigFile, environment, cleared, roll_back, start_over, read_file,
  check_configuration, finish_file, initialize,
}
use data_proxy_library.Client.Invariant.{IsConsistent, any_world}
use data_proxy_library.Client.Invariant.Calls.{rollback-Consistent}

module _ {W : Type 0} where
  -- The session has no pending nodes.
  abbrev pub IsIdle : Session W → Type 0
  IsIdle s = (s.pending_commits ≡ []) × (s.pending_rollbacks ≡ [])

  -- Without nodes, nothing can be pending.
  forget_nodes :
      (nodes : Dict (Node W)) (s : Session W) → IsIdle s → IsConsistent nodes s → IsConsistent [] s
  forget_nodes nodes s (no_commits, no_rollbacks) v = record {
    commits_distinct = v.commits_distinct;
    rollbacks_distinct = v.rollbacks_distinct;
    apart = v.apart;
    commits_known = rw no_commits tt;
    rollbacks_known = rw no_rollbacks tt;
    auto_distinct = v.auto_distinct;
    idle = v.idle;
  }

  none-IsTransactional :
      (nodes : Dict (Node W)) (ns : List String)
      → All (IsTransactional {W = W} []) ns
      → All (IsTransactional nodes) ns
  unfolding find
  none-IsTransactional nodes [] h = tt
  none-IsTransactional nodes (n ∷ ns) ((node, e, t), h) = absurd cc

  any_nodes : (nodes : Dict (Node W)) (s : Session W) → IsConsistent [] s → IsConsistent nodes s
  any_nodes nodes s v = record {
    commits_distinct = v.commits_distinct;
    rollbacks_distinct = v.rollbacks_distinct;
    apart = v.apart;
    commits_known = none-IsTransactional nodes s.pending_commits v.commits_known;
    rollbacks_known = none-IsTransactional nodes s.pending_rollbacks v.rollbacks_known;
    auto_distinct = v.auto_distinct;
    idle = v.idle;
  }

module _ {W : Type 0} (platform : Platform W) where
  -- Every step of an initialization keeps a transaction without pending nodes as it is or ends it.
  abbrev Unbound : ClientState W → Type 0
  Unbound c = IsConsistent [] c.session

  start_over-Unbound : (file : ConfigFile W) → Keeps Unbound (start_over platform file)
  unfolding start_over
  start_over-Unbound file = record {
    at = λ c v.
        if-lands Unbound c.initialized (roll_back platform (cleared platform file c))
          (ok tt, record c { initialized = true })
          (λ again.
            (rollback-Consistent (environment platform (cleared platform file c))).at
              (cleared platform file c).session (any_world [] c.session _ v))
          (λ first. v);
  }

  finish_file-Unbound : (file : ConfigFile W) → Keeps Unbound (finish_file platform file)
  unfolding finish_file
  finish_file-Unbound file = record {
    at = λ c v.
        let done = file.parse_connections c.session.world in
        continue-Keeps {P = Unbound} done.0
          (λ _ c''. (ok (tt {0}), record c'' { config_md5 = file.md5 }))
          (record c { session = record (c.session) { world = done.1 } })
          (any_world [] c.session _ v) (λ u. record { at = λ c' v'. v' });
  }

  start_again-Unbound :
      (file : ConfigFile W)
      → Keeps Unbound (
          start_over platform file
          >> read_file platform file
          >> check_configuration platform
          >> finish_file platform file)
  unfolding read_file check_configuration
  start_again-Unbound file =
      Keeps-bind _ _
        (Keeps-bind _ _
          (Keeps-bind (start_over platform file) (λ u. read_file platform file)
            (start_over-Unbound file) (λ u. record { at = λ c v. any_world [] c.session _ v }))
          (λ u. record { at = λ c v. v }))
        (λ u. finish_file-Unbound file)

  -- An initialization that finds nothing pending leaves a consistent client, whatever it returns.
  pub initialize-Consistent :
      (file : Option (ConfigFile W)) (c : ClientState W)
      → IsIdle c.session
      → IsConsistent c.nodes c.session
      → IsConsistent (initialize platform file c).1.nodes (initialize platform file c).1.session
  unfolding initialize
  initialize-Consistent none c i v = v
  initialize-Consistent (some file) c i v = elim (Bool-cases (file.md5 == c.config_md5)) [
    | inl same ↦ rw same v
    | inr changed ↦
        rw changed
          (any_nodes _ _ ((start_again-Unbound file).at c (forget_nodes c.nodes c.session i v)))
  ]
