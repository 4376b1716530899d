-- ===== src/Client/Initialize.antt =====
-- DataProxyClient::InitializeImplementation, with the reading of the XML file as a parameter.
pub mod Consistent
pub mod Tests
use data_proxy_library.Common.{
  String, ◌≡◌, refl, Bool, true, false, Option, none, some, List, [], ◌∷◌, ◌==◌, length,
  if◌then◌else◌, arith,
}
use data_proxy_library.Common.Dict.{Dict, find}
use data_proxy_library.Common.Exec.{
  no_config_file, unknown_node, Result, ok, err, diverged, Exec, raise, continue, ◌>>◌,
}
use data_proxy_library.Request.{Session}
use data_proxy_library.Nodes.{Node, Platform}
use data_proxy_library.Client.Transaction.{Environment, rollback, settle, settle_commits}
use data_proxy_library.Client.Cycles.{check_nodes}

-- The members of a client.
pub record ClientState (W : Type 0) : Type 0 where
  pub initialized : Bool
  pub nodes : Dict (Node W)
  pub config_md5 : String
  pub session : Session W

-- A configuration file that exists: its sum, what ClearConnections does, the reading of the file up
-- to the last node, which adds nodes to those of the client, and ParseConnectionsByTable.
pub record ConfigFile (W : Type 0) : Type 0 where
  pub md5 : String
  pub clear_connections : W → W
  pub read_nodes : Exec (Dict (Node W) × W) (Unit {0})
  pub parse_connections : Exec W (Unit {0})

module _ {W : Type 0} (platform : Platform W) where
  abbrev pub environment : ClientState W → Environment W
  environment c = record { initialized = c.initialized; nodes = c.nodes; platform = platform }

  abbrev pub cleared : ConfigFile W → ClientState W → ClientState W
  cleared file c = record c {
    nodes = [];
    session = record (c.session) { world = file.clear_connections c.session.world };
  }

  abbrev pub roll_back : Exec (ClientState W) (Unit {0})
  roll_back c =
      let done = rollback (environment c) c.session in (done.0, record c { session = done.1 })

  -- A client that has been initialized starts over.
  unfoldable pub start_over : ConfigFile W → Exec (ClientState W) (Unit {0})
  unfolding rollback
  start_over file c =
      if c.initialized then roll_back (cleared file c) else (ok tt, record c { initialized = true })

  unfoldable pub read_file : ConfigFile W → Exec (ClientState W) (Unit {0})
  read_file file c =
      let done = file.read_nodes (c.nodes, c.session.world) in
      (done.0, record c { nodes = done.1.0; session = record (c.session) { world = done.1.1 } })

  unfoldable pub check_configuration : Exec (ClientState W) (Unit {0})
  unfolding check_nodes
  check_configuration c = (check_nodes c.nodes (length c.nodes) c.nodes, c)

  unfoldable pub finish_file : ConfigFile W → Exec (ClientState W) (Unit {0})
  finish_file file c =
      let done = file.parse_connections c.session.world in
      let c' = record c { session = record (c.session) { world = done.1 } } in
      continue done.0 (λ _ c''. (ok tt, record c'' { config_md5 = file.md5 })) c'

  unfoldable pub initialize : Option (ConfigFile W) → Exec (ClientState W) (Unit {0})
  unfolding start_over read_file check_configuration finish_file
  initialize none c = raise no_config_file c
  initialize (some file) c =
      if file.md5 == c.config_md5
      then (ok tt, record c { initialized = true })
      else (start_over file >> read_file file >> check_configuration >> finish_file file) c

  -- The cycle check accepts the nodes of the client.
  abbrev pub IsAccepted : ClientState W → Type 0
  IsAccepted c = check_nodes c.nodes (length c.nodes) c.nodes ≡ ok tt

  note_md5-Accepted :
      (r : Result (Unit {0})) (file : ConfigFile W) (c : ClientState W)
      → IsAccepted c
      → IsAccepted (continue r (λ _ c'. (ok tt, record c' { config_md5 = file.md5 })) c).1
  note_md5-Accepted (ok _) file c h = h
  note_md5-Accepted (err e) file c h = h
  note_md5-Accepted diverged file c h = h

  finish_file-Accepted :
      (file : ConfigFile W) (c : ClientState W) → IsAccepted c → IsAccepted (finish_file file c).1
  unfolding finish_file
  finish_file-Accepted file c h =
      let done = file.parse_connections c.session.world in
      note_md5-Accepted done.0 file (record c { session = record (c.session) { world = done.1 } }) h

  -- What has come to its end behind the check has passed it.
  behind_check-Accepted :
      (file : ConfigFile W) (checked : Result (Unit {0})) (c : ClientState W)
      → check_nodes c.nodes (length c.nodes) c.nodes ≡ checked
      → (continue checked (λ _. finish_file file) c).0 ≡ ok tt
      → IsAccepted (continue checked (λ _. finish_file file) c).1
  behind_check-Accepted file (ok _) c e h = finish_file-Accepted file c e
  behind_check-Accepted file (err x) c e h = absurd (cc)
  behind_check-Accepted file diverged c e h = absurd (cc)

  read_and_check-Accepted :
      (file : ConfigFile W) (r : Result (Unit {0})) (c : ClientState W)
      → (((λ s. (r, s)) >> check_configuration >> finish_file file) c).0 ≡ ok tt
      → IsAccepted (((λ s. (r, s)) >> check_configuration >> finish_file file) c).1
  unfolding check_configuration
  read_and_check-Accepted file (ok _) c h =
      behind_check-Accepted file (check_nodes c.nodes (length c.nodes) c.nodes) c refl h
  read_and_check-Accepted file (err x) c h = absurd (cc)
  read_and_check-Accepted file diverged c h = absurd (cc)

  -- Where the MD5 sum of the configuration file is not the client's last one, an initialization
  -- that returns leaves the client with nodes that the check for cycles accepts.
  pub initialize-Accepted :
      (file : ConfigFile W) (c : ClientState W)
      → (file.md5 == c.config_md5) ≡ false
      → (initialize (some file) c).0 ≡ ok tt
      → IsAccepted (initialize (some file) c).1
  unfolding initialize
  initialize-Accepted file c changed =
      let read = (start_over file >> read_file file) c in
      rw (changed, initialize) (read_and_check-Accepted file read.0 read.1)

  -- Where the MD5 sum of the configuration file is not the client's last one, initializing an
  -- initialized client again inside a transaction in which nodes are pending for commit throws
  -- that the first of them is unknown. The client's nodes are gone and its connections cleared by
  -- then, and nothing has been rolled back: all that was pending still is.
  pub initialize-pending :
      (file : ConfigFile W) (c : ClientState W) (n : String) (ns : List String)
      → (file.md5 == c.config_md5) ≡ false
      → c.initialized ≡ true
      → c.session.inside ≡ true
      → c.session.pending_commits ≡ n ∷ ns
      → initialize (some file) c ≡ (err (unknown_node n), cleared file c)
  unfolding initialize start_over rollback settle_commits settle find
  initialize-pending file c n ns changed ready inside pending = ground arith
