-- ===== src/Client/Initialize/Tests.antt =====
-- Initialization of the test client from a file with the same nodes.
use data_proxy_library.Common.{◌≡◌, refl, true, false, some, [], ◌∷◌}
use data_proxy_library.Common.Dict.{insert, find}
use data_proxy_library.Common.Exec.{unknown_node, err}
use data_proxy_library.Client.Tests.{Log, env, open_session, file_of}
use data_proxy_library.Client.Initialize.{
  ClientState, ConfigFile, IsAccepted, cleared, initialize, initialize-Accepted, initialize-pending,
}

abbrev file : ConfigFile Log
file = file_of "new"

abbrev idle_client : ClientState Log
idle_client = record {
  initialized = true;
  nodes = env.nodes;
  config_md5 = "old";
  session = record open_session { inside = false; pending_commits = [] };
}

abbrev busy_client : ClientState Log
busy_client = record idle_client { session = open_session }

initialize-Accepted_example :
    IsAccepted env.platform (initialize env.platform (some file) idle_client).1
unfolding initialize insert find
initialize-Accepted_example = initialize-Accepted env.platform file idle_client refl refl

initialize-pending_example :
    initialize env.platform (some file) busy_client
    ≡ (err (unknown_node "a"), cleared env.platform file busy_client)
initialize-pending_example =
    initialize-pending env.platform file busy_client "a" ("r" ∷ []) refl refl refl refl
