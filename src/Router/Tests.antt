-- ===== src/Router/Tests.antt =====
-- A router's broadcast over destinations that log their names, of which "bad" throws.
use data_proxy_library.Common.Dict.{insert}
use data_proxy_library.Common.{
  ℕ, length, none, String, ◌≡◌, refl, true, false, List, [], ◌∷◌, ◌++◌, Bool-cases, inl, inr, ◌==◌,
  if◌then◌else◌,
}
use data_proxy_library.Common.Exec.{std, critical_failures, Result, ok, err, Exec, pure}
use data_proxy_library.Common.Exec.Rules.{Returns}
use data_proxy_library.Request.{Input, Session, Forwarder}
use data_proxy_library.Router.{RouterConfig, store_impl}
use data_proxy_library.Router.Rewind.{store_impl_lem}
use data_proxy_library.Router.Broadcast.{Route, stop, finish_criticals, finish_all, broadcast}
use data_proxy_library.Router.Outcome.{any_success, is_quiet, failed_criticals, send_all, criticals}
use data_proxy_library.Router.Verdict.{
  broadcast-finish_all, broadcast-quiet, broadcast-stop, broadcast-finish_criticals,
}

abbrev answer_of : String → Result (Unit {0})
answer_of name = if name == "bad" then err (std 1) else ok tt

abbrev send : String → Exec (List String) (Unit {0})
send name log = (answer_of name, log ++ name ∷ [])

send-Returns : (name : String) → Returns (send name)
send-Returns name = elim (Bool-cases (name == "bad")) [
  | inl p ↦ record { at = λ s. rw p (λ e. cc) }
  | inr p ↦ record { at = λ s. rw p (λ e. cc) }
]

abbrev good : Route
good = record { node_name = "good"; is_critical = false }

abbrev other : Route
other = record { node_name = "other"; is_critical = true }

abbrev bad : Route
bad = record { node_name = "bad"; is_critical = true }

broadcast-finish_all_example :
    broadcast finish_all "router" send (bad ∷ good ∷ other ∷ []) []
    ≡ (err (critical_failures ("bad" ∷ [])), "bad" ∷ "good" ∷ "other" ∷ [])
unfolding failed_criticals send_all insert
broadcast-finish_all_example =
    broadcast-finish_all "router" send send-Returns bad (good ∷ other ∷ []) []

broadcast-quiet_example :
    broadcast stop "router" send (good ∷ other ∷ []) [] ≡ (ok tt, "good" ∷ "other" ∷ [])
unfolding is_quiet any_success send_all
broadcast-quiet_example = broadcast-quiet "router" send send-Returns stop good (other ∷ []) [] refl

broadcast-stop_example :
    broadcast stop "router" send (good ∷ bad ∷ other ∷ []) [] ≡ (err (std 1), "good" ∷ "bad" ∷ [])
unfolding is_quiet send_all
broadcast-stop_example =
    broadcast-stop "router" send send-Returns (good ∷ []) (other ∷ []) bad [] (std 1) refl refl refl

broadcast-finish_criticals_example :
    broadcast finish_criticals "router" send (good ∷ bad ∷ good ∷ other ∷ []) []
    ≡ (err (critical_failures ("bad" ∷ [])), "good" ∷ "bad" ∷ "other" ∷ [])
unfolding is_quiet failed_criticals send_all criticals insert
broadcast-finish_criticals_example =
    broadcast-finish_criticals "router" send send-Returns (good ∷ []) (good ∷ other ∷ []) bad []
      (std 1) refl refl refl

-- The world is the positions at which stores have found the stream; each reads it to its end.
abbrev forwarder : Forwarder (List ℕ)
forwarder = record {
  load = λ name params. pure tt;
  store = λ name params data_in s. (ok tt, record s { world = s.world ++ data_in.pos ∷ [] });
  delete = λ name params. pure tt;
  ping = λ name mode. pure tt;
  stops_at = λ name params data_in s. length data_in.bytes;
}

abbrev router : RouterConfig
router = record {
  read_route = none;
  read_enabled = false;
  write_route = good ∷ other ∷ [];
  write_enabled = true;
  on_critical_write_error = stop;
  delete_route = [];
  delete_enabled = false;
  on_critical_delete_error = stop;
}

abbrev data_in : Input
data_in = record { bytes = 5 ∷ 6 ∷ 7 ∷ []; pos = 1 }

abbrev session_at : List ℕ → Session (List ℕ)
session_at positions = record {
  inside = false;
  pending_commits = [];
  pending_rollbacks = [];
  auto_committed = [];
  world = positions;
}

store_impl_lem_example :
    store_impl forwarder "router" router [] data_in (session_at [])
    ≡ (ok tt, session_at (1 ∷ 1 ∷ []))
unfolding broadcast
store_impl_lem_example = store_impl_lem forwarder "router" router [] data_in (session_at [])
