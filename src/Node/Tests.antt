-- ===== src/Node/Tests.antt =====
-- Requests of a node with one retry, on endpoints that count their calls in the world.
use data_proxy_library.Common.{
  ℕ, suc, ◌+◌, ◌≡◌, refl, true, false, Option, none, some, [], ◌∷◌, nat_eq, if◌then◌else◌, arith,
  String,
}
use data_proxy_library.Common.Exec.{std, ok, err, Exec, pure, ◌>>◌}
use data_proxy_library.Common.Dict.{find}
use data_proxy_library.Request.{Params, Input, Session, Loading, Forwarder}
use data_proxy_library.Node.Config.{prepare, OpConfig, NodeConfig, process}
use data_proxy_library.Node.Delete.{delete}
use data_proxy_library.Node.Store.{transformed_input, store}
use data_proxy_library.Node.Load.{load}
use data_proxy_library.Node.Retry.{
  after, FailFirst, delete-retries, delete-overflow, delete-gives_up, delete-forwards, asked_for,
}
use data_proxy_library.Node.Stream.{store-retries, load-Atomic, IsAtomic}

abbrev fw : Forwarder ℕ
fw = record {
  load = λ name params. pure tt;
  store = λ name params data_in. pure tt;
  delete = λ name params s. (ok tt, record s { world = 100 });
  ping = λ name mode. pure tt;
  stops_at = λ name params data_in s. suc data_in.pos;
}

abbrev config_with : Option String → OpConfig ℕ
config_with target = record {
  translator = none;
  transformers = [];
  required_parameters = [];
  retry_count = 1;
  forward_node_name = target;
  include_node_name_as_parameter = none;
  use_translated_parameters = false;
  use_transformed_stream = false;
  operation = process;
}

abbrev node_with : Option String → NodeConfig ℕ
node_with target = record {
  name = "node";
  read = config_with target;
  write = config_with target;
  delete = config_with target;
  tee = record { tee_to = none; tee_translated_parameters = false; tee_transformed_stream = false };
}

abbrev session_at : ℕ → Session ℕ
session_at n = record {
  inside = false;
  pending_commits = [];
  pending_rollbacks = [];
  auto_committed = [];
  world = n;
}

-- The first call throws, the others do not.
abbrev flaky : Exec (Session ℕ) (Unit {0})
flaky s = ((if nat_eq s.world 0 then err (std 1) else ok tt), record s { world = suc s.world })

-- Every call throws.
abbrev broken : Exec (Session ℕ) (Unit {0})
broken s = (err (std 1), record s { world = suc s.world })

delete-retries_example :
    delete fw (node_with none) (λ _. flaky) [] (session_at 0) ≡ (ok true, session_at 2)
unfolding prepare FailFirst after
delete-retries_example =
    delete-retries fw (node_with none) (λ _. flaky) [] [] (session_at 0) refl (omega arith) refl 1 0
      refl ((std 1, refl), tt) refl

delete-gives_up_example :
    delete fw (node_with none) (λ _. broken) [] (session_at 0) ≡ (err (std 1), session_at 2)
unfolding prepare FailFirst after
delete-gives_up_example =
    delete-gives_up fw (node_with none) (λ _. broken) [] [] (session_at 0) refl (omega arith) refl
      (std 1) refl ((std 1, refl), tt) refl

-- What fails here is forwarded with the name of the node.
abbrev tagging : NodeConfig ℕ
tagging = record (node_with (some "spare")) {
  delete = record (config_with (some "spare")) { include_node_name_as_parameter = some "failed" };
}

abbrev request : Params
request = ("x", "1") ∷ []

delete-forwards_example :
    (q : Params) × (delete fw tagging (λ _. broken) request (session_at 0)
      ≡ (fw.delete "spare" q >> pure false) (session_at 2))
    × ((key : String) → find key q ≡ asked_for "node" tagging.delete request [] key)
unfolding prepare FailFirst after
delete-forwards_example =
    delete-forwards fw tagging (λ _. broken) request request (session_at 0) refl (omega arith) refl
      (std 1) "spare" refl ((std 1, refl), tt) refl

abbrev data_in : Input
data_in = record { bytes = 1 ∷ 2 ∷ []; pos = 1 }

-- The first call throws; the second one shows the position that it finds the stream at.
abbrev reader : Params → Input → Exec (Session ℕ) (Unit {0})
reader params found s =
    if nat_eq s.world 0
    then (err (std 1), record s { world = 1 })
    else (ok tt, record s { world = 10 + found.pos })

store-retries_example :
    store fw (node_with none) reader [] data_in (session_at 0) ≡ (ok true, session_at 11)
unfolding prepare transformed_input FailFirst after
store-retries_example =
    store-retries fw (node_with none) reader [] [] data_in none (session_at 0) (session_at 0)
      (record { output = []; delayed = [] }) refl (omega arith) refl refl data_in refl [] refl 1 0
      refl ((std 1, refl), tt) refl

-- Each call writes a byte and throws.
abbrev leaky : Params → Exec (Loading ℕ) (Unit {0})
leaky params (out, s) = (err (std 1), (7 ∷ out, s))

load-Atomic_example :
    IsAtomic (1 ∷ []) (load (λ _. 0) fw (node_with none) leaky [] ((1 ∷ []), session_at 0))
unfolding data_proxy_library.Node.Load.uses_temporary
load-Atomic_example =
    load-Atomic (λ _. 0) fw (node_with none) leaky (1 ∷ []) refl [] (session_at 0) refl

abbrev endless : NodeConfig ℕ
endless = record (node_with none) {
  delete = record (config_with none) { retry_count = 4294967295 };
}

delete-overflow_example :
    delete fw endless (λ _. flaky) [] (session_at 1) ≡ (ok false, session_at 1)
unfolding prepare
delete-overflow_example =
    delete-overflow fw endless (λ _. flaky) [] [] (session_at 1) refl refl refl
