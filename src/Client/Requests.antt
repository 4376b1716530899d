-- ===== src/Client/Requests.antt =====
-- PingImpl, LoadImpl, StoreImpl and DeleteImpl of the client, and the forwarder by which its nodes
-- call it back (RequestForwarder.cpp).
use data_proxy_library.Common.{
  ℕ, zero, suc, String, Bool, true, false, not, none, some, if◌then◌else◌,
}
use data_proxy_library.Common.Dict.{find}
use data_proxy_library.Common.Exec.{
  Error, std, uninitialized, unknown_node, ping_failed, diverged, Exec, pure, raise, catch, ◌>>=◌,
}
use data_proxy_library.Request.{Params, Input, Session, Loading, Forwarder, beside}
use data_proxy_library.Nodes.{Node, kind_ping, node_load, node_store, node_delete}
use data_proxy_library.Client.Transaction.{Environment, handle_result}

-- What a handler of MVException catches.
unfoldable pub is_mv_exception : Error → Bool
is_mv_exception (std code) = false
is_mv_exception _ = true

module _ {W : Type 0} where
  -- The node that a request names.
  unfoldable pub find_node : {S : Type 0} → Environment W → String → Exec S (Node W)
  find_node env name =
      if not env.initialized
      then raise uninitialized
      else elim (find name env.nodes) [ none ↦ raise (unknown_node name) | some node ↦ pure node ]

  unfoldable pub ping_request :
      Environment W → Forwarder W → String → ℕ → Exec (Session W) (Unit {0})
  unfolding find_node is_mv_exception kind_ping
  ping_request env fw name mode = find_node env name >>= λ node.
      catch (kind_ping fw node.config.name node.kind mode)
        λ e. if is_mv_exception e then raise (ping_failed e) else raise e

  unfoldable pub load_request :
      Environment W → Forwarder W → String → Params → Exec (Loading W) (Unit {0})
  unfolding find_node node_load handle_result
  load_request env fw name params = find_node env name >>= λ node.
      node_load env.platform fw node params >>= λ success.
      beside (handle_result name node.kind success)

  unfoldable pub store_request :
      Environment W → Forwarder W → String → Params → Input → Exec (Session W) (Unit {0})
  unfolding find_node node_store handle_result
  store_request env fw name params data_in = find_node env name >>= λ node.
      node_store env.platform fw node params data_in >>= λ success.
      handle_result name node.kind success

  unfoldable pub delete_request :
      Environment W → Forwarder W → String → Params → Exec (Session W) (Unit {0})
  unfolding find_node node_delete handle_result
  delete_request env fw name params = find_node env name >>= λ node.
      node_delete fw node params >>= λ success. handle_result name node.kind success

  -- The requests of a client, down to a depth of forwarding.
  unfoldable pub forwarder : Environment W → ℕ → Forwarder W
  unfolding ping_request load_request store_request delete_request
  forwarder env zero = record {
    load = λ name params s. (diverged, s);
    store = λ name params data_in s. (diverged, s);
    delete = λ name params s. (diverged, s);
    ping = λ name mode s. (diverged, s);
    stops_at = env.platform.stops_at;
  }
  forwarder env (suc depth) = record {
    load = load_request env (forwarder env depth);
    store = store_request env (forwarder env depth);
    delete = delete_request env (forwarder env depth);
    ping = ping_request env (forwarder env depth);
    stops_at = env.platform.stops_at;
  }
