-- ===== src/Router.antt =====
-- RouterNode.cpp: one read route, and write and delete routes to several destinations.
pub mod Broadcast
pub mod Ping
pub mod Returns
pub mod Keeps
pub mod Rewind
pub mod Outcome
pub mod Verdict
pub mod Tests
use data_proxy_library.Common.{ℕ, String, Bool, Option, none, some, List, [], ◌∷◌, if◌then◌else◌}
use data_proxy_library.Common.Dict.{insert}
use data_proxy_library.Common.Exec.{not_supported, Exec, pure, raise}
use data_proxy_library.Request.{
  Params, Input, Session, Loading, Forwarder, insert_forward, on_route, on_stream, seek,
}
use Broadcast.{Route, CriticalErrorBehavior, broadcast}

pub record RouterConfig : Type 0 where
  pub read_route : Option String
  pub read_enabled : Bool
  pub write_route : List Route
  pub write_enabled : Bool
  pub on_critical_write_error : CriticalErrorBehavior
  pub delete_route : List Route
  pub delete_enabled : Bool
  pub on_critical_delete_error : CriticalErrorBehavior

module _ {W : Type 0} where
  unfoldable pub load_impl :
      Forwarder W → String → RouterConfig → Params → Exec (Loading W) (Unit {0})
  load_impl fw name router params =
      if router.read_enabled
      then on_route (pure tt) (λ n. fw.load n params) router.read_route
      else raise (not_supported name)

  -- One destination of a store, for which the stream is put back to where the request found it.
  unfoldable pub store_destination :
      Forwarder W → Params → ℕ → String → Exec (Input × Session W) (Unit {0})
  store_destination fw params input_pos name (data_in, s) =
      let used = seek input_pos data_in in
      let done = fw.store name params used s in
      (done.0, (seek (fw.stops_at name params used s) used, done.1))

  unfoldable pub store_impl :
      Forwarder W → String → RouterConfig → Params → Input → Exec (Session W) (Unit {0})
  unfolding broadcast store_destination
  store_impl fw name router params data_in =
      if router.write_enabled
      then on_stream data_in (
          broadcast router.on_critical_write_error name (store_destination fw params data_in.pos)
            router.write_route)
      else raise (not_supported name)

  unfoldable pub delete_impl :
      Forwarder W → String → RouterConfig → Params → Exec (Session W) (Unit {0})
  unfolding broadcast
  delete_impl fw name router params =
      if router.delete_enabled
      then broadcast router.on_critical_delete_error name (λ n. fw.delete n params)
          router.delete_route
      else raise (not_supported name)

unfoldable pub insert_route_names : List Route → List String → List String
insert_route_names [] forwards = forwards
insert_route_names (r ∷ rs) forwards = insert_route_names rs (insert r.node_name forwards)

unfoldable pub insert_impl_read_forwards : RouterConfig → List String → List String
insert_impl_read_forwards router forwards = insert_forward router.read_route forwards

unfoldable pub insert_impl_write_forwards : RouterConfig → List String → List String
unfolding insert_route_names
insert_impl_write_forwards router forwards = insert_route_names router.write_route forwards

unfoldable pub insert_impl_delete_forwards : RouterConfig → List String → List String
unfolding insert_route_names
insert_impl_delete_forwards router forwards = insert_route_names router.delete_route forwards
