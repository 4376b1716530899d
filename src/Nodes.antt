-- ===== src/Nodes.antt =====
-- The classes of nodes behind AbstractNode's virtual functions. A data node's own operations are
-- an endpoint: they reach no other node.
pub mod Returns
pub mod Keeps
use data_proxy_library.Common.{ℕ, String, Bool, true, Option, none, some, List, map, if◌then◌else◌}
use data_proxy_library.Common.Exec.{ping_failed, not_supported, Exec, pure, raise, ◌>>◌}
use data_proxy_library.Request.{
  insert_forward, on_route, Params, Bytes, Input, Session, Loading, Forwarder, on_world,
}
use data_proxy_library.Node.Config.{NodeConfig}
use data_proxy_library.Node.Load
use data_proxy_library.Node.Store
use data_proxy_library.Node.Delete
use data_proxy_library.Router
use data_proxy_library.Router.Broadcast.{Route}
use data_proxy_library.Router.{RouterConfig}
use data_proxy_library.Router.Ping.{read_mode, write_mode, delete_mode, has_flag, ping_all}
use data_proxy_library.Partition
use data_proxy_library.Partition.{PartitionConfig, PartitionLibrary}

-- LoadImpl, StoreImpl, DeleteImpl, Ping, SupportsTransactions, Commit and Rollback of a data node.
pub record Endpoint (W : Type 0) : Type 0 where
  pub load_data : Params → Exec (Bytes × W) (Unit {0})
  pub store_data : Params → Input → Exec W (Unit {0})
  pub delete_data : Params → Exec W (Unit {0})
  pub ping_data : ℕ → Exec W (Unit {0})
  pub has_transactions : Bool
  pub commit_data : Exec W (Unit {0})
  pub rollback_data : Exec W (Unit {0})

pub data Kind (W : Type 0) : Type 0 where
  data_node : Endpoint W → Kind W
  router_node : RouterConfig → Kind W
  partition_node : PartitionConfig → Kind W

pub record Node (W : Type 0) : Type 0 where
  pub config : NodeConfig W
  pub kind : Kind W

-- What the nodes take from other libraries: how much of a pending output boost's filter chain has
-- passed on, where a store leaves the position of its stream, and PartitionNode's library.
pub record Platform (W : Type 0) : Type 0 where
  pub passed : Bytes → ℕ
  pub stops_at : String → Params → Input → Session W → ℕ
  pub partition_library : PartitionLibrary W

module _ {W : Type 0} where
  abbrev load_beside : Exec (Bytes × W) (Unit {0}) → Exec (Loading W) (Unit {0})
  load_beside m (out, s) =
      let done = m (out, s.world) in (done.0, (done.1.0, record s { world = done.1.1 }))

  unfoldable pub kind_load : Forwarder W → String → Kind W → Params → Exec (Loading W) (Unit {0})
  unfolding Router.load_impl Partition.load_impl
  kind_load fw name (data_node endpoint) params = load_beside (endpoint.load_data params)
  kind_load fw name (router_node router) params = Router.load_impl fw name router params
  kind_load fw name (partition_node partition) params = Partition.load_impl fw name partition params

  unfoldable pub kind_store :
      Platform W → Forwarder W → String → Kind W → Params → Input → Exec (Session W) (Unit {0})
  unfolding Router.store_impl Partition.store_impl
  kind_store lib fw name (data_node endpoint) params data_in =
      on_world (endpoint.store_data params data_in)
  kind_store lib fw name (router_node router) params data_in =
      Router.store_impl fw name router params data_in
  kind_store lib fw name (partition_node partition) params data_in =
      Partition.store_impl fw lib.partition_library partition params data_in

  unfoldable pub kind_delete : Forwarder W → String → Kind W → Params → Exec (Session W) (Unit {0})
  unfolding Router.delete_impl Partition.delete_impl
  kind_delete fw name (data_node endpoint) params = on_world (endpoint.delete_data params)
  kind_delete fw name (router_node router) params = Router.delete_impl fw name router params
  kind_delete fw name (partition_node partition) params =
      Partition.delete_impl fw name partition params

  unfoldable pub node_load : Platform W → Forwarder W → Node W → Params → Exec (Loading W) Bool
  unfolding kind_load Load.load
  node_load lib fw node =
      Load.load lib.passed fw node.config (kind_load fw node.config.name node.kind)

  unfoldable pub node_store :
      Platform W → Forwarder W → Node W → Params → Input → Exec (Session W) Bool
  unfolding kind_store Store.store
  node_store lib fw node = Store.store fw node.config (kind_store lib fw node.config.name node.kind)

  unfoldable pub node_delete : Forwarder W → Node W → Params → Exec (Session W) Bool
  unfolding kind_delete Delete.delete
  node_delete fw node = Delete.delete fw node.config (kind_delete fw node.config.name node.kind)

  -- SupportsTransactions, Commit, Rollback
  unfoldable pub supports_transactions : Kind W → Bool
  supports_transactions (data_node endpoint) = endpoint.has_transactions
  supports_transactions (router_node router) = true
  supports_transactions (partition_node partition) = true

  unfoldable pub commit_node : Kind W → Exec W (Unit {0})
  commit_node (data_node endpoint) = endpoint.commit_data
  commit_node (router_node router) = pure tt
  commit_node (partition_node partition) = pure tt

  unfoldable pub rollback_node : Kind W → Exec W (Unit {0})
  rollback_node (data_node endpoint) = endpoint.rollback_data
  rollback_node (router_node router) = pure tt
  rollback_node (partition_node partition) = pure tt

  -- Ping. One part for each mode, in the order of the code.
  abbrev pub ping_if : ℕ → ℕ → Exec (Session W) (Unit {0}) → Exec (Session W) (Unit {0})
  ping_if mode flag part = if has_flag mode flag then part else pure tt

  unfoldable pub ping_optional :
      Forwarder W → Option String → ℕ → Exec (Session W) (Unit {0}) → Exec (Session W) (Unit {0})
  ping_optional fw route flag otherwise = on_route otherwise (λ n. fw.ping n flag) route

  unfoldable pub ping_routes :
      Forwarder W → String → Bool → List Route → ℕ → Exec (Session W) (Unit {0})
  unfolding ping_all
  ping_routes fw name enabled routes flag =
      if enabled
      then ping_all (λ n. fw.ping n flag) (map (λ r. r.node_name) routes)
      else raise (ping_failed (not_supported name))

  unfoldable pub kind_ping : Forwarder W → String → Kind W → ℕ → Exec (Session W) (Unit {0})
  unfolding ping_optional ping_routes
  kind_ping fw name (data_node endpoint) mode = on_world (endpoint.ping_data mode)
  kind_ping fw name (router_node router) mode =
      ping_if mode read_mode (
        if router.read_enabled
        then ping_optional fw router.read_route read_mode (pure tt)
        else raise (ping_failed (not_supported name)))
      >> ping_if mode write_mode
          (ping_routes fw name router.write_enabled router.write_route write_mode)
      >> ping_if mode delete_mode
          (ping_routes fw name router.delete_enabled router.delete_route delete_mode)
  kind_ping fw name (partition_node partition) mode =
      ping_if mode read_mode
        (ping_optional fw partition.read_route read_mode (raise (ping_failed (not_supported name))))
      >> ping_if mode write_mode (fw.ping partition.write_route write_mode)
      >> ping_if mode delete_mode (
          ping_optional fw partition.delete_route delete_mode
            (raise (ping_failed (not_supported name))))

  -- InsertReadForwards, InsertWriteForwards and InsertDeleteForwards.
  unfoldable pub insert_kind_read_forwards : Kind W → List String → List String
  unfolding Router.insert_impl_read_forwards Partition.insert_impl_read_forwards
  insert_kind_read_forwards (data_node endpoint) forwards = forwards
  insert_kind_read_forwards (router_node router) forwards =
      Router.insert_impl_read_forwards router forwards
  insert_kind_read_forwards (partition_node partition) forwards =
      Partition.insert_impl_read_forwards partition forwards

  unfoldable pub insert_read_forwards : Node W → List String → List String
  unfolding insert_kind_read_forwards
  insert_read_forwards node forwards =
      insert_kind_read_forwards node.kind
        (insert_forward node.config.read.forward_node_name forwards)

  unfoldable pub insert_kind_write_forwards : Kind W → List String → List String
  unfolding Router.insert_impl_write_forwards Partition.insert_impl_write_forwards
  insert_kind_write_forwards (data_node endpoint) forwards = forwards
  insert_kind_write_forwards (router_node router) forwards =
      Router.insert_impl_write_forwards router forwards
  insert_kind_write_forwards (partition_node partition) forwards =
      Partition.insert_impl_write_forwards partition forwards

  unfoldable pub insert_write_forwards : Node W → List String → List String
  unfolding insert_kind_write_forwards
  insert_write_forwards node forwards =
      insert_kind_write_forwards node.kind
        (insert_forward node.config.write.forward_node_name forwards)

  unfoldable pub insert_kind_delete_forwards : Kind W → List String → List String
  unfolding Router.insert_impl_delete_forwards Partition.insert_impl_delete_forwards
  insert_kind_delete_forwards (data_node endpoint) forwards = forwards
  insert_kind_delete_forwards (router_node router) forwards =
      Router.insert_impl_delete_forwards router forwards
  insert_kind_delete_forwards (partition_node partition) forwards =
      Partition.insert_impl_delete_forwards partition forwards

  unfoldable pub insert_delete_forwards : Node W → List String → List String
  unfolding insert_kind_delete_forwards
  insert_delete_forwards node forwards =
      insert_kind_delete_forwards node.kind
        (insert_forward node.config.delete.forward_node_name forwards)
