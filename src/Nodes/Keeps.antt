-- ===== src/Nodes/Keeps.antt =====
-- The operations of each class of nodes keep what the forwarder keeps.
use data_proxy_library.Common.{ℕ, String, inl, inr, Option, none, some, Bool-cases}
use data_proxy_library.Common.Exec.{Exec, not_supported}
use data_proxy_library.Common.Exec.Rules.{Keeps, Keeps-pure, Keeps-raise}
use data_proxy_library.Request.{Params, Input, Session, Forwarder, on_route, on_stream, seek}
use data_proxy_library.Node.Keeps.{
  Beside, on_world-Keeps, ForwarderKeeps, load-Keeps, store-Keeps, delete-Keeps,
}
use data_proxy_library.Router.{store_destination}
use data_proxy_library.Router.Keeps.{broadcast-Keeps}
use data_proxy_library.Partition.Keeps.{store_impl-Keeps}
use data_proxy_library.Nodes.{
  Kind, data_node, router_node, partition_node, Node, Platform, kind_load, kind_store, kind_delete,
  node_load, node_store, node_delete,
}

on_route-Keeps :
    {S A : Type 0} {P : S → Type 0} (otherwise : Exec S A) (forward : String → Exec S A)
    (o : Option String)
    → Keeps P otherwise
    → ((n : String) → Keeps P (forward n))
    → Keeps P (on_route otherwise forward o)
on_route-Keeps otherwise forward none h k = h
on_route-Keeps otherwise forward (some n) h k = k n

module _ {W : Type 0} (P : Session W → Type 0)
    (any_world : (s : Session W) (w : W) → P s → P (record s { world = w })) (lib : Platform W)
    (fw : Forwarder W) (keeps : ForwarderKeeps P any_world fw) where
  kind_load-Keeps :
      (name : String) (kind : Kind W) (p : Params) → Keeps (Beside P) (kind_load fw name kind p)
  unfolding kind_load
  kind_load-Keeps name (data_node endpoint) p = record { at = λ st h. any_world st.1 _ h }
  kind_load-Keeps name (router_node router) p = elim (Bool-cases router.read_enabled) [
    | inl c ↦ rw c (on_route-Keeps _ _ router.read_route (Keeps-pure tt) (λ n. keeps.loads n p))
    | inr c ↦ rw c (Keeps-raise (not_supported name))
  ]
  kind_load-Keeps name (partition_node partition) p =
      on_route-Keeps _ _ partition.read_route (Keeps-raise (not_supported name))
        (λ n. keeps.loads n p)

  on_stream-Keeps :
      {A : Type 0} (d : Input) (m : Exec (Input × Session W) A)
      → Keeps (λ st. P st.1) m
      → Keeps P (on_stream d m)
  on_stream-Keeps d m k = record { at = λ s h. k.at (d, s) h }

  store_destination-Keeps :
      (n : String) (p : Params) (pos : ℕ) → Keeps (λ st. P st.1) (store_destination fw p pos n)
  unfolding store_destination
  store_destination-Keeps n p pos = record {
    at = λ (d, s) h. (keeps.stores n p (seek pos d)).at s h;
  }

  kind_store-Keeps :
      (name : String) (kind : Kind W) (p : Params) (d : Input)
      → Keeps P (kind_store lib fw name kind p d)
  unfolding kind_store
  kind_store-Keeps name (data_node endpoint) p d = on_world-Keeps P any_world _
  kind_store-Keeps name (router_node router) p d = elim (Bool-cases router.write_enabled) [
    | inl c ↦ rw c (
        on_stream-Keeps d _ (
          broadcast-Keeps router.on_critical_write_error (store_destination fw p d.pos)
            (λ n. store_destination-Keeps n p d.pos) name router.write_route))
    | inr c ↦ rw c (Keeps-raise (not_supported name))
  ]
  kind_store-Keeps name (partition_node partition) p d =
      store_impl-Keeps P fw lib.partition_library partition any_world keeps.stores p d

  kind_delete-Keeps :
      (name : String) (kind : Kind W) (p : Params) → Keeps P (kind_delete fw name kind p)
  unfolding kind_delete
  kind_delete-Keeps name (data_node endpoint) p = on_world-Keeps P any_world _
  kind_delete-Keeps name (router_node router) p = elim (Bool-cases router.delete_enabled) [
    | inl c ↦ rw c (
        broadcast-Keeps router.on_critical_delete_error (λ n. fw.delete n p)
          (λ n. keeps.deletes n p) name router.delete_route)
    | inr c ↦ rw c (Keeps-raise (not_supported name))
  ]
  kind_delete-Keeps name (partition_node partition) p =
      on_route-Keeps _ _ partition.delete_route (Keeps-raise (not_supported name))
        (λ n. keeps.deletes n p)

  pub node_load-Keeps : (node : Node W) (p : Params) → Keeps (Beside P) (node_load lib fw node p)
  unfolding node_load
  node_load-Keeps node p =
      load-Keeps P any_world fw keeps node.config lib.passed
        (kind_load fw node.config.name node.kind) (kind_load-Keeps node.config.name node.kind) p

  pub node_store-Keeps :
      (node : Node W) (p : Params) (d : Input) → Keeps P (node_store lib fw node p d)
  unfolding node_store
  node_store-Keeps node p d =
      store-Keeps P any_world fw keeps node.config (kind_store lib fw node.config.name node.kind)
        (kind_store-Keeps node.config.name node.kind) p d

  pub node_delete-Keeps : (node : Node W) (p : Params) → Keeps P (node_delete fw node p)
  unfolding node_delete
  node_delete-Keeps node p =
      delete-Keeps P any_world fw keeps node.config (kind_delete fw node.config.name node.kind)
        (kind_delete-Keeps node.config.name node.kind) p
