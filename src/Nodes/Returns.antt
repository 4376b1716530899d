-- ===== src/Nodes/Returns.antt =====
-- The operations of each class of nodes come back if its endpoint, or the nodes that it names, do.
use data_proxy_library.Common.{
  ℕ, String, ◌≡◌, true, none, some, inl, inr, Option, List, [], ◌∷◌, arith, All, contains, eq_refl,
  Bool-cases,
}
use data_proxy_library.Common.Dict.{insert, contains-insert}
use data_proxy_library.Common.Exec.{not_supported, Exec}
use data_proxy_library.Common.Exec.Rules.{Returns, Returns-pure, Returns-raise}
use data_proxy_library.Request.{
  Params, Bytes, Input, Session, Forwarder, insert_forward, on_route, on_stream, seek,
}
use data_proxy_library.Node.Returns.{IsResponsive, on_world-Returns}
use data_proxy_library.Router.{insert_route_names, store_destination}
use data_proxy_library.Router.Broadcast.{Route}
use data_proxy_library.Router.Returns.{broadcast-Returns}
use data_proxy_library.Partition.Returns.{store_impl-Returns}
use data_proxy_library.Nodes.{
  Endpoint, Kind, data_node, router_node, partition_node, Node, Platform, kind_load, kind_store,
  kind_delete, insert_read_forwards, insert_write_forwards, insert_delete_forwards,
  insert_kind_read_forwards, insert_kind_write_forwards, insert_kind_delete_forwards,
}

-- The names that an insertion adds are there, and those that were there stay.
contains-insert_old :
    (x y : String) (fs : List String) → contains x fs ≡ true → contains x (insert y fs) ≡ true
contains-insert_old x y fs h = ground (arith, contains-insert y x fs)

contains-insert_self : (x : String) (fs : List String) → contains x (insert x fs) ≡ true
contains-insert_self x fs = ground (arith, contains-insert x x fs, eq_refl x)

contains-insert_forward :
    (o : Option String) (n : String) (fs : List String)
    → o ≡ some n
    → contains n (insert_forward o fs) ≡ true
contains-insert_forward none n fs e = absurd (cc)
contains-insert_forward (some m) n fs e = ground (arith, contains-insert_self n fs)

contains-insert_route_names_old :
    (x : String) (rs : List Route) (fs : List String)
    → contains x fs ≡ true
    → contains x (insert_route_names rs fs) ≡ true
unfolding insert_route_names
contains-insert_route_names_old x [] fs h = h
contains-insert_route_names_old x (r ∷ rs) fs h =
    contains-insert_route_names_old x rs (insert r.node_name fs)
      (contains-insert_old x r.node_name fs h)

contains-insert_route_names :
    (rs : List Route) (fs : List String)
    → All (λ r. contains r.node_name (insert_route_names rs fs) ≡ true) rs
unfolding insert_route_names
contains-insert_route_names [] fs = tt
contains-insert_route_names (r ∷ rs) fs = (
  contains-insert_route_names_old r.node_name rs (insert r.node_name fs)
      (contains-insert_self r.node_name fs),
  contains-insert_route_names rs (insert r.node_name fs),
)

contains-optional_old :
    (o : Option String) (x : String) (fs : List String)
    → contains x fs ≡ true
    → contains x (insert_forward o fs) ≡ true
contains-optional_old none x fs h = h
contains-optional_old (some n) x fs h = contains-insert_old x n fs h

on_route-Returns :
    {S A : Type 0} (otherwise : Exec S A) (forward : String → Exec S A) (o : Option String)
    (fs : List String)
    → Returns otherwise
    → ((n : String) → contains n (insert_forward o fs) ≡ true → Returns (forward n))
    → Returns (on_route otherwise forward o)
on_route-Returns otherwise forward none fs h k = h
on_route-Returns otherwise forward (some n) fs h k = k n (contains-insert_self n fs)

All-implies :
    {P Q : Route → Type 0} (rs : List Route) → ((r : Route) → P r → Q r) → All P rs → All Q rs
All-implies [] f h = tt
All-implies (r ∷ rs) f h = (f r h.0, All-implies rs f h.1)

module _ {W : Type 0} where
  -- What an endpoint does comes back.
  pub record EndpointResponsive (endpoint : Endpoint W) : Type 0 where
    pub loads : (p : Params) → Returns (endpoint.load_data p)
    pub stores : (p : Params) (d : Input) → Returns (endpoint.store_data p d)
    pub deletes : (p : Params) → Returns (endpoint.delete_data p)
    pub commits : Returns endpoint.commit_data
    pub rolls_back : Returns endpoint.rollback_data

  abbrev pub KindResponsive : Kind W → Type 0
  KindResponsive (data_node endpoint) = EndpointResponsive endpoint
  KindResponsive (router_node router) = Unit
  KindResponsive (partition_node partition) = Unit

  pub record NodeResponsive (node : Node W) : Type 0 where
    pub reads : IsResponsive node.config.read
    pub writes : IsResponsive node.config.write
    pub deletes : IsResponsive node.config.delete
    pub acts : KindResponsive node.kind

  -- The forward of a failed request is among the names that the check follows.
  contains-kind_read_old :
      (kind : Kind W) (x : String) (fs : List String)
      → contains x fs ≡ true
      → contains x (insert_kind_read_forwards kind fs) ≡ true
  unfolding insert_kind_read_forwards
  contains-kind_read_old (data_node endpoint) x fs h = h
  contains-kind_read_old (router_node router) x fs h =
      contains-optional_old router.read_route x fs h
  contains-kind_read_old (partition_node partition) x fs h =
      contains-optional_old partition.read_route x fs h

  contains-kind_write_old :
      (kind : Kind W) (x : String) (fs : List String)
      → contains x fs ≡ true
      → contains x (insert_kind_write_forwards kind fs) ≡ true
  unfolding insert_kind_write_forwards
  contains-kind_write_old (data_node endpoint) x fs h = h
  contains-kind_write_old (router_node router) x fs h =
      contains-insert_route_names_old x router.write_route fs h
  contains-kind_write_old (partition_node partition) x fs h =
      contains-insert_old x partition.write_route fs h

  contains-kind_delete_old :
      (kind : Kind W) (x : String) (fs : List String)
      → contains x fs ≡ true
      → contains x (insert_kind_delete_forwards kind fs) ≡ true
  unfolding insert_kind_delete_forwards
  contains-kind_delete_old (data_node endpoint) x fs h = h
  contains-kind_delete_old (router_node router) x fs h =
      contains-insert_route_names_old x router.delete_route fs h
  contains-kind_delete_old (partition_node partition) x fs h =
      contains-optional_old partition.delete_route x fs h

  module _ (node : Node W) (n : String) where
    pub contains-read_forward :
        node.config.read.forward_node_name ≡ some n
        → contains n (insert_read_forwards node []) ≡ true
    unfolding insert_read_forwards
    contains-read_forward e =
        contains-kind_read_old node.kind n _ (contains-insert_forward _ n [] e)

    pub contains-write_forward :
        node.config.write.forward_node_name ≡ some n
        → contains n (insert_write_forwards node []) ≡ true
    unfolding insert_write_forwards
    contains-write_forward e =
        contains-kind_write_old node.kind n _ (contains-insert_forward _ n [] e)

    pub contains-delete_forward :
        node.config.delete.forward_node_name ≡ some n
        → contains n (insert_delete_forwards node []) ≡ true
    unfolding insert_delete_forwards
    contains-delete_forward e =
        contains-kind_delete_old node.kind n _ (contains-insert_forward _ n [] e)

  -- The operations of a node's class, if the names that it inserts come back.
  module _ (lib : Platform W) (fw : Forwarder W) (name : String) (fs : List String) where
    pub kind_load-Returns :
        (kind : Kind W)
        → KindResponsive kind
        → ((n : String)
            → contains n (insert_kind_read_forwards kind fs) ≡ true
            → (p : Params) → Returns (fw.load n p))
        → (p : Params) → Returns (kind_load fw name kind p)
    unfolding kind_load insert_kind_read_forwards
    kind_load-Returns (data_node endpoint) v h p = record {
      at = λ st. (v.loads p).at (st.0, st.1.world);
    }
    kind_load-Returns (router_node router) v h p = elim (Bool-cases router.read_enabled) [
      | inl c ↦ rw c (on_route-Returns _ _ router.read_route fs (Returns-pure tt) (λ n k. h n k p))
      | inr c ↦ rw c (Returns-raise (not_supported name))
    ]
    kind_load-Returns (partition_node partition) v h p =
        on_route-Returns _ _ partition.read_route fs (Returns-raise (not_supported name))
          (λ n k. h n k p)

    on_stream-Returns :
        {A : Type 0} (d : Input) (m : Exec (Input × Session W) A)
        → Returns m
        → Returns (on_stream d m)
    on_stream-Returns d m r = record { at = λ s. r.at (d, s) }

    store_destination-Returns :
        (n : String) (p : Params) (pos : ℕ)
        → ((d : Input) → Returns (fw.store n p d))
        → Returns (store_destination fw p pos n)
    unfolding store_destination
    store_destination-Returns n p pos r = record { at = λ (d, s). (r (seek pos d)).at s }

    pub kind_store-Returns :
        (kind : Kind W)
        → KindResponsive kind
        → ((i : ℕ) (b : Bytes) → Returns (lib.partition_library.sort_by i b))
        → ((n : String)
            → contains n (insert_kind_write_forwards kind fs) ≡ true
            → (p : Params) (d : Input) → Returns (fw.store n p d))
        → (p : Params) (d : Input) → Returns (kind_store lib fw name kind p d)
    unfolding kind_store insert_kind_write_forwards
    kind_store-Returns (data_node endpoint) v sorts h p d = on_world-Returns _ (v.stores p d)
    kind_store-Returns (router_node router) v sorts h p d = elim (Bool-cases router.write_enabled) [
      | inl c ↦ rw c (
          on_stream-Returns d _ (
            broadcast-Returns router.on_critical_write_error (store_destination fw p d.pos) name
              router.write_route
              (All-implies router.write_route
                (λ r k. store_destination-Returns r.node_name p d.pos (h r.node_name k p))
                (contains-insert_route_names router.write_route fs))))
      | inr c ↦ rw c (Returns-raise (not_supported name))
    ]
    kind_store-Returns (partition_node partition) v sorts h p d =
        store_impl-Returns fw lib.partition_library partition sorts
          (h partition.write_route (contains-insert_self partition.write_route fs)) p d

    pub kind_delete-Returns :
        (kind : Kind W)
        → KindResponsive kind
        → ((n : String)
            → contains n (insert_kind_delete_forwards kind fs) ≡ true
            → (p : Params) → Returns (fw.delete n p))
        → (p : Params) → Returns (kind_delete fw name kind p)
    unfolding kind_delete insert_kind_delete_forwards
    kind_delete-Returns (data_node endpoint) v h p = on_world-Returns _ (v.deletes p)
    kind_delete-Returns (router_node router) v h p = elim (Bool-cases router.delete_enabled) [
      | inl c ↦ rw c (
          broadcast-Returns router.on_critical_delete_error (λ n. fw.delete n p) name
            router.delete_route
            (All-implies router.delete_route (λ r k. h r.node_name k p)
              (contains-insert_route_names router.delete_route fs)))
      | inr c ↦ rw c (Returns-raise (not_supported name))
    ]
    kind_delete-Returns (partition_node partition) v h p =
        on_route-Returns _ _ partition.delete_route fs (Returns-raise (not_supported name))
          (λ n k. h n k p)
