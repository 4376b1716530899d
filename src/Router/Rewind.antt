-- ===== src/Router/Rewind.antt =====
-- The stream that RouterNode::StoreImpl puts back for each of its destinations.
use data_proxy_library.Common.{
  ℕ, String, ◌≡◌, refl, sym, ◌∙◌, ◌&&◌, not, List, [], ◌∷◌, inl, inr, Bool-cases, if◌then◌else◌,
  arith,
}
use data_proxy_library.Common.Exec.{not_supported, Result, ok, err, diverged, Exec, raise, continue}
use data_proxy_library.Request.{Params, Input, Session, Forwarder, on_stream, seek}
use data_proxy_library.Router.Broadcast.{
  Route, CriticalErrorBehavior, Progress, at_start, after_destination, route_loop, verdict,
  broadcast,
}
use data_proxy_library.Router.{RouterConfig, store_destination, store_impl}

-- What follows an action leaves the stream out of its account.
continue-on_stream :
    {S A B : Type 0} (r : Result A) (f : A → Exec (Input × S) B) (g : A → Exec S B) (d : Input)
    (s : S)
    → ((a : A) → on_stream d (f a) s ≡ g a s)
    → on_stream d (continue r f) s ≡ continue r g s
continue-on_stream (ok a) f g d s h = h a
continue-on_stream (err e) f g d s h = refl
continue-on_stream diverged f g d s h = refl

verdict-on_stream :
    {S : Type 0} (name : String) (p : Progress) (d : Input) (s : S)
    → on_stream d (verdict name p) s ≡ verdict name p s
unfolding verdict
verdict-on_stream name p d s = ground arith

module _ {W : Type 0} (fw : Forwarder W) (params : Params) (data_in : Input)
    (behavior : CriticalErrorBehavior) where
  abbrev same_store : String → Exec (Session W) (Unit {0})
  same_store n = fw.store n params data_in

  abbrev rewound_store : String → Exec (Input × Session W) (Unit {0})
  rewound_store = store_destination fw params data_in.pos

  route_loop-on_stream :
      (rs : List Route) (p : Progress) (pos : ℕ) (s : Session W)
      → on_stream (seek pos data_in) (route_loop behavior rewound_store rs p) s
        ≡ route_loop behavior same_store rs p s
  unfolding route_loop store_destination
  route_loop-on_stream [] p pos s = refl
  route_loop-on_stream (r ∷ rs) p pos s =
      elim (Bool-cases (p.process_only_criticals && not r.is_critical)) [
        | inl c ↦ rw (c, route_loop) (route_loop-on_stream rs p pos s)
        | inr c ↦
            rw (c, route_loop)
              (continue-on_stream (after_destination behavior r (same_store r.node_name s).0 p)
                (route_loop behavior rewound_store rs) (route_loop behavior same_store rs)
                (seek (fw.stops_at r.node_name params data_in s) data_in)
                (same_store r.node_name s).1
                (λ p'.
                  route_loop-on_stream rs p' (fw.stops_at r.node_name params data_in s)
                    (same_store r.node_name s).1))
      ]

  broadcast-on_stream :
      (name : String) (rs : List Route) (s : Session W)
      → on_stream data_in (broadcast behavior name rewound_store rs) s
        ≡ broadcast behavior name same_store rs s
  unfolding broadcast
  broadcast-on_stream name [] s = refl
  broadcast-on_stream name (r ∷ rs) s =
      let done = route_loop behavior rewound_store (r ∷ rs) at_start (data_in, s) in
      continue-on_stream done.0 (verdict name) (verdict name) done.1.0 done.1.1
        (λ p. verdict-on_stream name p done.1.0 done.1.1)
      ∙ rw (sym (route_loop-on_stream (r ∷ rs) at_start data_in.pos s)) refl

-- Wherever the stores of a router's destinations leave the position of the stream, a Store is the
-- loop over the destinations in which each of them is given the same stream, at the position at
-- which the router has got it. A router that is not configured to write throws that it does not
-- support it.
pub store_impl_lem :
    {W : Type 0} (fw : Forwarder W) (name : String) (router : RouterConfig) (params : Params)
    (data_in : Input) (s : Session W)
    → store_impl fw name router params data_in s
      ≡ (if router.write_enabled
            then broadcast router.on_critical_write_error name
                (λ n. fw.store n params data_in)
                router.write_route
            else raise (not_supported name))
          s
unfolding store_impl
store_impl_lem fw name router params data_in s = elim (Bool-cases router.write_enabled) [
  | inl c ↦
      rw (c, store_impl)
        (broadcast-on_stream fw params data_in router.on_critical_write_error name
          router.write_route s)
  | inr c ↦ rw (c, store_impl) refl
]
