-- ===== src/Router/Returns.antt =====
-- The destination loop comes back if the destinations do.
use data_proxy_library.Common.{
  String, ◌≢◌, ◌&&◌, not, inl, inr, List, [], ◌∷◌, arith, All, Bool-cases,
}
use data_proxy_library.Common.Exec.{Result, diverged, Exec}
use data_proxy_library.Common.Exec.Rules.{Returns, Returns-pure, Returns-bind, continue-Returns}
use data_proxy_library.Router.Broadcast.{
  Route, CriticalErrorBehavior, stop, finish_criticals, finish_all, Progress, at_start,
  after_destination, route_loop, verdict, broadcast,
}
use data_proxy_library.Router.Ping.{ping_all}

after_destination-Returns :
    (b : CriticalErrorBehavior) (r : Route) (o : Result (Unit {0})) (p : Progress)
    → o ≢ diverged
    → after_destination b r o p ≢ diverged
unfolding after_destination
after_destination-Returns stop r o p h = ground arith
after_destination-Returns finish_criticals r o p h = ground arith
after_destination-Returns finish_all r o p h = ground arith

module _ {S : Type 0} (b : CriticalErrorBehavior) (send : String → Exec S (Unit {0})) where
  route_loop-Returns :
      (rs : List Route)
      → All (λ r. Returns (send r.node_name)) rs
      → (p : Progress) (s : S) → (route_loop b send rs p s).0 ≢ diverged
  unfolding route_loop
  route_loop-Returns [] h p s = λ e. cc
  route_loop-Returns (r ∷ rs) h p s =
      elim (Bool-cases (p.process_only_criticals && not r.is_critical)) [
        | inl c ↦ rw (c, route_loop) (route_loop-Returns rs h.1 p s)
        | inr c ↦
            rw (c, route_loop)
              (continue-Returns (after_destination b r (send r.node_name s).0 p)
                (route_loop b send rs) _ (after_destination-Returns b r _ p (h.0.at s))
                (λ p'. record { at = route_loop-Returns rs h.1 p' }))
      ]

  pub broadcast-Returns :
      (name : String) (rs : List Route)
      → All (λ r. Returns (send r.node_name)) rs
      → Returns (broadcast b name send rs)
  unfolding broadcast verdict
  broadcast-Returns name [] h = Returns-pure tt
  broadcast-Returns name (r ∷ rs) h =
      Returns-bind _ _ (record { at = route_loop-Returns (r ∷ rs) h at_start })
        (λ p. record { at = λ s. ground arith })

pub ping_all-Returns :
    {S : Type 0} (ping : String → Exec S (Unit {0})) (ns : List String)
    → All (λ n. Returns (ping n)) ns
    → Returns (ping_all ping ns)
unfolding ping_all
ping_all-Returns ping [] h = Returns-pure tt
ping_all-Returns ping (n ∷ ns) h = Returns-bind _ _ h.0 (λ u. ping_all-Returns ping ns h.1)
