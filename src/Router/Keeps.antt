-- ===== src/Router/Keeps.antt =====
-- The destination loop keeps what its destinations keep.
use data_proxy_library.Common.{String, ◌&&◌, not, inl, inr, List, [], ◌∷◌, Bool-cases}
use data_proxy_library.Common.Exec.{Exec}
use data_proxy_library.Common.Exec.Rules.{Keeps, Keeps-pure, Keeps-bind, continue-Keeps}
use data_proxy_library.Router.Broadcast.{
  Route, CriticalErrorBehavior, Progress, after_destination, route_loop, verdict, broadcast,
  at_start,
}
use data_proxy_library.Common.{arith}

module _ {S : Type 0} {P : S → Type 0} (b : CriticalErrorBehavior)
    (send : String → Exec S (Unit {0})) (h : (n : String) → Keeps P (send n)) where
  route_loop-Keeps : (rs : List Route) (p : Progress) → Keeps P (route_loop b send rs p)
  unfolding route_loop
  route_loop-Keeps [] p = record { at = λ s k. k }
  route_loop-Keeps (r ∷ rs) p = elim (Bool-cases (p.process_only_criticals && not r.is_critical)) [
    | inl c ↦ record { at = λ s k. rw (c, route_loop) ((route_loop-Keeps rs p).at s k) }
    | inr c ↦ record {
      at = λ s k.
          rw (c, route_loop)
            (continue-Keeps (after_destination b r (send r.node_name s).0 p) (route_loop b send rs)
              _ ((h r.node_name).at s k) (λ p'. route_loop-Keeps rs p'));
    }
  ]

  pub broadcast-Keeps : (name : String) (rs : List Route) → Keeps P (broadcast b name send rs)
  unfolding broadcast verdict
  broadcast-Keeps name [] = Keeps-pure tt
  broadcast-Keeps name (r ∷ rs) =
      Keeps-bind _ (verdict name) (route_loop-Keeps (r ∷ rs) at_start)
        (λ p. record { at = λ s k. ground arith })
