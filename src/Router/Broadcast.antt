-- ===== src/Router/Broadcast.antt =====
-- The destination loop that RouterNode::StoreImpl and RouterNode::DeleteImpl share.
use data_proxy_library.Common.{
  String, Bool, true, false, ◌&&◌, not, List, [], ◌∷◌, is_empty, if◌then◌else◌,
}
use data_proxy_library.Common.Dict.{insert}
use data_proxy_library.Common.Exec.{
  Error, critical_failures, nothing_succeeded, Result, ok, err, diverged, Exec, pure, raise,
  continue, ◌>>=◌,
}

pub record Route : Type 0 where
  pub node_name : String
  pub is_critical : Bool

pub data CriticalErrorBehavior : Type 0 where
  stop finish_criticals finish_all : CriticalErrorBehavior

-- The locals of the loop; the names are a std::set.
pub record Progress : Type 0 where
  pub success : Bool
  pub critical_exception_names : List String
  pub process_only_criticals : Bool

abbrev pub at_start : Progress
at_start = record { success = false; critical_exception_names = []; process_only_criticals = false }

-- The catch block for a critical destination.
unfoldable pub on_critical_error :
    CriticalErrorBehavior → String → Error → Progress → Result Progress
on_critical_error stop name e p = err e
on_critical_error finish_criticals name e p = ok (record p {
  critical_exception_names = insert name p.critical_exception_names;
  process_only_criticals = true;
})
on_critical_error finish_all name e p =
    ok (record p { critical_exception_names = insert name p.critical_exception_names })

-- What the outcome of one destination makes of the locals.
unfoldable pub after_destination :
    CriticalErrorBehavior → Route → Result (Unit {0}) → Progress → Result Progress
unfolding on_critical_error
after_destination behavior route (ok _) p = ok (record p { success = true })
after_destination behavior route (err e) p =
    if route.is_critical then on_critical_error behavior route.node_name e p else ok p
after_destination behavior route diverged p = diverged

module _ {S : Type 0} (behavior : CriticalErrorBehavior) (send : String → Exec S (Unit {0})) where
  unfoldable pub route_loop : List Route → Progress → Exec S Progress
  unfolding after_destination
  route_loop [] p s = (ok p, s)
  route_loop (r ∷ rs) p s = elim (p.process_only_criticals && not r.is_critical) [
    | true ↦ route_loop rs p s
    | false ↦
        continue (after_destination behavior r (send r.node_name s).0 p) (route_loop rs)
          (send r.node_name s).1
  ]

-- What follows the loop.
unfoldable pub verdict : {S : Type 0} → String → Progress → Exec S (Unit {0})
verdict name p =
    if is_empty p.critical_exception_names
    then (if p.success then pure tt else raise (nothing_succeeded name))
    else raise (critical_failures p.critical_exception_names)

unfoldable pub broadcast :
    {S : Type 0}
    → CriticalErrorBehavior
    → String
    → (String → Exec S (Unit {0}))
    → List Route
    → Exec S (Unit {0})
unfolding route_loop verdict
broadcast behavior name send routes =
    if is_empty routes then pure tt else (route_loop behavior send routes at_start >>= verdict name)
