-- ===== src/Router/Outcome.antt =====
-- What a store or delete through a router does, by how critical failures are to be treated.
use data_proxy_library.Common.{
  String, ◌≡◌, refl, Bool, true, false, ◌&&◌, ◌||◌, not, List, [], ◌∷◌, ◌++◌, arith, is_empty,
  if◌then◌else◌,
}
use data_proxy_library.Common.Dict.{insert}
use data_proxy_library.Common.Exec.{
  critical_failures, nothing_succeeded, Result, ok, err, is_ok, Exec,
}
use data_proxy_library.Common.Exec.Rules.{Returns}
use data_proxy_library.Router.Broadcast.{
  Route, CriticalErrorBehavior, finish_criticals, finish_all, Progress, route_loop,
}

-- The critical ones of some destinations.
unfoldable pub criticals : List Route → List Route
criticals [] = []
criticals (r ∷ rs) = let rest = criticals rs in if r.is_critical then r ∷ rest else rest

module _ {S : Type 0} (send : String → Exec S (Unit {0})) where
  abbrev pub sent : Route → Exec S (Unit {0})
  sent r = send r.node_name

  -- The state after every one of the destinations has been tried, in order.
  unfoldable pub send_all : List Route → S → S
  send_all [] s = s
  send_all (r ∷ rs) s = send_all rs (sent r s).1

  -- Whether one of them succeeds then.
  unfoldable pub any_success : List Route → S → Bool
  any_success [] s = false
  any_success (r ∷ rs) s = let rest = any_success rs (sent r s).1 in is_ok (sent r s).0 || rest

  -- The critical ones that fail then, added to a set of names.
  unfoldable pub failed_criticals : List Route → S → List String → List String
  failed_criticals [] s names = names
  failed_criticals (r ∷ rs) s names =
      failed_criticals rs (sent r s).1
        (if r.is_critical && not (is_ok (sent r s).0) then insert r.node_name names else names)

  -- None of the critical ones fails then.
  unfoldable pub is_quiet : List Route → S → Bool
  is_quiet [] s = true
  is_quiet (r ∷ rs) s =
      let rest = is_quiet rs (sent r s).1 in (not r.is_critical || is_ok (sent r s).0) && rest

  -- What a request answers that has tried some destinations and no others.
  abbrev pub answer : String → List Route → S → Result (Unit {0})
  answer name rs s =
      if is_empty (failed_criticals rs s [])
      then (if any_success rs s then ok tt else err (nothing_succeeded name))
      else err (critical_failures (failed_criticals rs s []))

  pub send_all-append :
      (pre rest : List Route) (s : S) → send_all (pre ++ rest) s ≡ send_all rest (send_all pre s)
  unfolding send_all
  send_all-append [] rest s = refl
  send_all-append (r ∷ rs) rest s = send_all-append rs rest (sent r s).1

  pub any_success-append :
      (pre rest : List Route) (s : S)
      → any_success (pre ++ rest) s ≡ (any_success pre s || any_success rest (send_all pre s))
  unfolding send_all any_success
  any_success-append [] rest s = refl
  any_success-append (r ∷ rs) rest s = ground (arith, any_success-append rs rest (sent r s).1)

  pub failed_criticals-quiet :
      (pre rest : List Route) (s : S) (names : List String)
      → is_quiet pre s ≡ true
      → failed_criticals (pre ++ rest) s names ≡ failed_criticals rest (send_all pre s) names
  unfolding send_all failed_criticals is_quiet
  failed_criticals-quiet [] rest s names q = refl
  failed_criticals-quiet (r ∷ rs) rest s names q =
      ground (arith, failed_criticals-quiet rs rest (sent r s).1 names)

  module _ (returns : (n : String) → Returns (send n)) where
    pub finish_all_loop :
        (rs : List Route) (p : Progress) (s : S)
        → p.process_only_criticals ≡ false
        → route_loop finish_all send rs p s ≡ (
          ok (record {
            success = p.success || any_success rs s;
            critical_exception_names = failed_criticals rs s p.critical_exception_names;
            process_only_criticals = false;
          }),
          send_all rs s,
        )
    unfolding route_loop send_all any_success failed_criticals
    finish_all_loop [] p s h = ground arith
    finish_all_loop (r ∷ rs) p s h = ground (
      arith,
      (returns r.node_name).at s,
      finish_all_loop rs (record p { success = true }) (sent r s).1,
      finish_all_loop rs p (sent r s).1,
      finish_all_loop rs
          (record p { critical_exception_names = insert r.node_name p.critical_exception_names })
          (sent r s).1,
    )

    -- Once a critical destination has failed, only critical ones are tried.
    pub finish_criticals_loop :
        (rs : List Route) (p : Progress) (s : S)
        → p.process_only_criticals ≡ true
        → route_loop finish_criticals send rs p s ≡ (
          ok (record {
            success = p.success || any_success (criticals rs) s;
            critical_exception_names = failed_criticals (criticals rs) s p.critical_exception_names;
            process_only_criticals = true;
          }),
          send_all (criticals rs) s,
        )
    unfolding route_loop send_all any_success failed_criticals criticals
    finish_criticals_loop [] p s h = ground arith
    finish_criticals_loop (r ∷ rs) p s h = ground (
      arith,
      (returns r.node_name).at s,
      finish_criticals_loop rs p s,
      finish_criticals_loop rs (record p { success = true }) (sent r s).1,
      finish_criticals_loop rs
          (record p {
            critical_exception_names = insert r.node_name p.critical_exception_names;
            process_only_criticals = true;
          })
          (sent r s).1,
    )

    -- Destinations before any critical failure, whatever is to be done about one.
    pub quiet_loop :
        (b : CriticalErrorBehavior) (pre rest : List Route) (p : Progress) (s : S)
        → p.process_only_criticals ≡ false
        → is_quiet pre s ≡ true
        → route_loop b send (pre ++ rest) p s
          ≡ route_loop b send rest
              (record p { success = p.success || any_success pre s })
              (send_all pre s)
    unfolding route_loop send_all any_success is_quiet
    quiet_loop b [] rest p s h q = ground arith
    quiet_loop b (r ∷ rs) rest p s h q = ground (
      arith,
      (returns r.node_name).at s,
      quiet_loop b rs rest (record p { success = true }) (sent r s).1,
      quiet_loop b rs rest p (sent r s).1,
    )
