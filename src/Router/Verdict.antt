-- ===== src/Router/Verdict.antt =====
-- The answers of a router's store or delete, and which destinations they have tried.
use data_proxy_library.Common.{
  String, ◌≡◌, refl, true, false, List, [], ◌∷◌, ◌++◌, arith, is_empty, if◌then◌else◌, ◌∙◌, ap, sym,
}
use data_proxy_library.Common.Dict.{insert}
use data_proxy_library.Common.Exec.{Error, nothing_succeeded, ok, err, Exec}
use data_proxy_library.Common.Exec.Rules.{Returns}
use data_proxy_library.Router.Broadcast.{
  Route, CriticalErrorBehavior, stop, finish_criticals, finish_all, at_start, route_loop, verdict,
  broadcast,
}
use data_proxy_library.Router.Outcome.{
  criticals, sent, send_all, any_success, failed_criticals, is_quiet, answer, send_all-append,
  any_success-append, failed_criticals-quiet, finish_all_loop, finish_criticals_loop, quiet_loop,
}
use mathlib.Core.List.{append-nil}

is_empty-middle :
    (pre : List Route) (r : Route) (post : List Route) → is_empty (pre ++ r ∷ post) ≡ false
is_empty-middle [] r post = refl
is_empty-middle (_ ∷ _) r post = refl

module _ {S : Type 0} (name : String) (send : String → Exec S (Unit {0}))
    (returns : (n : String) → Returns (send n)) where
  -- With finishAll, where every destination returns or throws and there is one at least, each is
  -- tried once, in order, whichever fail. The request fails with the names of the critical
  -- destinations that failed, if there are any, or else because no destination succeeded, if none
  -- did.
  pub broadcast-finish_all :
      (r : Route) (rs : List Route) (s : S)
      → broadcast finish_all name send (r ∷ rs) s
        ≡ (answer send name (r ∷ rs) s, send_all send (r ∷ rs) s)
  unfolding broadcast verdict
  broadcast-finish_all r rs s =
      rw (finish_all_loop send returns (r ∷ rs) at_start s refl, broadcast) (ground arith)

  -- Where every destination returns or throws, there is one at least and no critical one fails,
  -- the setting for critical errors makes no difference: each destination is tried once, in
  -- order, and the request succeeds exactly if one of them does.
  pub broadcast-quiet :
      (b : CriticalErrorBehavior) (r : Route) (rs : List Route) (s : S)
      → is_quiet send (r ∷ rs) s ≡ true
      → broadcast b name send (r ∷ rs) s ≡ (
        (if any_success send (r ∷ rs) s then ok tt else err (nothing_succeeded name)),
        send_all send (r ∷ rs) s,
      )
  unfolding broadcast verdict route_loop
  broadcast-quiet b r rs s q =
      rw
        (
          ap (λ l. route_loop b send l at_start s) (sym (append-nil (r ∷ rs)))
              ∙ quiet_loop send returns b (r ∷ rs) [] at_start s refl q,
          broadcast,
        )
        (ground arith)

  module _ (pre post : List Route) (r : Route) (s : S) (e : Error)
      (quiet : is_quiet send pre s ≡ true) (critical : r.is_critical ≡ true)
      (fails : (sent send r (send_all send pre s)).0 ≡ err e) where
    -- With stop, where every destination returns or throws, the first critical failure ends the
    -- request: its exception is the answer, and no later destination is tried.
    pub broadcast-stop :
        broadcast stop name send (pre ++ r ∷ post) s
        ≡ (err e, (sent send r (send_all send pre s)).1)
    unfolding broadcast verdict route_loop
    broadcast-stop = rw (is_empty-middle pre r post) (
        rw (quiet_loop send returns stop pre (r ∷ post) at_start s refl quiet, broadcast)
          (ground arith))

    -- With finishCriticals, where every destination returns or throws and the first critical
    -- failure is known: the critical destinations behind it are still tried, in order, and the
    -- others are not. The request answers as if those that were tried were all, with the names of
    -- the critical ones that failed.
    pub broadcast-finish_criticals : broadcast finish_criticals name send (pre ++ r ∷ post) s ≡ (
      answer send name (pre ++ r ∷ criticals post) s,
      send_all send (pre ++ r ∷ criticals post) s,
    )
    unfolding broadcast verdict route_loop send_all any_success failed_criticals
    broadcast-finish_criticals = rw (is_empty-middle pre r post) (
        rw
          (quiet_loop send returns finish_criticals pre (r ∷ post) at_start s refl quiet, broadcast)
          (rw
            (
              send_all-append send pre (r ∷ criticals post) s,
              any_success-append send pre (r ∷ criticals post) s,
              failed_criticals-quiet send pre (r ∷ criticals post) s [] quiet,
            )
            (ground (
              arith,
              finish_criticals_loop send returns post
                  (record {
                    success = any_success send pre s;
                    critical_exception_names = insert r.node_name [];
                    process_only_criticals = true;
                  })
                  (sent send r (send_all send pre s)).1 refl,
            ))))
