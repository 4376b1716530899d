-- ===== src/Node/Stream.antt =====
-- The streams that AbstractNode's retry loops read and write.
use data_proxy_library.Common.{
  Bool-cases, subst, ℕ, suc, ◌+◌, ◌^◌, ◌<◌, ◌≡◌, refl, sym, ◌∙◌, Bool, true, false, Option, none,
  some, ◌++◌, [], ◌⊎◌, inl, inr,
}
use mathlib.Core.List.{append-nil}
use data_proxy_library.Common.Exec.{
  Error, bad_stream, Result, ok, err, diverged, Exec, pure, continue, handle, catch,
}
use data_proxy_library.Request.{Params, Bytes, Input, Session, Loading, Forwarder, emit}
use data_proxy_library.Node.Config.{
  NodeConfig, Translator, Translation, no_translation, is_ignore, prepare,
}
use data_proxy_library.Node.Attempts.{rounds, attempts, load_attempts}
use data_proxy_library.Node.Store.{
  transformed_input, chosen_input, fill_delayed, final_parameters, store, store_prepared,
  store_transformed, store_rounds, recover_store,
}
use data_proxy_library.Node.Load.{uses_temporary, fetch, load, recover_load, finish_load}
use data_proxy_library.Node.Rewind.{store_attempts_lem}
use data_proxy_library.Node.Retry.{after, FailFirst, rounds_lem, attempts-retries}

-- The stream that a store reads: the incoming one, or what transformation has made of it.
abbrev pub IsUsed : Input → Option Input → Input → Type 0
IsUsed data_in none used = used ≡ data_in
IsUsed data_in (some result) used = used ≡ result

used_lem :
    (data_in : Input) (result : Option Input) (used : Input)
    → IsUsed data_in result used
    → chosen_input data_in result ≡ used
used_lem data_in none used e = sym e
used_lem data_in (some result) used e = sym e

-- The parameters of a store: those that it is prepared with, or where there is a translator, what
-- it has written, with the delayed ones filled in from the stream that is used.
abbrev pub IsFinal :
    {W : Type 0} → Option (Translator W) → Translation → Params → Input → Params → Type 0
IsFinal none t use_params used final = final ≡ use_params
IsFinal (some tr) t use_params used final = final ≡ tr.translate_delayed t.delayed used t.output

final_lem :
    {W : Type 0} (tr : Option (Translator W)) (t : Translation) (use_params : Params) (used : Input)
    (final : Params)
    → IsFinal tr t use_params used final
    → final_parameters tr use_params (fill_delayed tr t used) ≡ final
unfolding fill_delayed
final_lem none t use_params used final e = sym e
final_lem (some tr) t use_params used final e = sym e

module _ {W : Type 0} (fw : Forwarder W) (node : NodeConfig W)
    (store_impl : Params → Input → Exec (Session W) (Unit {0})) (params use_params : Params)
    (data_in : Input) (result : Option Input) (s s' : Session W) (t : Translation)
    (processed : is_ignore node.write.operation ≡ false)
    (counted : node.write.retry_count + 1 < 2 ^ 32)
    (prepared : prepare node.write params (no_translation, s) ≡ (ok use_params, (t, s')))
    (transformed : (transformed_input node.write use_params data_in s').0 ≡ ok result)
    (used : Input) (is_used : IsUsed data_in result used) (final : Params)
    (is_final : IsFinal node.write.translator t use_params used final) where
  abbrev started : Session W
  started = (transformed_input node.write use_params data_in s').1

  store_lem :
      store fw node store_impl params data_in s
      ≡ catch
          (attempts (suc node.write.retry_count) (store_impl final used))
          (recover_store fw node params data_in (fill_delayed node.write.translator t used) result)
          started
  unfolding store store_prepared store_transformed store_rounds
  store_lem =
      rw (processed, store)
        (rw (prepared, store)
          (rw (transformed, store)
            (rw (used_lem data_in result used is_used, store)
              (rw (final_lem node.write.translator t use_params used final is_final, store)
                (rw
                  (
                    store_attempts_lem (store_impl final) (fw.stops_at node.name final) used.pos
                        (rounds node.write.retry_count) used started,
                    rounds_lem node.write.retry_count counted,
                  )
                  refl)))))

  -- A store that is prepared and transformed, with a retry count below the largest one of 32
  -- bits: wherever its rounds leave the position of the stream, each is given the same stream at
  -- the same position, the transformed one if there are transformers, and the same parameters,
  -- which are those that it is prepared with or, with a translator, what that has written with
  -- the delayed ones filled in. If some of its first retryCount + 1 rounds return and those
  -- before it throw, the store succeeds with the first of them, and nothing is forwarded.
  pub store-retries :
      (failures more : ℕ)
      → failures + more ≡ node.write.retry_count
      → FailFirst (store_impl final used) failures started
      → (store_impl final used (after (store_impl final used) failures started)).0 ≡ ok tt
      → store fw node store_impl params data_in s
        ≡ (ok true, (store_impl final used (after (store_impl final used) failures started)).1)
  store-retries failures more sum f h =
      store_lem
      ∙ rw
          (attempts-retries (store_impl final used) node.write.retry_count failures more started sum
            f h)
          refl

module _ {W : Type 0} where
  -- What an action on a stream and the session has done to the stream: it has returned and added to
  -- its end, it has thrown and left it alone, or it has not come back.
  unfoldable pub IsAtomic : {A : Type 0} → Bytes → Result A × Loading W → Type 0
  IsAtomic {A = A} out done =
      ((a : A) × (b : Bytes) × (done.0 ≡ ok a) × (done.1.0 ≡ out ++ b))
      ⊎ ((e : Error) × (done.0 ≡ err e) × (done.1.0 ≡ out))
      ⊎ (done.0 ≡ diverged)

  emit-Atomic :
      (r : Result Bytes) (out : Bytes) (s : Session W) → IsAtomic out (continue r emit (out, s))
  unfolding IsAtomic
  emit-Atomic (ok b) out s = inl (tt, b, refl, refl)
  emit-Atomic (err e) out s = inr (inl (e, refl, refl))
  emit-Atomic diverged out s = inr (inr refl)

  -- `return true` behind an action.
  then_true-Atomic :
      (out : Bytes) (r : Result (Unit {0})) (after : Loading W)
      → IsAtomic out (r, after)
      → IsAtomic out (continue r (λ _. pure true) after)
  unfolding IsAtomic
  then_true-Atomic out (ok _) after (inl (a, b, p, q)) = inl (true, b, refl, q)
  then_true-Atomic out (ok _) after (inr (inl (e, p, q))) = absurd (cc)
  then_true-Atomic out (ok _) after (inr (inr p)) = absurd (cc)
  then_true-Atomic out (err e) after (inl (a, b, p, q)) = absurd (cc)
  then_true-Atomic out (err e) after (inr (inl (e', p, q))) = inr (inl (e, refl, q))
  then_true-Atomic out (err e) after (inr (inr p)) = absurd (cc)
  then_true-Atomic out diverged after h = inr (inr refl)

  continue-Atomic :
      {A : Type 0} (out : Bytes) (r : Result A) (f : A → Exec (Loading W) (Unit {0}))
      (s : Session W)
      → ((a : A) → IsAtomic out (f a (out, s)))
      → IsAtomic out (continue r f (out, s))
  unfolding IsAtomic
  continue-Atomic out (ok a) f s k = k a
  continue-Atomic out (err e) f s k = inr (inl (e, refl, refl))
  continue-Atomic out diverged f s k = inr (inr refl)

  ignored-Atomic : (out : Bytes) (s : Session W) → IsAtomic out (ok true, (out, s))
  unfolding IsAtomic
  ignored-Atomic out s = inl (true, [], refl, sym (append-nil out))

  -- An exception that is thrown on.
  rethrow-Atomic :
      (out : Bytes) (r : Result Bool) (after : Loading W) (h : Error → Exec (Loading W) Bool)
      → ((e : Error) → h e after ≡ (err e, after))
      → IsAtomic out (r, after)
      → IsAtomic out (handle r h after)
  unfolding IsAtomic
  rethrow-Atomic out (ok b) after h k a = a
  rethrow-Atomic out (err e) after h k a = subst (IsAtomic out) (sym (k e)) a
  rethrow-Atomic out diverged after h k a = a

module _ {W : Type 0} (passed : Bytes → ℕ) (fw : Forwarder W) (node : NodeConfig W)
    (load_impl : Params → Exec (Loading W) (Unit {0})) (out : Bytes)
    (temporary : uses_temporary node ≡ true) where
  fetch-Atomic :
      (params translated use_params : Params) (s : Session W)
      → IsAtomic out (fetch passed fw node load_impl params translated use_params (out, s))
  unfolding fetch
  fetch-Atomic params translated use_params s =
      let loaded =
        load_attempts passed (rounds node.read.retry_count) (load_impl use_params) ([], s) in
      let finished =
        continue loaded.0 (λ _. finish_load fw node params use_params translated loaded.1.0)
          loaded.1.1 in
      rw (temporary, fetch) (emit-Atomic finished.0 out finished.1)

  recover_load-rethrows :
      (params translated : Params) (e : Error) (s : Loading W)
      → node.read.forward_node_name ≡ none
      → recover_load fw node params translated e s ≡ (err e, s)
  unfolding recover_load
  recover_load-rethrows params translated bad_stream s nowhere = refl
  recover_load-rethrows params translated e s nowhere = rw (nowhere, recover_load) refl

  -- Where a load goes through a temporary stream and has nowhere to forward to, one that throws
  -- has written nothing to the caller's stream, and one that returns has only added to its end.
  pub load-Atomic :
      (params : Params) (s : Session W)
      → node.read.forward_node_name ≡ none
      → IsAtomic out (load passed fw node load_impl params (out, s))
  unfolding load
  load-Atomic params s nowhere =
      let prepared = prepare node.read params (no_translation, s) in
      let fetched =
        continue prepared.0 (fetch passed fw node load_impl params prepared.1.0.output)
          (out, prepared.1.1) in
      elim (Bool-cases (is_ignore node.read.operation)) [
        | inl ignored ↦ rw (ignored, load) (ignored-Atomic out s)
        | inr processed ↦
            rw (processed, load)
              (rethrow-Atomic out (continue fetched.0 (λ _. pure true) fetched.1).0
                (continue fetched.0 (λ _. pure true) fetched.1).1
                (recover_load fw node params prepared.1.0.output)
                (λ e.
                  recover_load-rethrows params prepared.1.0.output e
                    (continue fetched.0 (λ _. pure true) fetched.1).1 nowhere)
                (then_true-Atomic out fetched.0 fetched.1 (
                  continue-Atomic out prepared.0
                    (fetch passed fw node load_impl params prepared.1.0.output) prepared.1.1
                    (λ use_params.
                      fetch-Atomic params prepared.1.0.output use_params prepared.1.1))))
      ]
