-- ===== src/Node/Returns/Requests.antt =====
-- Load, Store and Delete of a node come back if its own operations and the nodes that it names do.
use data_proxy_library.Common.{
  ℕ, String, ◌≡◌, ◌≢◌, refl, true, false, none, some, Option, [], is_empty, Bool-cases,
  Option-cases, inl, inr,
}
use data_proxy_library.Common.Exec.{Error, bad_stream, Result, ok, err, diverged, Exec}
use data_proxy_library.Common.Exec.Rules.{
  Returns, Returns-pure, Returns-raise, Returns-bind, Returns-catch, Returns-continue,
}
use data_proxy_library.Request.{Params, Bytes, Input, unread, Session, Loading, Forwarder, emit}
use data_proxy_library.Node.Config.{NodeConfig, Translation, no_translation, is_ignore, prepare}
use data_proxy_library.Node.Attempts.{rounds, attempts, load_attempts}
use data_proxy_library.Node.Load.{
  uses_temporary, tee_loaded, tee_transformed, finish_load, fetch, recover_load, load,
}
use data_proxy_library.Node.Rewind.{store_attempts_lem}
use data_proxy_library.Node.Store.{
  store, store_prepared, store_transformed, store_rounds, transformed_input, recover_store,
}
use data_proxy_library.Node.Delete.{delete, recover_delete}
use data_proxy_library.Node.Returns.{
  IsResponsive, beside-Returns, prepare-Returns, transform_stream-Returns, attempts-Returns,
  load_attempts-Returns,
}

module _ {W : Type 0} (fw : Forwarder W) (node : NodeConfig W) where
  module _ (own : Params → Exec (Session W) (Unit {0}))
      (own_returns : (p : Params) → Returns (own p)) (responsive : IsResponsive node.delete)
      (forward_returns : (n : String)
        → node.delete.forward_node_name ≡ some n
        → (p : Params) → Returns (fw.delete n p)) where
    recover_delete-Returns : (p t : Params) (e : Error) → Returns (recover_delete fw node p t e)
    unfolding recover_delete
    recover_delete-Returns p t e = elim (Option-cases node.delete.forward_node_name) [
      | inl h ↦ rw h (Returns-raise e)
      | inr (n, h) ↦ rw h (Returns-bind _ _ (forward_returns n h _) (λ u. Returns-pure false))
    ]

    pub delete-Returns : (p : Params) → Returns (delete fw node own p)
    unfolding delete
    delete-Returns p = elim (Bool-cases (is_ignore node.delete.operation)) [
      | inl h ↦ record { at = λ s. rw h (λ e. cc) }
      | inr h ↦ record {
        at = λ s.
            let prepared = prepare node.delete p (no_translation, s) in
            rw h (
              (Returns-catch _ _
                  (Returns-continue prepared.0
                    (λ q. attempts (rounds node.delete.retry_count) (own q))
                    ((prepare-Returns node.delete p responsive).at _)
                    (λ q.
                      attempts-Returns (rounds node.delete.retry_count) (own q) (own_returns q)))
                  (recover_delete-Returns p prepared.1.0.output)).at
                prepared.1.1);
      }
    ]

  module _ (own : Params → Input → Exec (Session W) (Unit {0}))
      (own_returns : (p : Params) (d : Input) → Returns (own p d))
      (responsive : IsResponsive node.write)
      (forward_returns : (n : String)
        → node.write.forward_node_name ≡ some n
        → (p : Params) (d : Input) → Returns (fw.store n p d)) where
    recover_store-Returns :
        (p : Params) (d : Input) (t : Params) (r : Option Input) (e : Error)
        → Returns (recover_store fw node p d t r e)
    unfolding recover_store
    recover_store-Returns p d t r e = elim (Option-cases node.write.forward_node_name) [
      | inl h ↦ rw h (Returns-raise e)
      | inr (n, h) ↦ rw h (Returns-bind _ _ (forward_returns n h _ _) (λ u. Returns-pure false))
    ]

    store_rounds-Returns :
        (p : Params) (d : Input) (t : Translation) (use_p : Params) (r : Option Input)
        → Returns (store_rounds fw node own p d t use_p r)
    unfolding store_rounds
    store_rounds-Returns p d t use_p r =
        Returns-catch _ _
          (record {
            at = λ s.
                rw (store_attempts_lem _ _ _ (rounds node.write.retry_count) _ s)
                  ((attempts-Returns (rounds node.write.retry_count) _ (own_returns _ _)).at s);
          })
          (recover_store-Returns p d _ r)

    transformed_input-Returns :
        (p : Params) (d : Input) → Returns (transformed_input node.write p d)
    unfolding transformed_input
    transformed_input-Returns p d = elim (Bool-cases (is_empty node.write.transformers)) [
      | inl h ↦ rw h (Returns-pure none)
      | inr h ↦ rw h (
          Returns-bind _ _
            (transform_stream-Returns node.write.transformers p d responsive.transforms)
            (λ result. Returns-pure (some result)))
    ]

    store_transformed-Returns :
        (p : Params) (d : Input) (t : Translation) (use_p : Params) (r : Result (Option Input))
        → r ≢ diverged
        → Returns (store_transformed fw node own p d t use_p r)
    unfolding store_transformed
    store_transformed-Returns p d t use_p (ok r) h = store_rounds-Returns p d t use_p r
    store_transformed-Returns p d t use_p (err x) h = recover_store-Returns p d t.output none x
    store_transformed-Returns p d t use_p diverged h = absurd (h refl)

    store_prepared-Returns :
        (p : Params) (d : Input) (t : Translation) (r : Result Params) (s : Session W)
        → r ≢ diverged
        → (store_prepared fw node own p d t r s).0 ≢ diverged
    unfolding store_prepared
    store_prepared-Returns p d t (ok use_p) s h =
        let transformed = transformed_input node.write use_p d s in
        (store_transformed-Returns p d t use_p transformed.0
            ((transformed_input-Returns use_p d).at s)).at
          transformed.1
    store_prepared-Returns p d t (err x) s h = (recover_store-Returns p d t.output none x).at s
    store_prepared-Returns p d t diverged s h = absurd (h refl)

    pub store-Returns : (p : Params) (d : Input) → Returns (store fw node own p d)
    unfolding store
    store-Returns p d = elim (Bool-cases (is_ignore node.write.operation)) [
      | inl h ↦ record { at = λ s. rw h (λ e. cc) }
      | inr h ↦ record {
        at = λ s.
            rw h
              (store_prepared-Returns p d _ _ _ ((prepare-Returns node.write p responsive).at _));
      }
    ]

  module _ (passed : Bytes → ℕ) (own : Params → Exec (Loading W) (Unit {0}))
      (own_returns : (p : Params) → Returns (own p)) (responsive : IsResponsive node.read)
      (forward_returns : (n : String)
        → node.read.forward_node_name ≡ some n
        → (p : Params) → Returns (fw.load n p))
      (tee_returns : (n : String)
        → node.tee.tee_to ≡ some n
        → (p : Params) (d : Input) → Returns (fw.store n p d)) where
    recover_load-Returns : (p t : Params) (e : Error) → Returns (recover_load fw node p t e)
    unfolding recover_load
    recover_load-Returns p t bad_stream = Returns-raise bad_stream
    recover_load-Returns p t e = elim (Option-cases node.read.forward_node_name) [
      | inl h ↦ rw h (Returns-raise e)
      | inr (n, h) ↦ rw h (Returns-bind _ _ (forward_returns n h _) (λ u. Returns-pure false))
    ]

    tee_loaded-Returns : (p : Params) (b : Bytes) → Returns (tee_loaded fw node.tee p b)
    unfolding tee_loaded
    tee_loaded-Returns p b = elim (Option-cases node.tee.tee_to) [
      | inl h ↦ rw h (Returns-pure b)
      | inr (n, h) ↦ rw h (Returns-bind _ _ (tee_returns n h _ _) (λ u. Returns-pure b))
    ]

    tee_transformed-Returns :
        (p : Params) (b : Bytes) (d : Input) → Returns (tee_transformed fw node.tee p b d)
    unfolding tee_transformed
    tee_transformed-Returns p b d = elim (Option-cases node.tee.tee_to) [
      | inl h ↦ rw h (Returns-pure (unread d))
      | inr (n, h) ↦ elim (Bool-cases node.tee.tee_transformed_stream) [
        | inl c ↦ rw (h, c) (Returns-bind _ _ (tee_returns n h _ _) (λ u. Returns-pure d.bytes))
        | inr c ↦ rw (h, c) (Returns-bind _ _ (tee_returns n h _ _) (λ u. Returns-pure (unread d)))
      ]
    ]

    finish_load-Returns :
        (p use_p t : Params) (b : Bytes) → Returns (finish_load fw node p use_p t b)
    unfolding finish_load
    finish_load-Returns p use_p t b = elim (Bool-cases (is_empty node.read.transformers)) [
      | inl h ↦ rw h (tee_loaded-Returns _ b)
      | inr h ↦ rw h (
          Returns-bind _ _
            (transform_stream-Returns node.read.transformers use_p _ responsive.transforms)
            (tee_transformed-Returns _ b))
    ]

    emit-Returns : (b : Bytes) → Returns (emit {W = W} b)
    emit-Returns b = record { at = λ st e. cc }

    fetch-Returns : (p t use_p : Params) → Returns (fetch passed fw node own p t use_p)
    unfolding fetch
    fetch-Returns p t use_p = elim (Bool-cases (uses_temporary node)) [
      | inl h ↦ record {
        at = λ st.
            let loaded =
              load_attempts passed (rounds node.read.retry_count) (own use_p) ([], st.1) in
            rw h (
              (Returns-bind _ _
                  (beside-Returns _ (
                    Returns-continue loaded.0 (λ u. finish_load fw node p use_p t loaded.1.0)
                      ((load_attempts-Returns passed (rounds node.read.retry_count) (own use_p)
                          (own_returns use_p)).at
                        ([], st.1))
                      (λ u. finish_load-Returns p use_p t loaded.1.0)))
                  emit-Returns).at
                (st.0, loaded.1.1));
      }
      | inr h ↦ record {
        at = λ st. rw h (
            (load_attempts-Returns passed (rounds node.read.retry_count) (own use_p)
                (own_returns use_p)).at
              st);
      }
    ]

    pub load-Returns : (p : Params) → Returns (load passed fw node own p)
    unfolding load
    load-Returns p = elim (Bool-cases (is_ignore node.read.operation)) [
      | inl h ↦ record { at = λ st. rw h (λ e. cc) }
      | inr h ↦ record {
        at = λ st.
            let prepared = prepare node.read p (no_translation, st.1) in
            rw h (
              (Returns-catch _ _
                  (Returns-bind _ _
                    (Returns-continue prepared.0 (fetch passed fw node own p prepared.1.0.output)
                      ((prepare-Returns node.read p responsive).at _)
                      (fetch-Returns p prepared.1.0.output))
                    (λ u. Returns-pure true))
                  (recover_load-Returns p prepared.1.0.output)).at
                (st.0, prepared.1.1));
      }
    ]
