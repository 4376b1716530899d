-- ===== src/Node/Keeps.antt =====
-- What a node's Load, Store and Delete keep of the client's transaction: all that its own
-- operations and the forwarder keep.
use data_proxy_library.Common.{
  ℕ, zero, suc, String, true, false, none, some, Option, List, [], ◌∷◌, arith, is_empty, drop,
  Bool-cases, Option-cases, inl, inr,
}
use data_proxy_library.Common.Exec.{Error, bad_stream, Result, ok, err, diverged, Exec}
use data_proxy_library.Common.Exec.Rules.{
  Keeps, Keeps-pure, Keeps-raise, Keeps-bind, Keeps-catch, Keeps-continue,
}
use data_proxy_library.Request.{
  Params, Bytes, Input, unread, Session, Loading, Forwarder, emit, beside, on_world,
}
use data_proxy_library.Node.Config.{
  OpConfig, NodeConfig, Translator, Transformer, Translation, no_translation, is_ignore, prepare,
  transform_stream, translated_with, validate_parameters, run_translator,
}
use data_proxy_library.Node.Attempts.{rounds, attempts, load_attempts}
use data_proxy_library.Node.Load.{
  uses_temporary, tee_loaded, tee_transformed, finish_load, fetch, recover_load, load,
}
use data_proxy_library.Node.Store.{
  store, store_prepared, store_transformed, store_rounds, transformed_input, recover_store,
}
use data_proxy_library.Node.Rewind.{store_attempts_lem}
use data_proxy_library.Node.Delete.{delete, recover_delete}

pub attempts-Keeps :
    {S : Type 0} {P : S → Type 0} (k : ℕ) (m : Exec S (Unit {0}))
    → Keeps P m
    → Keeps P (attempts k m)
unfolding attempts
attempts-Keeps zero m r = record { at = λ s h. h }
attempts-Keeps (suc zero) m r = record { at = λ s h. ground (arith, r.at s h) }
attempts-Keeps (suc (suc k)) m r = record {
  at = λ s h. ground (arith, r.at s h, (attempts-Keeps (suc k) m r).at (m s).1);
}

module _ {W : Type 0} (P : Session W → Type 0) where
  abbrev pub Beside : Loading W → Type 0
  Beside st = P st.1

  abbrev BesideTranslation : Translation × Session W → Type 0
  BesideTranslation st = P st.1

  pub load_attempts-Keeps :
      (passed : Bytes → ℕ) (k : ℕ) (m : Exec (Loading W) (Unit {0}))
      → Keeps Beside m
      → Keeps Beside (load_attempts passed k m)
  unfolding load_attempts
  load_attempts-Keeps passed zero m r = record { at = λ st h. h }
  load_attempts-Keeps passed (suc zero) m r = record { at = λ st h. ground (arith, r.at st h) }
  load_attempts-Keeps passed (suc (suc k)) m r = record {
    at = λ st h. ground (
      arith,
      r.at st h,
      (load_attempts-Keeps passed (suc k) m r).at (drop (passed (m st).1.0) (m st).1.0, (m st).1.1),
    );
  }

  -- The world may change: `P` is about the transaction.
  module _ (any_world : (s : Session W) (w : W) → P s → P (record s { world = w })) where
    pub on_world-Keeps : {A : Type 0} (m : Exec W A) → Keeps P (on_world m)
    on_world-Keeps m = record { at = λ s h. any_world s (m s.world).1 h }

    pub beside-Keeps : {A : Type 0} (m : Exec (Session W) A) → Keeps P m → Keeps Beside (beside m)
    beside-Keeps m r = record { at = λ st h. r.at st.1 h }

    translated_with-Keeps :
        (tr : Option (Translator W)) (params : Params)
        → Keeps BesideTranslation (translated_with tr params)
    unfolding translated_with
    translated_with-Keeps none params = record { at = λ st h. h }
    translated_with-Keeps (some tr) params = record {
      at = λ st h.
          (Keeps-bind (run_translator tr params) _
              (record {
                at = λ st' h'. any_world st'.1 (tr.translate params (st'.0, st'.1.world)).1.1 h';
              })
              (λ u. record { at = λ after h'. h' })).at
            st h;
    }

    prepare-Keeps :
        (config : OpConfig W) (params : Params) → Keeps BesideTranslation (prepare config params)
    unfolding prepare
    prepare-Keeps config params =
        Keeps-bind (validate_parameters config.required_parameters params) _
          (record { at = λ st h. ground arith })
          (λ u. translated_with-Keeps config.translator params)

    transform_stream-Keeps :
        (ts : List (Transformer W)) (params : Params) (data_in : Input)
        → Keeps P (transform_stream ts params data_in)
    unfolding transform_stream
    transform_stream-Keeps [] params data_in = Keeps-pure data_in
    transform_stream-Keeps (t ∷ ts) params data_in =
        Keeps-bind (on_world (t params data_in)) _ (on_world-Keeps (t params data_in))
          (λ next. transform_stream-Keeps ts params next)

    -- What a forwarder keeps, whatever is asked of it.
    pub record ForwarderKeeps (fw : Forwarder W) : Type 0 where
      pub loads : (n : String) (p : Params) → Keeps Beside (fw.load n p)
      pub stores : (n : String) (p : Params) (d : Input) → Keeps P (fw.store n p d)
      pub deletes : (n : String) (p : Params) → Keeps P (fw.delete n p)

    module _ (fw : Forwarder W) (keeps : ForwarderKeeps fw) (node : NodeConfig W) where
      recover_delete-Keeps : (p t : Params) (e : Error) → Keeps P (recover_delete fw node p t e)
      unfolding recover_delete
      recover_delete-Keeps p t e = elim (Option-cases node.delete.forward_node_name) [
        | inl h ↦ rw h (Keeps-raise e)
        | inr (n, h) ↦ rw h (Keeps-bind _ _ (keeps.deletes n _) (λ u. Keeps-pure false))
      ]

      pub delete-Keeps :
          (own : Params → Exec (Session W) (Unit {0}))
          → ((p : Params) → Keeps P (own p))
          → (p : Params) → Keeps P (delete fw node own p)
      unfolding delete
      delete-Keeps own own_keeps p = elim (Bool-cases (is_ignore node.delete.operation)) [
        | inl h ↦ record { at = λ s k. rw h k }
        | inr h ↦ record {
          at = λ s k.
              let prepared = prepare node.delete p (no_translation, s) in
              rw h (
                (Keeps-catch _ _
                    (Keeps-continue prepared.0
                      (λ q. attempts (rounds node.delete.retry_count) (own q))
                      (λ q. attempts-Keeps (rounds node.delete.retry_count) (own q) (own_keeps q)))
                    (recover_delete-Keeps p prepared.1.0.output)).at
                  prepared.1.1 ((prepare-Keeps node.delete p).at (no_translation, s) k));
        }
      ]

      recover_store-Keeps :
          (p : Params) (d : Input) (t : Params) (r : Option Input) (e : Error)
          → Keeps P (recover_store fw node p d t r e)
      unfolding recover_store
      recover_store-Keeps p d t r e = elim (Option-cases node.write.forward_node_name) [
        | inl h ↦ rw h (Keeps-raise e)
        | inr (n, h) ↦ rw h (Keeps-bind _ _ (keeps.stores n _ _) (λ u. Keeps-pure false))
      ]

      transformed_input-Keeps :
          (p : Params) (d : Input) → Keeps P (transformed_input node.write p d)
      unfolding transformed_input
      transformed_input-Keeps p d = elim (Bool-cases (is_empty node.write.transformers)) [
        | inl h ↦ rw h (Keeps-pure none)
        | inr h ↦ rw h (
            Keeps-bind _ _ (transform_stream-Keeps node.write.transformers p d)
              (λ result. Keeps-pure (some result)))
      ]

      module _ (own : Params → Input → Exec (Session W) (Unit {0}))
          (own_keeps : (p : Params) (d : Input) → Keeps P (own p d)) where
        store_rounds-Keeps :
            (p : Params) (d : Input) (t : Translation) (use_p : Params) (r : Option Input)
            → Keeps P (store_rounds fw node own p d t use_p r)
        unfolding store_rounds
        store_rounds-Keeps p d t use_p r =
            Keeps-catch _ _
              (record {
                at = λ s h.
                    rw (store_attempts_lem _ _ _ (rounds node.write.retry_count) _ s)
                      ((attempts-Keeps (rounds node.write.retry_count) _ (own_keeps _ _)).at s h);
              })
              (recover_store-Keeps p d _ r)

        store_transformed-Keeps :
            (p : Params) (d : Input) (t : Translation) (use_p : Params) (r : Result (Option Input))
            → Keeps P (store_transformed fw node own p d t use_p r)
        unfolding store_transformed
        store_transformed-Keeps p d t use_p (ok r) = store_rounds-Keeps p d t use_p r
        store_transformed-Keeps p d t use_p (err x) = recover_store-Keeps p d t.output none x
        store_transformed-Keeps p d t use_p diverged = record { at = λ s h. h }

        store_prepared-Keeps :
            (p : Params) (d : Input) (t : Translation) (r : Result Params)
            → Keeps P (store_prepared fw node own p d t r)
        unfolding store_prepared
        store_prepared-Keeps p d t (ok use_p) = record {
          at = λ s h.
              let transformed = transformed_input node.write use_p d s in
              (store_transformed-Keeps p d t use_p transformed.0).at transformed.1
                ((transformed_input-Keeps use_p d).at s h);
        }
        store_prepared-Keeps p d t (err x) = record {
          at = λ s h. (recover_store-Keeps p d t.output none x).at s h;
        }
        store_prepared-Keeps p d t diverged = record { at = λ s h. h }

        pub store-Keeps : (p : Params) (d : Input) → Keeps P (store fw node own p d)
        unfolding store
        store-Keeps p d = elim (Bool-cases (is_ignore node.write.operation)) [
          | inl h ↦ record { at = λ s k. rw h k }
          | inr h ↦ record {
            at = λ s k. rw h (
                (store_prepared-Keeps p d _ _).at _
                  ((prepare-Keeps node.write p).at (no_translation, s) k));
          }
        ]

      recover_load-Keeps : (p t : Params) (e : Error) → Keeps Beside (recover_load fw node p t e)
      unfolding recover_load
      recover_load-Keeps p t bad_stream = Keeps-raise bad_stream
      recover_load-Keeps p t e = elim (Option-cases node.read.forward_node_name) [
        | inl h ↦ rw h (Keeps-raise e)
        | inr (n, h) ↦ rw h (Keeps-bind _ _ (keeps.loads n _) (λ u. Keeps-pure false))
      ]

      tee_loaded-Keeps : (p : Params) (b : Bytes) → Keeps P (tee_loaded fw node.tee p b)
      unfolding tee_loaded
      tee_loaded-Keeps p b = elim (Option-cases node.tee.tee_to) [
        | inl h ↦ rw h (Keeps-pure b)
        | inr (n, h) ↦ rw h (Keeps-bind _ _ (keeps.stores n _ _) (λ u. Keeps-pure b))
      ]

      tee_transformed-Keeps :
          (p : Params) (b : Bytes) (d : Input) → Keeps P (tee_transformed fw node.tee p b d)
      unfolding tee_transformed
      tee_transformed-Keeps p b d = elim (Option-cases node.tee.tee_to) [
        | inl h ↦ rw h (Keeps-pure (unread d))
        | inr (n, h) ↦ elim (Bool-cases node.tee.tee_transformed_stream) [
          | inl c ↦ rw (h, c) (Keeps-bind _ _ (keeps.stores n _ _) (λ u. Keeps-pure d.bytes))
          | inr c ↦ rw (h, c) (Keeps-bind _ _ (keeps.stores n _ _) (λ u. Keeps-pure (unread d)))
        ]
      ]

      finish_load-Keeps :
          (p use_p t : Params) (b : Bytes) → Keeps P (finish_load fw node p use_p t b)
      unfolding finish_load
      finish_load-Keeps p use_p t b = elim (Bool-cases (is_empty node.read.transformers)) [
        | inl h ↦ rw h (tee_loaded-Keeps _ b)
        | inr h ↦ rw h (
            Keeps-bind _ _ (transform_stream-Keeps node.read.transformers use_p _)
              (tee_transformed-Keeps _ b))
      ]

      emit-Keeps : (b : Bytes) → Keeps Beside (emit b)
      emit-Keeps b = record { at = λ st h. h }

      module _ (passed : Bytes → ℕ) (own : Params → Exec (Loading W) (Unit {0}))
          (own_keeps : (p : Params) → Keeps Beside (own p)) where
        fetch-Keeps : (p t use_p : Params) → Keeps Beside (fetch passed fw node own p t use_p)
        unfolding fetch
        fetch-Keeps p t use_p =
            let tries =
              load_attempts-Keeps passed (rounds node.read.retry_count) (own use_p)
                (own_keeps use_p) in
            elim (Bool-cases (uses_temporary node)) [
              | inl h ↦ record {
                at = λ st k.
                    let loaded =
                      load_attempts passed (rounds node.read.retry_count) (own use_p) ([], st.1) in
                    rw h (
                      (Keeps-bind _ _
                          (beside-Keeps _ (
                            Keeps-continue loaded.0 (λ u. finish_load fw node p use_p t loaded.1.0)
                              (λ u. finish_load-Keeps p use_p t loaded.1.0)))
                          emit-Keeps).at
                        (st.0, loaded.1.1) (tries.at ([], st.1) k));
              }
              | inr h ↦ record { at = λ st k. rw h (tries.at st k) }
            ]

        pub load-Keeps : (p : Params) → Keeps Beside (load passed fw node own p)
        unfolding load
        load-Keeps p = elim (Bool-cases (is_ignore node.read.operation)) [
          | inl h ↦ record { at = λ st k. rw h k }
          | inr h ↦ record {
            at = λ st k.
                let prepared = prepare node.read p (no_translation, st.1) in
                rw h (
                  (Keeps-catch _ _
                      (Keeps-bind _ _
                        (Keeps-continue prepared.0 (fetch passed fw node own p prepared.1.0.output)
                          (fetch-Keeps p prepared.1.0.output))
                        (λ u. Keeps-pure true))
                      (recover_load-Keeps p prepared.1.0.output)).at
                    (st.0, prepared.1.1) ((prepare-Keeps node.read p).at (no_translation, st.1) k));
          }
        ]
