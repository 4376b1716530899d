-- ===== src/Node/Returns.antt =====
-- A node's Load, Store and Delete come back if what they call does.
pub mod Requests
use data_proxy_library.Common.{
  ℕ, zero, suc, String, ◌≡◌, ◌≢◌, refl, Bool, true, false, none, some, Option, List, [], ◌∷◌, ◌++◌,
  arith, All, drop, if◌then◌else◌, Bool-cases, Option-cases, inl, inr,
}
use data_proxy_library.Common.Exec.{
  Error, bad_stream, Result, ok, err, diverged, Exec, pure, raise, continue, handle, catch, ◌>>=◌,
  ◌>>◌,
}
use data_proxy_library.Common.Exec.Rules.{
  Returns, Returns-pure, Returns-raise, Returns-bind, Returns-catch,
}
use data_proxy_library.Request.{
  Params, Bytes, Input, unread, Session, Loading, Forwarder, beside, on_world,
}
use data_proxy_library.Node.Config.{
  OpConfig, NodeConfig, Translator, Transformer, Translation, no_translation, is_ignore,
  forwarded_parameters, prepare, transform_stream, run_translator, translated_with,
  validate_parameters,
}
use data_proxy_library.Node.Attempts.{rounds, attempts, load_attempts}
use data_proxy_library.Node.Load.{
  uses_temporary, tee_loaded, tee_transformed, finish_load, fetch, recover_load, load,
}
use data_proxy_library.Node.Store.{
  store, store_prepared, store_rounds, transformed_input, recover_store,
}
use data_proxy_library.Node.Delete.{delete, recover_delete}

module _ {W : Type 0} where
  -- What a side of a node takes from elsewhere comes back.
  pub record IsResponsive (config : OpConfig W) : Type 0 where
    pub translates :
        (tr : Translator W)
        → config.translator ≡ some tr
        → (params : Params) → Returns (tr.translate params)
    pub transforms :
        All
          (λ t. (params : Params) (data_in : Input) → Returns (t params data_in))
          config.transformers

  pub on_world-Returns : {A : Type 0} (m : Exec W A) → Returns m → Returns (on_world m)
  on_world-Returns m r = record { at = λ s. r.at s.world }

  pub beside-Returns : {A : Type 0} (m : Exec (Session W) A) → Returns m → Returns (beside m)
  beside-Returns m r = record { at = λ st. r.at st.1 }

  run_translator-Returns :
      (tr : Translator W) (params : Params)
      → Returns (tr.translate params)
      → Returns (run_translator tr params)
  unfolding run_translator
  run_translator-Returns tr params r = record { at = λ st. r.at (st.0, st.1.world) }

  translated_with-Returns :
      (config : OpConfig W) (params : Params)
      → IsResponsive config
      → (tr : Option (Translator W)) → config.translator ≡ tr
      → Returns (translated_with tr params)
  unfolding translated_with
  translated_with-Returns config params v none e = record { at = λ st h. cc }
  translated_with-Returns config params v (some tr) e = record {
    at = λ st.
        (Returns-bind (run_translator tr params) _
            (run_translator-Returns tr params (v.translates tr e params))
            (λ u. record { at = λ after h. cc })).at
          st;
  }

  pub prepare-Returns :
      (config : OpConfig W) (params : Params)
      → IsResponsive config
      → Returns (prepare config params)
  unfolding prepare validate_parameters
  prepare-Returns config params v =
      Returns-bind (validate_parameters config.required_parameters params) _
        (record { at = λ st. ground arith })
        (λ u. translated_with-Returns config params v config.translator refl)

  pub transform_stream-Returns :
      (ts : List (Transformer W)) (params : Params) (data_in : Input)
      → All (λ t. (p : Params) (d : Input) → Returns (t p d)) ts
      → Returns (transform_stream ts params data_in)
  unfolding transform_stream
  transform_stream-Returns [] params data_in h = Returns-pure data_in
  transform_stream-Returns (t ∷ ts) params data_in h =
      Returns-bind (on_world (t params data_in)) _ (on_world-Returns _ (h.0 params data_in))
        (λ next. transform_stream-Returns ts params next h.1)

pub attempts-Returns :
    {S : Type 0} (k : ℕ) (m : Exec S (Unit {0})) → Returns m → Returns (attempts k m)
unfolding attempts
attempts-Returns zero m r = record { at = λ s h. cc }
attempts-Returns (suc zero) m r = record { at = λ s. ground (arith, r.at s) }
attempts-Returns (suc (suc k)) m r = record {
  at = λ s. ground (arith, r.at s, (attempts-Returns (suc k) m r).at (m s).1);
}

pub load_attempts-Returns :
    {S : Type 0} (passed : Bytes → ℕ) (k : ℕ) (m : Exec (Bytes × S) (Unit {0}))
    → Returns m
    → Returns (load_attempts passed k m)
unfolding load_attempts
load_attempts-Returns passed zero m r = record { at = λ s h. cc }
load_attempts-Returns passed (suc zero) m r = record { at = λ s. ground (arith, r.at s) }
load_attempts-Returns passed (suc (suc k)) m r = record {
  at = λ s. ground (
    arith,
    r.at s,
    (load_attempts-Returns passed (suc k) m r).at (drop (passed (m s).1.0) (m s).1.0, (m s).1.1),
  );
}
