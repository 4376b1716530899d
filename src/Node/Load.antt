-- ===== src/Node/Load.antt =====
-- AbstractNode::Load, around the LoadImpl that is its argument.
use data_proxy_library.Common.{
  ℕ, Bool, true, false, ◌||◌, not, none, some, [], is_some, is_empty, ltb, if◌then◌else◌,
}
use data_proxy_library.Common.Exec.{
  Error, bad_stream, ok, Exec, pure, raise, continue, catch, ◌>>=◌, ◌>>◌,
}
use data_proxy_library.Request.{
  Params, Bytes, Input, unread, Session, Loading, Forwarder, beside, emit,
}
use data_proxy_library.Node.Config.{
  TeeConfig, NodeConfig, no_translation, is_ignore, forwarded_parameters, prepare, transform_stream,
  choose_parameters,
}
use data_proxy_library.Node.Attempts.{rounds, load_attempts}

module _ {W : Type 0} where
  -- The output of LoadImpl goes to a temporary stream first.
  unfoldable pub uses_temporary : NodeConfig W → Bool
  uses_temporary node =
      ltb 0 node.read.retry_count
      || is_some node.tee.tee_to
      || not (is_empty node.read.transformers)

  -- The tee of what was loaded, which returns what goes on to the caller.
  unfoldable pub tee_loaded : Forwarder W → TeeConfig → Params → Bytes → Exec (Session W) Bytes
  tee_loaded fw tee tee_params loaded = elim tee.tee_to [
    | none ↦ pure loaded
    | some n ↦ fw.store n tee_params (record { bytes = loaded; pos = 0 }) >> pure loaded
  ]

  unfoldable pub tee_transformed :
      Forwarder W → TeeConfig → Params → Bytes → Input → Exec (Session W) Bytes
  tee_transformed fw tee tee_params loaded result = elim tee.tee_to [
    | none ↦ pure (unread result)
    | some n ↦
        if tee.tee_transformed_stream
        then fw.store n tee_params (record { bytes = result.bytes; pos = 0 }) >> pure result.bytes
        else fw.store n tee_params (record { bytes = loaded; pos = 0 }) >> pure (unread result)
  ]

  -- Transformation and tee, once the temporary stream is filled.
  unfoldable pub finish_load :
      Forwarder W → NodeConfig W → Params → Params → Params → Bytes → Exec (Session W) Bytes
  unfolding choose_parameters transform_stream tee_loaded tee_transformed
  finish_load fw node params use_params translated loaded =
      let tee_params = choose_parameters params translated node.tee.tee_translated_parameters in
      if is_empty node.read.transformers
      then tee_loaded fw node.tee tee_params loaded
      else (transform_stream node.read.transformers use_params (record { bytes = loaded; pos = 0 })
          >>= tee_transformed fw node.tee tee_params loaded)

  -- The body of the try block behind translation, with the parameters to use.
  unfoldable pub fetch :
      (Bytes → ℕ)
      → Forwarder W
      → NodeConfig W
      → (Params → Exec (Loading W) (Unit {0}))
      → Params
      → Params
      → Params
      → Exec (Loading W) (Unit {0})
  unfolding uses_temporary finish_load
  fetch passed fw node load_impl params translated use_params (out, s) =
      if uses_temporary node
      then (let loaded =
            load_attempts passed (rounds node.read.retry_count) (load_impl use_params) ([], s) in
          (beside
                (continue loaded.0 λ _. finish_load fw node params use_params translated loaded.1.0)
              >>= emit)
            (out, loaded.1.1))
      else load_attempts passed (rounds node.read.retry_count) (load_impl use_params) (out, s)

  -- The catch blocks.
  unfoldable pub recover_load :
      Forwarder W → NodeConfig W → Params → Params → Error → Exec (Loading W) Bool
  unfolding forwarded_parameters
  recover_load fw node params translated bad_stream = raise bad_stream
  recover_load fw node params translated e = elim node.read.forward_node_name [
    | none ↦ raise e
    | some n ↦ fw.load n (forwarded_parameters node node.read params translated) >> pure false
  ]

  unfoldable pub load :
      (Bytes → ℕ)
      → Forwarder W
      → NodeConfig W
      → (Params → Exec (Loading W) (Unit {0}))
      → Params
      → Exec (Loading W) Bool
  unfolding fetch recover_load prepare
  load passed fw node load_impl params (out, s) =
      if is_ignore node.read.operation
      then (ok true, (out, s))
      else (let prepared = prepare node.read params (no_translation, s) in
          let translated = prepared.1.0.output in
          catch
            (continue prepared.0 (fetch passed fw node load_impl params translated) >> pure true)
            (recover_load fw node params translated) (out, prepared.1.1))
