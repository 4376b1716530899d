-- ===== src/Node/Store.antt =====
-- AbstractNode::Store, around the StoreImpl that is its argument.
use data_proxy_library.Common.{ℕ, Bool, true, false, Option, none, some, is_empty, if◌then◌else◌}
use data_proxy_library.Common.Exec.{
  Error, Result, ok, err, diverged, Exec, pure, raise, catch, ◌>>=◌, ◌>>◌,
}
use data_proxy_library.Request.{Params, Input, Session, Forwarder, seek}
use data_proxy_library.Node.Config.{
  OpConfig, NodeConfig, Translator, Translation, no_translation, is_ignore, forwarded_parameters,
  prepare, transform_stream,
}
use data_proxy_library.Node.Attempts.{rounds, store_attempts}

abbrev pub chosen_input : Input → Option Input → Input
chosen_input data_in none = data_in
chosen_input data_in (some result) = result

-- transformedInputPos
abbrev pub transformed_pos : Option Input → ℕ
transformed_pos none = 0
transformed_pos (some result) = result.pos

module _ {W : Type 0} where
  -- The stream that StoreImpl reads is the transformed one, if there are transformers.
  unfoldable pub transformed_input : OpConfig W → Params → Input → Exec (Session W) (Option Input)
  unfolding transform_stream
  transformed_input config use_params data_in =
      if is_empty config.transformers
      then pure none
      else (transform_stream config.transformers use_params data_in >>= λ result.
          pure (some result))

  -- TranslateDelayedParameters writes over the translated parameters.
  unfoldable pub fill_delayed : Option (Translator W) → Translation → Input → Params
  fill_delayed none t data_in = t.output
  fill_delayed (some tr) t data_in = tr.translate_delayed t.delayed data_in t.output

  abbrev pub final_parameters : Option (Translator W) → Params → Params → Params
  final_parameters none use_params translated = use_params
  final_parameters (some tr) use_params translated = translated

  -- The stream that a failed request is forwarded with, put back to where it was found. Where the
  -- transformed stream is asked for and the request has failed before there was one, the incoming
  -- stream is put back to its start.
  unfoldable pub forwarded_input : OpConfig W → Input → Option Input → Input
  forwarded_input config data_in result =
      if config.use_transformed_stream
      then seek (transformed_pos result) (chosen_input data_in result)
      else seek data_in.pos data_in

  unfoldable pub recover_store :
      Forwarder W
      → NodeConfig W
      → Params
      → Input
      → Params
      → Option Input
      → Error
      → Exec (Session W) Bool
  unfolding forwarded_parameters forwarded_input
  recover_store fw node params data_in translated result e = elim node.write.forward_node_name [
    | none ↦ raise e
    | some n ↦
        fw.store n (forwarded_parameters node node.write params translated)
          (forwarded_input node.write data_in result)
        >> pure false
  ]

  -- The retry loop, once there is a stream to store.
  unfoldable pub store_rounds :
      Forwarder W
      → NodeConfig W
      → (Params → Input → Exec (Session W) (Unit {0}))
      → Params
      → Input
      → Translation
      → Params
      → Option Input
      → Exec (Session W) Bool
  unfolding fill_delayed recover_store store_attempts
  store_rounds fw node store_impl params data_in translation use_params result =
      let used = chosen_input data_in result in
      let translated = fill_delayed node.write.translator translation used in
      let final_params = final_parameters node.write.translator use_params translated in
      catch
        (store_attempts (rounds node.write.retry_count) (store_impl final_params)
          (fw.stops_at node.name final_params) used.pos used)
        (recover_store fw node params data_in translated result)

  -- Transformation and the retry loop. What fails in the former is forwarded without a
  -- transformed stream.
  unfoldable pub store_transformed :
      Forwarder W
      → NodeConfig W
      → (Params → Input → Exec (Session W) (Unit {0}))
      → Params
      → Input
      → Translation
      → Params
      → Result (Option Input)
      → Exec (Session W) Bool
  unfolding store_rounds
  store_transformed fw node store_impl params data_in translation use_params (ok result) =
      store_rounds fw node store_impl params data_in translation use_params result
  store_transformed fw node store_impl params data_in translation use_params (err e) =
      recover_store fw node params data_in translation.output none e
  store_transformed fw node store_impl params data_in translation use_params diverged =
      λ s. (diverged, s)

  unfoldable pub store_prepared :
      Forwarder W
      → NodeConfig W
      → (Params → Input → Exec (Session W) (Unit {0}))
      → Params
      → Input
      → Translation
      → Result Params
      → Exec (Session W) Bool
  unfolding transformed_input store_transformed
  store_prepared fw node store_impl params data_in translation (ok use_params) s =
      let transformed = transformed_input node.write use_params data_in s in
      store_transformed fw node store_impl params data_in translation use_params transformed.0
        transformed.1
  store_prepared fw node store_impl params data_in translation (err e) s =
      recover_store fw node params data_in translation.output none e s
  store_prepared fw node store_impl params data_in translation diverged s = (diverged, s)

  unfoldable pub store :
      Forwarder W
      → NodeConfig W
      → (Params → Input → Exec (Session W) (Unit {0}))
      → Params
      → Input
      → Exec (Session W) Bool
  unfolding store_prepared prepare
  store fw node store_impl params data_in s =
      if is_ignore node.write.operation
      then (ok true, s)
      else (let prepared = prepare node.write params (no_translation, s) in
          store_prepared fw node store_impl params data_in prepared.1.0 prepared.0 prepared.1.1)
