-- ===== src/Node/Config.antt =====
-- The configuration of a node's read, write and delete sides, the parameters that a request is
-- carried out and forwarded with (AbstractNode.hpp, the helpers of AbstractNode.cpp).
use data_proxy_library.Common.{
  ℕ, String, Bool, true, false, Option, none, some, List, [], ◌∷◌, is_some, if◌then◌else◌, not,
  ◌||◌, ◌==◌,
}
use data_proxy_library.Common.Dict.{find, put}
use data_proxy_library.Common.Exec.{missing_parameters, ok, Exec, pure, raise, ◌>>=◌, ◌>>◌}
use data_proxy_library.Request.{Params, Input, Session, on_world}

-- A ParameterTranslator: what Translate has written when it returns or throws, with the delayed
-- parameters beside it, and what TranslateDelayedParameters writes over it.
pub record Translation : Type 0 where
  pub output : Params
  pub delayed : Params

abbrev pub no_translation : Translation
no_translation = record { output = []; delayed = [] }

pub record Translator (W : Type 0) : Type 0 where
  pub translate : Params → Exec (Translation × W) (Unit {0})
  pub translate_delayed : Params → Input → Params → Params

abbrev pub Transformer : Type 0 → Type 0
Transformer W = Params → Input → Exec W Input

-- An attribute that is not given, or one of the two values that it may have.
pub data Operation : Type 0 where
  unset process ignore : Operation

-- NodeConfigDatum. No transformers stand for a missing manager as well as for an empty one.
pub record OpConfig (W : Type 0) : Type 0 where
  pub translator : Option (Translator W)
  pub transformers : List (Transformer W)
  pub required_parameters : List String
  pub retry_count : ℕ
  pub forward_node_name : Option String
  pub include_node_name_as_parameter : Option String
  pub use_translated_parameters : Bool
  pub use_transformed_stream : Bool
  pub operation : Operation

-- TeeConfigDatum
pub record TeeConfig : Type 0 where
  pub tee_to : Option String
  pub tee_translated_parameters : Bool
  pub tee_transformed_stream : Bool

pub record NodeConfig (W : Type 0) : Type 0 where
  pub name : String
  pub read : OpConfig W
  pub write : OpConfig W
  pub delete : OpConfig W
  pub tee : TeeConfig

abbrev pub is_ignore : Operation → Bool
is_ignore ignore = true
is_ignore _ = false

unfoldable pub choose_parameters : Params → Params → Bool → Params
choose_parameters original translated forward_translated =
    if forward_translated then translated else original

unfoldable pub add_name_if_necessary : String → Params → Option String → Params
add_name_if_necessary name params none = params
add_name_if_necessary name params (some key) = put key name params

-- The required names that the request does not give, in order.
unfoldable pub missing : List String → Params → List String
missing [] params = []
missing (r ∷ rs) params =
    let rest = missing rs params in if is_some (find r params) then rest else r ∷ rest

-- Whether the message that lists the names has any text; separators stand behind text only.
unfoldable pub has_text : List String → Bool
has_text [] = false
has_text (n ∷ ns) = not (n == "") || has_text ns

unfoldable pub validate_parameters : {S : Type 0} → List String → Params → Exec S (Unit {0})
unfolding missing has_text
validate_parameters required params =
    if has_text (missing required params)
    then raise (missing_parameters (missing required params))
    else pure tt

module _ {W : Type 0} where
  -- The parameters that a failed request is forwarded with.
  unfoldable pub forwarded_parameters : NodeConfig W → OpConfig W → Params → Params → Params
  unfolding choose_parameters add_name_if_necessary
  forwarded_parameters node config params translated =
      add_name_if_necessary node.name
        (choose_parameters params translated config.use_translated_parameters)
        config.include_node_name_as_parameter

  -- The translator at work on the world of a session.
  unfoldable pub run_translator : Translator W → Params → Exec (Translation × Session W) (Unit {0})
  run_translator tr params (t, s) =
      let after = tr.translate params (t, s.world) in
      (after.0, (after.1.0, record s { world = after.1.1 }))

  unfoldable pub translated_with :
      Option (Translator W) → Params → Exec (Translation × Session W) Params
  unfolding run_translator
  translated_with none params (t, s) = (ok params, (t, s))
  translated_with (some tr) params (t, s) =
      (run_translator tr params >>= λ _ after. (ok after.0.output, after)) (t, s)

  -- Validation and translation, the first steps of every request: the parameters to use, beside
  -- what has been translated.
  unfoldable pub prepare : OpConfig W → Params → Exec (Translation × Session W) Params
  unfolding validate_parameters translated_with
  prepare config params =
      validate_parameters config.required_parameters params
      >> translated_with config.translator params

  -- TransformerManager::TransformStream
  unfoldable pub transform_stream : List (Transformer W) → Params → Input → Exec (Session W) Input
  transform_stream [] params data_in = pure data_in
  transform_stream (t ∷ ts) params data_in =
      on_world (t params data_in) >>= λ next. transform_stream ts params next
