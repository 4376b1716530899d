-- ===== src/ParameterTranslator/Names.antt =====
-- The names that ParameterTranslator.cpp keeps for later evaluation.
use data_proxy_library.Common.{String, ◌≡◌, refl, [], ◌∷◌, is_some, arith, eq_iff, eq_refl, length}
use data_proxy_library.Common.Dict.{find, put, find-put}
use data_proxy_library.Request.{Params, Input, unread}
use data_proxy_library.Node.Config.{Translation}
use data_proxy_library.ParameterTranslator.{TranslatorConfig, translate}
use data_proxy_library.ParameterTranslator.Values.{TranslatorLibrary}
use data_proxy_library.ParameterTranslator.Delayed.{translate_delayed_parameters}
use data_proxy_library.ParameterTranslator.Places.{HasPlaces, IsPlaced}
use data_proxy_library.ParameterTranslator.Steps.{translate-Placed}

-- A value written in its place.
module _ (n b v : String) (ps output : Params) (h : HasPlaces ((n, b) ∷ ps) output) where
  put-names : (k : String) → is_some (find k (put n v output)) ≡ is_some (find k output)
  unfolding HasPlaces find
  put-names k = ground (arith, eq_iff n k, eq_refl n, find-put n k v output, h n, h k)

  put-HasPlaces : HasPlaces ps (put n v output)
  unfolding HasPlaces find
  put-HasPlaces = λ k p. ground (arith, eq_iff n k, put-names k, h k)

rest-HasPlaces :
    (n b : String) (ps output : Params) → HasPlaces ((n, b) ∷ ps) output → HasPlaces ps output
unfolding HasPlaces find
rest-HasPlaces n b ps output h = λ k p. ground (arith, eq_iff n k, h k)

module _ {W : Type 0} (lib : TranslatorLibrary W) (data_in : Input) where
  -- Filling in the values of names that have places in an output leaves its set of names as it is.
  pub translate_delayed_parameters-keeps_names :
      (delayed output : Params)
      → HasPlaces delayed output
      → (k : String)
      → is_some (find k (translate_delayed_parameters lib delayed data_in output))
        ≡ is_some (find k output)
  unfolding translate_delayed_parameters
  translate_delayed_parameters-keeps_names [] output h k = refl
  translate_delayed_parameters-keeps_names ((n, b) ∷ ps) output h k = ground (
    arith,
    translate_delayed_parameters-keeps_names ps (put n (lib.md5 (unread data_in)) output)
        (put-HasPlaces n b (lib.md5 (unread data_in)) ps output h) k,
    put-names n b (lib.md5 (unread data_in)) ps output h k,
    translate_delayed_parameters-keeps_names ps
        (put n (lib.digits (length (unread data_in))) output)
        (put-HasPlaces n b (lib.digits (length (unread data_in))) ps output h) k,
    put-names n b (lib.digits (length (unread data_in))) ps output h k,
    translate_delayed_parameters-keeps_names ps output (rest-HasPlaces n b ps output h) k,
  )

-- After translation, whether it has returned or thrown, filling in the delayed values leaves the
-- set of the output's names as it is.
pub translate-delayed_names :
    {W : Type 0} (lib : TranslatorLibrary W) (config : TranslatorConfig) (inputs : Params)
    (t : Translation) (w : W) (data_in : Input) (k : String)
    → is_some (
        find k (
          translate_delayed_parameters lib
            (translate lib config inputs (t, w)).1.0.delayed
            data_in
            (translate lib config inputs (t, w)).1.0.output))
      ≡ is_some (find k (translate lib config inputs (t, w)).1.0.output)
unfolding IsPlaced
translate-delayed_names lib config inputs t w data_in k =
    translate_delayed_parameters-keeps_names lib data_in
      (translate lib config inputs (t, w)).1.0.delayed
      (translate lib config inputs (t, w)).1.0.output (translate-Placed lib config inputs t w) k
