-- ===== src/ParameterTranslator/Delayed.antt =====
-- ParameterTranslator::TranslateDelayedParameters.
use data_proxy_library.Common.{[], ◌∷◌, length, ◌==◌, if◌then◌else◌}
use data_proxy_library.Common.Dict.{put}
use data_proxy_library.Request.{Params, Input, unread}
use data_proxy_library.ParameterTranslator.Values.{TranslatorLibrary}

module _ {W : Type 0} (lib : TranslatorLibrary W) where
  -- The sum and the size are those of what is unread; they are computed once and kept.
  unfoldable pub translate_delayed_parameters : Params → Input → Params → Params
  translate_delayed_parameters [] data_in output = output
  translate_delayed_parameters ((name, b) ∷ ps) data_in output =
      translate_delayed_parameters ps data_in (
        if b == "md5"
        then put name (lib.md5 (unread data_in)) output
        else if b == "byteCount"
        then put name (lib.digits (length (unread data_in))) output
        else output)
