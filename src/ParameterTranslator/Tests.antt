-- ===== src/ParameterTranslator/Tests.antt =====
-- A translator with a delayed parameter, a silenced one and a renamed one.
use data_proxy_library.Common.{
  true, ℕ, String, ◌≡◌, refl, true, false, Option, none, some, is_some, List, [], ◌∷◌,
}
use data_proxy_library.Common.Dict.{find}
use data_proxy_library.Common.Exec.{pure}
use data_proxy_library.Node.Config.{no_translation}
use data_proxy_library.ParameterTranslator.{TranslatorConfig, translate}
use data_proxy_library.ParameterTranslator.Values.{TranslatorLibrary}
use data_proxy_library.ParameterTranslator.Delayed.{translate_delayed_parameters}
use data_proxy_library.ParameterTranslator.Defaults.{translate-defaults}
use data_proxy_library.ParameterTranslator.Names.{translate-delayed_names}

abbrev lib : TranslatorLibrary ℕ
lib = record {
  hostname = "host";
  instance_name = λ w. none;
  unique_id = λ w. ("id", w);
  process_id = "42";
  formatted_time = λ format w. "now";
  run_shell = λ cmd timeout. pure (0, cmd);
  replace_value = λ text value. text;
  substitute_variables = λ text params. pure text;
  md5 = λ bytes. "sum";
  digits = λ n. "3";
}

abbrev config : TranslatorConfig
config = record {
  parameters =
      ("hush", record { translated_name = none; value_translator = none })
      ∷ ("old", record { translated_name = some "new"; value_translator = none })
      ∷ [];
  primary_defaults = ("checksum", "[md5]") ∷ [];
  secondary_defaults = [];
  derived_values = [];
  shell_timeout = 10;
}

-- Inputs are renamed and silenced, and the delayed default has an empty value at first.
translated :
    (translate lib config (("hush", "a") ∷ ("old", "b") ∷ []) (no_translation, 0)).1.0.output
    ≡ ("checksum", "") ∷ ("new", "b") ∷ []
unfolding translate find data_proxy_library.Common.Dict.put
translated = refl

translate-delayed_names_example :
    is_some (
      find "checksum" (
        translate_delayed_parameters lib
          (translate lib config (("old", "b") ∷ []) (no_translation, 0)).1.0.delayed
          (record { bytes = 1 ∷ 2 ∷ 3 ∷ []; pos = 0 })
          (translate lib config (("old", "b") ∷ []) (no_translation, 0)).1.0.output))
    ≡ is_some
        (find "checksum" (translate lib config (("old", "b") ∷ []) (no_translation, 0)).1.0.output)
translate-delayed_names_example =
    translate-delayed_names lib config (("old", "b") ∷ []) no_translation 0
      (record { bytes = 1 ∷ 2 ∷ 3 ∷ []; pos = 0 }) "checksum"

translate-defaults_example :
    is_some
      (find "checksum" (translate lib config (("old", "b") ∷ []) (no_translation, 0)).1.0.output)
    ≡ true
unfolding find translate data_proxy_library.Common.Dict.put
translate-defaults_example =
    translate-defaults lib config (("old", "b") ∷ []) no_translation 0 "checksum" refl refl
