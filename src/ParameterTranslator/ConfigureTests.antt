-- ===== src/ParameterTranslator/ConfigureTests.antt =====
-- Parameter nodes that the constructor takes, and some that it refuses.
use data_proxy_library.Common.{String, ◌≡◌, refl, List, [], ◌∷◌, if◌then◌else◌, ◌==◌}
use data_proxy_library.Common.Dict.{find, put}
use data_proxy_library.Common.Exec.{
  chained_translation, derived_from_derived, ambiguous_translation, err,
}
use data_proxy_library.ParameterTranslator.{TranslatorConfig}
use data_proxy_library.ParameterTranslator.Configure.{Attributes, configure}
use data_proxy_library.ParameterTranslator.Accepted.{IsAccepted, configure-Accepted}

abbrev references : String → List String
references s = if s == "${a}-${c}" then "a" ∷ "c" ∷ [] else []

abbrev empty : TranslatorConfig
empty = record {
  parameters = [];
  primary_defaults = [];
  secondary_defaults = [];
  derived_values = [];
  shell_timeout = 60;
}

abbrev renamed : String → String → Attributes
renamed name to = ("name", name) ∷ ("translatedName", to) ∷ []

abbrev derived : String → String → String → Attributes
derived name source value =
    ("name", name) ∷ ("valueSource", source) ∷ ("valueTranslator", value) ∷ []

abbrev nodes : List Attributes
nodes =
    renamed "a" "b"
    ∷ (("name", "b") ∷ ("valueDefault", "1") ∷ [])
    ∷ derived "d" "*" "${a}-${c}"
    ∷ []

configure-Accepted_example : IsAccepted references (configure references nodes empty).1
unfolding configure put find
configure-Accepted_example = configure-Accepted references nodes empty refl

chain_refused :
    (configure references (renamed "a" "b" ∷ renamed "b" "c" ∷ []) empty).0
    ≡ err (chained_translation "b")
unfolding configure put find
chain_refused = refl

derived_refused :
    (configure references (derived "c" "a" "x" ∷ derived "d" "*" "${a}-${c}" ∷ []) empty).0
    ≡ err (derived_from_derived "d" "c")
unfolding configure put find
derived_refused = refl

twice_refused :
    (configure references (renamed "a" "b" ∷ renamed "a" "c" ∷ []) empty).0
    ≡ err (ambiguous_translation "a")
unfolding configure put find
twice_refused = refl
