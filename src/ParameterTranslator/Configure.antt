-- ===== src/ParameterTranslator/Configure.antt =====
-- The constructor of ParameterTranslator.cpp: a Parameter node is its attributes.
use data_proxy_library.Common.{
  String, Bool, true, false, ◌&&◌, ◌||◌, not, Option, none, some, List, [], ◌∷◌, is_some,
  if◌then◌else◌, ◌==◌,
}
use data_proxy_library.Common.Dict.{Dict, find, put}
use data_proxy_library.Common.Exec.{
  Error, mv, ambiguous_translation, chained_translation, derived_from_derived, ok, err, Exec, pure,
  raise, ◌>>=◌, ◌>>◌,
}
use data_proxy_library.ParameterTranslator.{Rule, Derivation, TranslatorConfig}

abbrev pub Attributes : Type 0
Attributes = Dict String

-- The five attributes beside the name.
pub record ParameterNode : Type 0 where
  pub name : String
  pub translated_name : Option String
  pub value_translator : Option String
  pub value_default : Option String
  pub value_override : Option String
  pub value_source : Option String

-- An attribute that must be there, and those that may be.
unfoldable pub read_node : {S : Type 0} → Attributes → Exec S ParameterNode
unfolding find
read_node attributes s = elim (find "name" attributes) [
  | none ↦ (err (mv 0), s)
  | some name ↦ (
    ok (record {
      name = name;
      translated_name = find "translatedName" attributes;
      value_translator = find "valueTranslator" attributes;
      value_default = find "valueDefault" attributes;
      value_override = find "valueOverride" attributes;
      value_source = find "valueSource" attributes;
    }),
    s,
  )
]

-- A value manipulator.
abbrev pub has_manipulator : ParameterNode → Bool
has_manipulator p =
    is_some p.value_translator || is_some p.value_default || is_some p.value_override

-- What may not stand together, by the order in which it is looked for.
unfoldable pub is_illegal : ParameterNode → Bool
is_illegal p =
    is_some p.value_source && not (is_some p.translated_name) && not (has_manipulator p)
    || is_some p.translated_name && has_manipulator p
    || is_some p.translated_name && is_some p.value_source
    || is_some p.value_translator && is_some p.value_override

-- `*` takes all the parameters that a derivation refers to as ${name}.
abbrev pub sources_of : (String → List String) → Derivation → List String
sources_of references d =
    if d.value_source == "*" then references d.value_derivation else d.value_source ∷ []

-- InsertUpdate retains the derivation that is there.
unfoldable pub insert_derived : String → Derivation → TranslatorConfig → TranslatorConfig
unfolding find put
insert_derived name d t =
    if is_some (find name t.derived_values)
    then t
    else record t { derived_values = put name d t.derived_values }

unfoldable pub insert_rule : ParameterNode → Option String → Exec TranslatorConfig (Unit {0})
unfolding find put
insert_rule p translator t =
    if is_some (find p.name t.parameters) then (err (ambiguous_translation p.name), t) else (
      ok tt,
      record t {
        parameters =
            put p.name
              (record { translated_name = p.translated_name; value_translator = translator })
              t.parameters;
      },
    )

abbrev pub set_default : String → Option String → Dict String → Dict String
set_default name none defaults = defaults
set_default name (some v) defaults = put name v defaults

abbrev pub derive_override :
    ParameterNode → String → Option String → Exec TranslatorConfig (Unit {0})
derive_override p source none t = insert_rule p none t
derive_override p source (some v) t = (
  ok tt,
  insert_derived p.name (record { value_source = source; value_derivation = v; is_override = true })
      t,
)

-- An override is both the translator and the default.
abbrev pub add_plain :
    ParameterNode → Option String → Option String → Exec TranslatorConfig (Unit {0})
add_plain p translator none t =
    insert_rule p translator
      (record t { primary_defaults = set_default p.name p.value_default t.primary_defaults })
add_plain p translator (some v) t =
    if is_some p.value_default
    then (err (mv 0), t)
    else insert_rule p (some v) (record t { primary_defaults = put p.name v t.primary_defaults })

abbrev pub add_by_source :
    ParameterNode → Option String → Option String → Exec TranslatorConfig (Unit {0})
add_by_source p none translator t = add_plain p translator p.value_override t
add_by_source p (some source) none t =
    if is_some p.value_default then (err (mv 0), t) else derive_override p source p.value_override t
add_by_source p (some source) (some v) t = (
  ok tt,
  record (insert_derived p.name
      (record { value_source = source; value_derivation = v; is_override = false }) t) {
        secondary_defaults = set_default p.name p.value_default t.secondary_defaults;
      },
)

unfoldable pub add_parameter : ParameterNode → Exec TranslatorConfig (Unit {0})
unfolding is_illegal insert_derived insert_rule put
add_parameter p t =
    if is_illegal p then (err (mv 0), t) else add_by_source p p.value_source p.value_translator t

unfoldable pub add_parameters : List Attributes → Exec TranslatorConfig (Unit {0})
unfolding read_node add_parameter
add_parameters [] = pure tt
add_parameters (node ∷ nodes) = (read_node node >>= add_parameter) >> add_parameters nodes

abbrev pub first_error : Option Error → Option Error → Option Error
first_error none e = e
first_error (some e) f = some e

abbrev pub target_error : String → Option Rule → Option Error
target_error name none = none
target_error name (some r) =
    if is_some r.translated_name then some (chained_translation name) else none

abbrev pub chain_error : Dict Rule → Option String → Option Error
chain_error rules none = none
chain_error rules (some name) = target_error name (find name rules)

-- No name translation leads to a parameter whose name is translated.
unfoldable pub check_chains : Dict Rule → Dict Rule → Option Error
unfolding find
check_chains rules [] = none
check_chains rules ((name, r) ∷ rest) =
    first_error (chain_error rules r.translated_name) (check_chains rules rest)

unfoldable pub check_sources : String → Dict Derivation → List String → Option Error
unfolding find
check_sources name derived [] = none
check_sources name derived (s ∷ sources) =
    first_error (if is_some (find s derived) then some (derived_from_derived name s) else none)
      (check_sources name derived sources)

-- No derived value has a derived value for a source.
unfoldable pub check_derived :
    (String → List String) → Dict Derivation → Dict Derivation → Option Error
unfolding check_sources
check_derived references derived [] = none
check_derived references derived ((name, d) ∷ rest) =
    first_error (check_sources name derived (sources_of references d))
      (check_derived references derived rest)

abbrev pub throw_if : Option Error → Exec TranslatorConfig (Unit {0})
throw_if none = pure tt
throw_if (some e) = raise e

unfoldable pub check_translator : (String → List String) → Exec TranslatorConfig (Unit {0})
unfolding check_chains check_derived
check_translator references t =
    throw_if
      (first_error (check_chains t.parameters t.parameters)
        (check_derived references t.derived_values t.derived_values))
      t

unfoldable pub configure :
    (String → List String) → List Attributes → Exec TranslatorConfig (Unit {0})
unfolding add_parameters check_translator
configure references nodes = add_parameters nodes >> check_translator references
