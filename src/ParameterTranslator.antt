-- ===== src/ParameterTranslator.antt =====
-- ParameterTranslator.cpp: the translation of a request's parameters.
pub mod Values
pub mod Delayed
pub mod Places
pub mod Steps
pub mod Names
pub mod Defaults
pub mod Configure
pub mod Accepted
pub mod ConfigureTests
pub mod Tests
use data_proxy_library.Common.{
  ℕ, String, Bool, true, false, ◌&&◌, ◌||◌, not, Option, none, some, List, [], ◌∷◌, is_some, ◌==◌,
  if◌then◌else◌,
}
use data_proxy_library.Common.Dict.{Dict, find, put, erase}
use data_proxy_library.Common.Exec.{Exec, ok, err, pure, continue, ◌>>=◌, ◌>>◌}
use data_proxy_library.Request.{Params}
use data_proxy_library.Node.Config.{Translation, Translator, no_translation}
use Values.{
  TranslatorLibrary, kind_of, ValueKind, expression, built_in, literal, evaluate, translate_value,
  note_delayed, write, write_secondary,
}
use Delayed.{translate_delayed_parameters}

-- TranslatorDatum and DerivedValueDatum, behind their key.
pub record Rule : Type 0 where
  pub translated_name : Option String
  pub value_translator : Option String

pub record Derivation : Type 0 where
  pub value_source : String
  pub value_derivation : String
  pub is_override : Bool

pub record TranslatorConfig : Type 0 where
  pub parameters : Dict Rule
  pub primary_defaults : Dict String
  pub secondary_defaults : Dict String
  pub derived_values : Dict Derivation
  pub shell_timeout : ℕ

abbrev pub is_unruled : Option Rule → Bool
is_unruled none = false
is_unruled (some rule) = not (is_some rule.translated_name) && not (is_some rule.value_translator)

unfoldable pub is_silenced : TranslatorConfig → String → Bool
is_silenced config name =
    is_unruled (find name config.parameters) && not (is_some (find name config.primary_defaults))

-- The end of the loop over the incoming parameters.
unfoldable pub deliver :
    TranslatorConfig → String → String × Option String → Translation → Translation
unfolding is_silenced note_delayed write
deliver config name (value, b) t =
    if is_silenced config name
    then record t { delayed = erase name (note_delayed name b t.delayed) }
    else write name (value, b) t

-- The derived value, once its sources are filled in.
abbrev pub save_derived : String → Bool → String × Option String → Translation → Translation
save_derived name is_override made t =
    if is_override || not (is_some (find name t.output)) then write name made t else t

module _ {W : Type 0} where
  -- An action on the world, beside the translation.
  abbrev pub in_world : {A : Type 0} → Exec W A → Exec (Translation × W) A
  in_world m (t, w) = ((m w).0, (t, (m w).1))

  abbrev pub modify : (Translation → Translation) → Exec (Translation × W) (Unit {0})
  modify f (t, w) = (ok tt, (f t, w))

module _ {W : Type 0} (lib : TranslatorLibrary W) (config : TranslatorConfig) where
  unfoldable pub apply_translator :
      String → String → Option String → Exec (Translation × W) (Unit {0})
  unfolding translate_value deliver
  apply_translator name value none = modify (deliver config name (value, none))
  apply_translator name value (some translator) =
      in_world (translate_value lib config.shell_timeout translator value) >>= λ made.
      modify (deliver config name made)

  abbrev pub apply_rule : String → Rule → String → Exec (Translation × W) (Unit {0})
  apply_rule name rule value = apply_translator name value rule.value_translator

  abbrev pub apply_target_rule : String → Option Rule → String → Exec (Translation × W) (Unit {0})
  apply_target_rule name none value = modify (write name (value, none))
  apply_target_rule name (some rule) value = apply_rule name rule value

  -- The rule of a parameter, by its translated name: a target that the request gives wins.
  unfoldable pub translate_with_rule :
      Params → String × String → Rule → Option String → Exec (Translation × W) (Unit {0})
  unfolding apply_translator
  translate_with_rule inputs (name, value) rule none = apply_rule name rule value
  translate_with_rule inputs (name, value) rule (some target) =
      if is_some (find target inputs)
      then pure tt
      else apply_target_rule target (find target config.parameters) value

  -- One round of the loop over the incoming parameters, by what is configured for the parameter.
  unfoldable pub translate_by :
      Params → String × String → Option Rule → Exec (Translation × W) (Unit {0})
  unfolding write translate_with_rule
  translate_by inputs (name, value) none = modify (write name (value, none))
  translate_by inputs p (some rule) = translate_with_rule inputs p rule rule.translated_name

  abbrev pub translate_input : Params → String × String → Exec (Translation × W) (Unit {0})
  translate_input inputs p = translate_by inputs p (find p.0 config.parameters)

  unfoldable pub translate_inputs : Params → Params → Exec (Translation × W) (Unit {0})
  unfolding translate_by
  translate_inputs inputs [] = pure tt
  translate_inputs inputs (p ∷ ps) = translate_input inputs p >> translate_inputs inputs ps

  unfoldable pub fill_default :
      (String → String × Option String → Translation → Translation)
      → String × String
      → Exec (Translation × W) (Unit {0})
  unfolding kind_of evaluate
  fill_default save (name, value) (t, w) =
      if is_some (find name t.output)
      then (ok tt, (t, w))
      else (in_world (evaluate lib config.shell_timeout (kind_of value) value) >>= λ made.
            modify (save name made))
          (t, w)

  unfoldable pub fill_defaults :
      (String → String × Option String → Translation → Translation)
      → Params
      → Exec (Translation × W) (Unit {0})
  unfolding fill_default
  fill_defaults save [] = pure tt
  fill_defaults save (p ∷ ps) = fill_default save p >> fill_defaults save ps

  unfoldable pub derive_from : String → Bool → String → Exec (Translation × W) (Unit {0})
  unfolding kind_of evaluate write
  derive_from name is_override value =
      in_world (evaluate lib config.shell_timeout (kind_of value) value) >>= λ made.
      modify (save_derived name is_override made)

  abbrev pub derive_single : String → Derivation → Option String → Exec (Translation × W) (Unit {0})
  derive_single name d none = pure tt
  derive_single name d (some value) =
      derive_from name d.is_override (lib.replace_value d.value_derivation value)

  unfoldable pub derive : String × Derivation → Exec (Translation × W) (Unit {0})
  unfolding derive_from
  derive (name, d) (t, w) =
      if d.value_source == "*"
      then (in_world (lib.substitute_variables d.value_derivation t.output)
            >>= derive_from name d.is_override)
          (t, w)
      else derive_single name d (find d.value_source t.output) (t, w)

  unfoldable pub derive_all : Dict Derivation → Exec (Translation × W) (Unit {0})
  unfolding derive
  derive_all [] = pure tt
  derive_all (d ∷ ds) = derive d >> derive_all ds

  unfoldable pub translate : Params → Exec (Translation × W) (Unit {0})
  unfolding translate_inputs fill_defaults derive_all write write_secondary
  translate inputs (t, w) =
      (translate_inputs inputs inputs
          >> fill_defaults write config.primary_defaults
          >> derive_all config.derived_values
          >> fill_defaults write_secondary config.secondary_defaults)
        (no_translation, w)

  -- The translator that a node calls.
  unfoldable pub parameter_translator : Translator W
  unfolding translate translate_delayed_parameters
  parameter_translator = record {
    translate = translate;
    translate_delayed = translate_delayed_parameters lib;
  }
