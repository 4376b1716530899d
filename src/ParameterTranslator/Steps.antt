-- ===== src/ParameterTranslator/Steps.antt =====
-- The loops of ParameterTranslator::Translate, and the names that are kept for later.
use data_proxy_library.Common.{
  String, Bool, true, false, ◌||◌, not, Option, none, some, [], ◌∷◌, is_some, ◌==◌, if◌then◌else◌,
}
use data_proxy_library.Common.Dict.{Dict, find}
use data_proxy_library.Common.Exec.{ok, pure, ◌>>=◌, ◌>>◌}
use data_proxy_library.Common.Exec.Rules.{Keeps, Keeps-pure, Keeps-bind, Keeps-if, if-lands}
use data_proxy_library.Request.{Params}
use data_proxy_library.Node.Config.{Translation, no_translation}
use data_proxy_library.ParameterTranslator.{
  Rule, Derivation, TranslatorConfig, in_world, modify, deliver, apply_translator,
  apply_target_rule, translate_with_rule, translate_by, translate_input, translate_inputs,
  fill_default, fill_defaults, save_derived, derive_from, derive_single, derive, derive_all,
  translate,
}
use data_proxy_library.ParameterTranslator.Values.{
  TranslatorLibrary, kind_of, evaluate, translate_value, write, write_secondary,
}
use data_proxy_library.ParameterTranslator.Places.{
  IsPlaced, write-Placed, write_secondary-Placed, deliver-Placed, in_world-Placed, modify-Placed,
}

module _ {W : Type 0} (lib : TranslatorLibrary W) (config : TranslatorConfig) where
  deliver-Keeps :
      (name : String) (made : String × Option String)
      → Keeps (IsPlaced {W = W}) (modify (deliver config name made))
  deliver-Keeps name made =
      modify-Placed (deliver config name made) (deliver-Placed config name made)

  write-Keeps :
      (name : String) (made : String × Option String)
      → Keeps (IsPlaced {W = W}) (modify (write name made))
  write-Keeps name made = modify-Placed (write name made) (write-Placed name made)

  apply_translator-Keeps :
      (name value : String) (tr : Option String)
      → Keeps (IsPlaced {W = W}) (apply_translator lib config name value tr)
  unfolding apply_translator
  apply_translator-Keeps name value none = deliver-Keeps name (value, none)
  apply_translator-Keeps name value (some translator) =
      Keeps-bind (in_world (translate_value lib config.shell_timeout translator value))
        (λ made. modify (deliver config name made))
        (in_world-Placed (translate_value lib config.shell_timeout translator value))
        (deliver-Keeps name)

  apply_target_rule-Keeps :
      (name : String) (rule : Option Rule) (value : String)
      → Keeps (IsPlaced {W = W}) (apply_target_rule lib config name rule value)
  apply_target_rule-Keeps name none value = write-Keeps name (value, none)
  apply_target_rule-Keeps name (some rule) value =
      apply_translator-Keeps name value rule.value_translator

  translate_with_rule-Keeps :
      (inputs : Params) (p : String × String) (rule : Rule) (to : Option String)
      → Keeps (IsPlaced {W = W}) (translate_with_rule lib config inputs p rule to)
  unfolding translate_with_rule
  translate_with_rule-Keeps inputs (name, value) rule none =
      apply_translator-Keeps name value rule.value_translator
  translate_with_rule-Keeps inputs (name, value) rule (some target) =
      Keeps-if (is_some (find target inputs)) (pure tt)
        (apply_target_rule lib config target (find target config.parameters) value) (Keeps-pure tt)
        (apply_target_rule-Keeps target (find target config.parameters) value)

  translate_by-Keeps :
      (inputs : Params) (p : String × String) (rule : Option Rule)
      → Keeps (IsPlaced {W = W}) (translate_by lib config inputs p rule)
  unfolding translate_by
  translate_by-Keeps inputs (name, value) none = write-Keeps name (value, none)
  translate_by-Keeps inputs p (some rule) =
      translate_with_rule-Keeps inputs p rule rule.translated_name

  translate_inputs-Keeps :
      (inputs ps : Params) → Keeps (IsPlaced {W = W}) (translate_inputs lib config inputs ps)
  unfolding translate_inputs
  translate_inputs-Keeps inputs [] = Keeps-pure tt
  translate_inputs-Keeps inputs (p ∷ ps) =
      Keeps-bind (translate_input lib config inputs p) (λ _. translate_inputs lib config inputs ps)
        (translate_by-Keeps inputs p (find p.0 config.parameters))
        (λ _. translate_inputs-Keeps inputs ps)

  module _ (save : String → String × Option String → Translation → Translation)
      (saves : (name : String) (made : String × Option String) (t : Translation) (w : W)
        → IsPlaced (t, w)
        → IsPlaced (save name made t, w)) where
    fill_default-Keeps :
        (p : String × String) → Keeps (IsPlaced {W = W}) (fill_default lib config save p)
    unfolding fill_default
    fill_default-Keeps (name, value) = record {
      at = λ (t, w) h.
          if-lands IsPlaced (is_some (find name t.output)) (ok tt, (t, w))
            ((in_world (evaluate lib config.shell_timeout (kind_of value) value) >>= λ made.
                modify (save name made))
              (t, w))
            (λ _. h)
            (λ _.
              (Keeps-bind (in_world (evaluate lib config.shell_timeout (kind_of value) value))
                  (λ made. modify (save name made))
                  (in_world-Placed (evaluate lib config.shell_timeout (kind_of value) value))
                  (λ made. modify-Placed (save name made) (saves name made))).at
                (t, w) h);
    }

    fill_defaults-Keeps :
        (ps : Params) → Keeps (IsPlaced {W = W}) (fill_defaults lib config save ps)
    unfolding fill_defaults
    fill_defaults-Keeps [] = Keeps-pure tt
    fill_defaults-Keeps (p ∷ ps) =
        Keeps-bind (fill_default lib config save p) (λ _. fill_defaults lib config save ps)
          (fill_default-Keeps p) (λ _. fill_defaults-Keeps ps)

  if-Placed :
      (b : Bool) (t u : Translation) (w : W)
      → IsPlaced (t, w)
      → IsPlaced (u, w)
      → IsPlaced ((if b then t else u), w)
  if-Placed true t u w h k = h
  if-Placed false t u w h k = k

  save_derived-Placed :
      (name : String) (o : Bool) (made : String × Option String) (t : Translation) (w : W)
      → IsPlaced (t, w)
      → IsPlaced (save_derived name o made t, w)
  save_derived-Placed name o made t w h =
      if-Placed (o || not (is_some (find name t.output))) (write name made t) t w
        (write-Placed name made t w h) h

  derive_from-Keeps :
      (name : String) (o : Bool) (value : String)
      → Keeps (IsPlaced {W = W}) (derive_from lib config name o value)
  unfolding derive_from
  derive_from-Keeps name o value =
      Keeps-bind (in_world (evaluate lib config.shell_timeout (kind_of value) value))
        (λ made. modify (save_derived name o made))
        (in_world-Placed (evaluate lib config.shell_timeout (kind_of value) value))
        (λ made. modify-Placed (save_derived name o made) (save_derived-Placed name o made))

  derive_single-Keeps :
      (name : String) (d : Derivation) (v : Option String)
      → Keeps (IsPlaced {W = W}) (derive_single lib config name d v)
  derive_single-Keeps name d none = Keeps-pure tt
  derive_single-Keeps name d (some value) =
      derive_from-Keeps name d.is_override (lib.replace_value d.value_derivation value)

  derive-Keeps : (d : String × Derivation) → Keeps (IsPlaced {W = W}) (derive lib config d)
  unfolding derive
  derive-Keeps (name, d) = record {
    at = λ (t, w) h.
        if-lands IsPlaced (d.value_source == "*")
          ((in_world (lib.substitute_variables d.value_derivation t.output)
              >>= derive_from lib config name d.is_override)
            (t, w))
          (derive_single lib config name d (find d.value_source t.output) (t, w))
          (λ _.
            (Keeps-bind (in_world (lib.substitute_variables d.value_derivation t.output))
                (derive_from lib config name d.is_override)
                (in_world-Placed (lib.substitute_variables d.value_derivation t.output))
                (derive_from-Keeps name d.is_override)).at
              (t, w) h)
          (λ _. (derive_single-Keeps name d (find d.value_source t.output)).at (t, w) h);
  }

  derive_all-Keeps : (ds : Dict Derivation) → Keeps (IsPlaced {W = W}) (derive_all lib config ds)
  unfolding derive_all
  derive_all-Keeps [] = Keeps-pure tt
  derive_all-Keeps (d ∷ ds) =
      Keeps-bind (derive lib config d) (λ _. derive_all lib config ds) (derive-Keeps d)
        (λ _. derive_all-Keeps ds)

  nothing-Placed : (w : W) → IsPlaced (no_translation, w)
  unfolding IsPlaced find
  nothing-Placed w = λ k h. absurd (cc)

  -- Whether translation returns or throws, and whatever the earlier translation was, each name that
  -- is kept for later evaluation has a value in the output.
  pub translate-Placed :
      (inputs : Params) (t : Translation) (w : W) → IsPlaced (translate lib config inputs (t, w)).1
  unfolding translate
  translate-Placed inputs t w =
      (Keeps-bind
          (translate_inputs lib config inputs inputs
            >> fill_defaults lib config write config.primary_defaults
            >> derive_all lib config config.derived_values)
          (λ _. fill_defaults lib config write_secondary config.secondary_defaults)
          (Keeps-bind
            (translate_inputs lib config inputs inputs
              >> fill_defaults lib config write config.primary_defaults)
            (λ _. derive_all lib config config.derived_values)
            (Keeps-bind (translate_inputs lib config inputs inputs)
              (λ _. fill_defaults lib config write config.primary_defaults)
              (translate_inputs-Keeps inputs inputs)
              (λ _. fill_defaults-Keeps write write-Placed config.primary_defaults))
            (λ _. derive_all-Keeps config.derived_values))
          (λ _.
            fill_defaults-Keeps write_secondary write_secondary-Placed
              config.secondary_defaults)).at
        (no_translation, w) (nothing-Placed w)
