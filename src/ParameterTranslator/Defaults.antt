-- ===== src/ParameterTranslator/Defaults.antt =====
-- The defaults of ParameterTranslator.cpp end up in the output.
use data_proxy_library.Common.{
  String, ◌≡◌, refl, subst, Bool, true, false, Option, none, some, [], ◌∷◌, is_some, ◌==◌,
  if◌then◌else◌, arith, eq_iff, eq_refl, inl, inr, Bool-cases,
}
use data_proxy_library.Common.Dict.{Dict, find, find-put}
use data_proxy_library.Common.Exec.{Result, ok, err, diverged, Exec, continue, ◌>>=◌}
use data_proxy_library.Common.Exec.Rules.{Keeps, Keeps-pure, Keeps-bind, if-lands}
use data_proxy_library.Request.{Params}
use data_proxy_library.Node.Config.{Translation, no_translation}
use data_proxy_library.ParameterTranslator.{
  Derivation, TranslatorConfig, in_world, modify, translate_inputs, fill_default, fill_defaults,
  save_derived, derive_from, derive_single, derive, derive_all, translate,
}
use data_proxy_library.ParameterTranslator.Values.{
  TranslatorLibrary, kind_of, evaluate, write, write_secondary,
}

module _ {W : Type 0} (k : String) where
  -- The output has a value of the name.
  abbrev pub IsNamed : Translation × W → Type 0
  IsNamed (t, w) = is_some (find k t.output) ≡ true

  write-Named :
      (name : String) (made : String × Option String) (t : Translation) (w : W)
      → IsNamed (t, w)
      → IsNamed (write name made t, w)
  unfolding write
  write-Named name (value, b) t w h = ground (arith, find-put name k value t.output)

  write_secondary-Named :
      (name : String) (made : String × Option String) (t : Translation) (w : W)
      → IsNamed (t, w)
      → IsNamed (write_secondary name made t, w)
  unfolding write_secondary
  write_secondary-Named name (value, none) t w h = ground (arith, find-put name k value t.output)
  write_secondary-Named name (value, some b) t w h = ground (arith, find-put name k value t.output)

  in_world-Named : {A : Type 0} (m : Exec W A) → Keeps IsNamed (in_world m)
  in_world-Named m = record { at = λ (t, w) h. h }

  modify-Named :
      (f : Translation → Translation)
      → ((t : Translation) (w : W) → IsNamed (t, w) → IsNamed (f t, w))
      → Keeps IsNamed (modify f)
  modify-Named f g = record { at = λ (t, w) h. g t w h }

  save_derived-Named :
      (name : String) (o : Bool) (made : String × Option String) (t : Translation) (w : W)
      → IsNamed (t, w)
      → IsNamed (save_derived name o made t, w)
  save_derived-Named name o made t w h = ground (arith, write-Named name made t w h)

module _ {W : Type 0} (lib : TranslatorLibrary W) (config : TranslatorConfig) where
  module _ (k : String) where
    fill_default-Named :
        (save : String → String × Option String → Translation → Translation)
        → ((name : String) (made : String × Option String) (t : Translation) (w : W)
            → IsNamed k (t, w)
            → IsNamed k (save name made t, w))
        → (p : String × String) → Keeps (IsNamed {W = W} k) (fill_default lib config save p)
    unfolding fill_default
    fill_default-Named save saves (name, value) = record {
      at = λ (t, w) h.
          if-lands (IsNamed k) (is_some (find name t.output)) (ok tt, (t, w))
            ((in_world (evaluate lib config.shell_timeout (kind_of value) value) >>= λ made.
                modify (save name made))
              (t, w))
            (λ _. h)
            (λ _.
              (Keeps-bind (in_world (evaluate lib config.shell_timeout (kind_of value) value))
                  (λ made. modify (save name made))
                  (in_world-Named k (evaluate lib config.shell_timeout (kind_of value) value))
                  (λ made. modify-Named k (save name made) (saves name made))).at
                (t, w) h);
    }

    fill_defaults-Named :
        (save : String → String × Option String → Translation → Translation)
        → ((name : String) (made : String × Option String) (t : Translation) (w : W)
            → IsNamed k (t, w)
            → IsNamed k (save name made t, w))
        → (ps : Params) → Keeps (IsNamed {W = W} k) (fill_defaults lib config save ps)
    unfolding fill_defaults
    fill_defaults-Named save saves [] = Keeps-pure tt
    fill_defaults-Named save saves (p ∷ ps) =
        Keeps-bind (fill_default lib config save p) (λ _. fill_defaults lib config save ps)
          (fill_default-Named save saves p) (λ _. fill_defaults-Named save saves ps)

    derive_from-Named :
        (name : String) (o : Bool) (value : String)
        → Keeps (IsNamed {W = W} k) (derive_from lib config name o value)
    unfolding derive_from
    derive_from-Named name o value =
        Keeps-bind (in_world (evaluate lib config.shell_timeout (kind_of value) value))
          (λ made. modify (save_derived name o made))
          (in_world-Named k (evaluate lib config.shell_timeout (kind_of value) value))
          (λ made. modify-Named k (save_derived name o made) (save_derived-Named k name o made))

    derive_single-Named :
        (name : String) (d : Derivation) (v : Option String)
        → Keeps (IsNamed {W = W} k) (derive_single lib config name d v)
    derive_single-Named name d none = Keeps-pure tt
    derive_single-Named name d (some value) =
        derive_from-Named name d.is_override (lib.replace_value d.value_derivation value)

    derive-Named : (d : String × Derivation) → Keeps (IsNamed {W = W} k) (derive lib config d)
    unfolding derive
    derive-Named (name, d) = record {
      at = λ (t, w) h.
          if-lands (IsNamed k) (d.value_source == "*")
            ((in_world (lib.substitute_variables d.value_derivation t.output)
                >>= derive_from lib config name d.is_override)
              (t, w))
            (derive_single lib config name d (find d.value_source t.output) (t, w))
            (λ _.
              (Keeps-bind (in_world (lib.substitute_variables d.value_derivation t.output))
                  (derive_from lib config name d.is_override)
                  (in_world-Named k (lib.substitute_variables d.value_derivation t.output))
                  (derive_from-Named name d.is_override)).at
                (t, w) h)
            (λ _. (derive_single-Named name d (find d.value_source t.output)).at (t, w) h);
    }

    derive_all-Named : (ds : Dict Derivation) → Keeps (IsNamed {W = W} k) (derive_all lib config ds)
    unfolding derive_all
    derive_all-Named [] = Keeps-pure tt
    derive_all-Named (d ∷ ds) =
        Keeps-bind (derive lib config d) (λ _. derive_all lib config ds) (derive-Named d)
          (λ _. derive_all-Named ds)

  -- What follows an action that has come to its end, and has come to its end itself.
  behind :
      {A : Type 0} (P : Translation × W → Type 0) (r : Result A)
      (f : A → Exec (Translation × W) (Unit {0})) (s : Translation × W)
      → (continue r f s).0 ≡ ok tt
      → ((a : A) → r ≡ ok a → (f a s).0 ≡ ok tt → P (f a s).1)
      → P (continue r f s).1
  behind P (ok a) f s h g = g a refl h
  behind P (err e) f s h g = absurd (cc)
  behind P diverged f s h g = absurd (cc)

  if-ends :
      (P : Translation × W → Type 0) (b : Bool) (x y : Result (Unit {0}) × (Translation × W))
      → (if b then x else y).0 ≡ ok tt
      → (b ≡ true → P x.1)
      → (y.0 ≡ ok tt → P y.1)
      → P (if b then x else y).1
  if-ends P true x y h f g = f refl
  if-ends P false x y h f g = g h

  -- A default that has been filled in.
  write-fills :
      (name : String) (r : Result (String × Option String)) (t : Translation) (w : W)
      → (continue r (λ made. modify (write name made)) (t, w)).0 ≡ ok tt
      → IsNamed name (continue r (λ made. modify (write name made)) (t, w)).1
  unfolding write
  write-fills name (ok (value, b)) t w h =
      ground (arith, find-put name name value t.output, eq_refl name)
  write-fills name (err e) t w h = absurd (cc)
  write-fills name diverged t w h = absurd (cc)

  fill_default-fills :
      (name value : String) (s : Translation × W)
      → (fill_default lib config write (name, value) s).0 ≡ ok tt
      → IsNamed name (fill_default lib config write (name, value) s).1
  unfolding fill_default
  fill_default-fills name value (t, w) h =
      let made = evaluate lib config.shell_timeout (kind_of value) value w in
      if-ends (IsNamed name) (is_some (find name t.output)) (ok tt, (t, w))
        (continue made.0 (λ m. modify (write name m)) (t, made.1)) h (λ p. p)
        (λ h'. write-fills name made.0 t made.1 h')

  fill_defaults-fills :
      (k : String) (ps : Params) (s : Translation × W)
      → is_some (find k ps) ≡ true
      → (fill_defaults lib config write ps s).0 ≡ ok tt
      → IsNamed k (fill_defaults lib config write ps s).1
  unfolding fill_defaults find
  fill_defaults-fills k [] s there h = absurd (cc)
  fill_defaults-fills k ((name, value) ∷ ps) s there h =
      let first = fill_default lib config write (name, value) s in
      behind (IsNamed k) first.0 (λ _. fill_defaults lib config write ps) first.1 h
        (λ a p h'. elim (Bool-cases (name == k)) [
          | inl same ↦ (fill_defaults-Named k write (write-Named k) ps).at first.1 (
              subst (λ n. IsNamed n first.1) ((eq_iff name k).0 same)
                (fill_default-fills name value s p))
          | inr other ↦
              let later : is_some (find k ps) ≡ true = ground arith in
              fill_defaults-fills k ps first.1 later h'
        ])

  -- After a translation that returns, each parameter with a primary default has a value in the
  -- output, whatever else the translator is configured to do.
  pub translate-defaults :
      (inputs : Params) (t : Translation) (w : W) (k : String)
      → is_some (find k config.primary_defaults) ≡ true
      → (translate lib config inputs (t, w)).0 ≡ ok tt
      → is_some (find k (translate lib config inputs (t, w)).1.0.output) ≡ true
  unfolding translate
  translate-defaults inputs t w k there h =
      let read = translate_inputs lib config inputs inputs (no_translation, w) in
      let filled =
        continue read.0 (λ _. fill_defaults lib config write config.primary_defaults) read.1 in
      let derived = continue filled.0 (λ _. derive_all lib config config.derived_values) filled.1 in
      behind (IsNamed k) derived.0
        (λ _. fill_defaults lib config write_secondary config.secondary_defaults) derived.1 h
        (λ _ p _.
          (fill_defaults-Named k write_secondary (write_secondary-Named k)
              config.secondary_defaults).at
            derived.1
            (behind (IsNamed k) filled.0 (λ _. derive_all lib config config.derived_values) filled.1
              p
              (λ _ q _. (derive_all-Named k config.derived_values).at filled.1 (
                behind (IsNamed k) read.0
                  (λ _. fill_defaults lib config write config.primary_defaults) read.1 q
                  (λ _ _ h'. fill_defaults-fills k config.primary_defaults read.1 there h')))))
