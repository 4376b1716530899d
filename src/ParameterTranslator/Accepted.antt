-- ===== src/ParameterTranslator/Accepted.antt =====
-- What a translator that its constructor has accepted is like.
use data_proxy_library.Common.{
  String, ◌≡◌, refl, subst, sym, Option, none, some, List, [], ◌∷◌, is_some, if◌then◌else◌, All,
}
use data_proxy_library.Common.Dict.{Dict, find}
use data_proxy_library.Common.Exec.{
  Error, chained_translation, derived_from_derived, Result, ok, err, diverged, continue,
}
use data_proxy_library.ParameterTranslator.{Rule, Derivation, TranslatorConfig}
use data_proxy_library.ParameterTranslator.Configure.{
  Attributes, sources_of, first_error, target_error, chain_error, check_chains, check_sources,
  check_derived, throw_if, check_translator, add_parameters, configure,
}

-- Where the rule's name leads to a parameter, that one's name stays.
abbrev pub IsUnchained : Dict Rule → String × Rule → Type 0
IsUnchained rules (name, r) =
    (target : String) (s : Rule)
    → r.translated_name ≡ some target
    → find target rules ≡ some s
    → s.translated_name ≡ none

-- No source of the value is derived.
abbrev pub IsIndependent : (String → List String) → Dict Derivation → String × Derivation → Type 0
IsIndependent references derived (name, d) =
    All (λ source. find source derived ≡ none) (sources_of references d)

pub record IsAccepted (references : String → List String) (t : TranslatorConfig) : Type 0 where
  pub unchained : All (IsUnchained t.parameters) t.parameters
  pub independent : All (IsIndependent references t.derived_values) t.derived_values

no_errors : (e f : Option Error) → first_error e f ≡ none → (e ≡ none) × (f ≡ none)
no_errors none f h = (refl, h)
no_errors (some e) f h = absurd cc

is_none :
    {A : Type 0} (o : Option A) (e : Error) → (if is_some o then some e else none) ≡ none → o ≡ none
is_none none e h = refl
is_none (some a) e h = absurd cc

chain_error-none :
    (rules : Dict Rule) (name : String) (r : Rule)
    → chain_error rules r.translated_name ≡ none
    → IsUnchained rules (name, r)
chain_error-none rules name r h target s e f =
    is_none s.translated_name (chained_translation target)
      (subst (λ o. target_error target o ≡ none) f (subst (λ o. chain_error rules o ≡ none) e h))

check_chains-none :
    (rules rest : Dict Rule) → check_chains rules rest ≡ none → All (IsUnchained rules) rest
unfolding check_chains
check_chains-none rules [] h = tt
check_chains-none rules ((name, r) ∷ rest) h =
    let split = no_errors (chain_error rules r.translated_name) (check_chains rules rest) h in
    (chain_error-none rules name r split.0, check_chains-none rules rest split.1)

check_sources-none :
    (name : String) (derived : Dict Derivation) (sources : List String)
    → check_sources name derived sources ≡ none
    → All (λ source. find source derived ≡ none) sources
unfolding check_sources
check_sources-none name derived [] h = tt
check_sources-none name derived (s ∷ sources) h =
    let split = no_errors _ (check_sources name derived sources) h in
    (
      is_none (find s derived) (derived_from_derived name s) split.0,
      check_sources-none name derived sources split.1,
    )

check_derived-none :
    (references : String → List String) (derived rest : Dict Derivation)
    → check_derived references derived rest ≡ none
    → All (IsIndependent references derived) rest
unfolding check_derived
check_derived-none references derived [] h = tt
check_derived-none references derived ((name, d) ∷ rest) h =
    let split =
      no_errors (check_sources name derived (sources_of references d))
        (check_derived references derived rest) h in
    (
      check_sources-none name derived (sources_of references d) split.0,
      check_derived-none references derived rest split.1,
    )

thrown :
    (o : Option Error) (t : TranslatorConfig)
    → (throw_if o t).0 ≡ ok tt
    → (o ≡ none) × ((throw_if o t).1 ≡ t)
thrown none t h = (refl, refl)
thrown (some e) t h = absurd cc

check_translator-Accepted :
    (references : String → List String) (t : TranslatorConfig)
    → (check_translator references t).0 ≡ ok tt
    → IsAccepted references (check_translator references t).1
unfolding check_translator
check_translator-Accepted references t h =
    let none_found = thrown _ t h in
    let split =
      no_errors (check_chains t.parameters t.parameters)
        (check_derived references t.derived_values t.derived_values) none_found.0 in
    subst (IsAccepted references) (sym none_found.1) (record {
      unchained = check_chains-none t.parameters t.parameters split.0;
      independent = check_derived-none references t.derived_values t.derived_values split.1;
    })

configured :
    (references : String → List String) (x : Result (Unit {0}) × TranslatorConfig)
    → (continue x.0 (λ u. check_translator references) x.1).0 ≡ ok tt
    → IsAccepted references (continue x.0 (λ u. check_translator references) x.1).1
configured references (ok u, t) h = check_translator-Accepted references t h
configured references (err e, t) h = absurd cc
configured references (diverged, t) h = absurd cc

-- A parameter translator whose constructor returns has no chain of name translations, as a
-- translated name leads to no parameter whose name is translated as well, and no derived value
-- one of whose sources is derived as well.
pub configure-Accepted :
    (references : String → List String) (nodes : List Attributes) (t : TranslatorConfig)
    → (configure references nodes t).0 ≡ ok tt
    → IsAccepted references (configure references nodes t).1
unfolding configure
configure-Accepted references nodes t h = configured references (add_parameters nodes t) h
