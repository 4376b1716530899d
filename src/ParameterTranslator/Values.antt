-- ===== src/ParameterTranslator/Values.antt =====
-- The value translators of ParameterTranslator.cpp: expressions for the shell, built-in values, and
-- literals.
use Prim.Native.String.{len, slice, ◌++◌}
use data_proxy_library.Common.{
  ℕ, ◌-◌, String, Bool, ◌&&◌, ◌||◌, Option, none, some, ltb, nat_eq, ◌==◌, if◌then◌else◌,
}
use data_proxy_library.Common.Dict.{put}
use data_proxy_library.Common.Exec.{eval_failed, ok, Exec, pure, raise, ◌>>=◌}
use data_proxy_library.Request.{Params, Bytes}
use data_proxy_library.Node.Config.{Translation}

-- What the translator calls: the host's name, the environment's instance name, the unique ids, the
-- process id, the clock in a format, a command for a shell with a timeout (its status and standard
-- output, or what it throws), boost::replace_all of %v by a value, the substitution of ${...}
-- variables, an MD5 sum, and a number's digits.
pub record TranslatorLibrary (W : Type 0) : Type 0 where
  pub hostname : String
  pub instance_name : W → Option String
  pub unique_id : W → String × W
  pub process_id : String
  pub formatted_time : String → W → String
  pub run_shell : String → ℕ → Exec W (ℕ × String)
  pub replace_value : String → String → String
  pub substitute_variables : String → Params → Exec W String
  pub md5 : Bytes → String
  pub digits : ℕ → String

abbrev pub is_expression : String → Bool
is_expression v = slice v 0 1 == "`" && slice v (len v - 1) (len v) == "`"

-- v.substr( 1, v.size() - 2 ), of GetExpression and GetBuiltIn; a size of 1 leaves nothing.
abbrev pub get_inner : String → String
get_inner v = slice v 1 (len v - 1)

abbrev pub is_built_in : String → Bool
is_built_in v = ltb 1 (len v) && slice v 0 1 == "[" && slice v (len v - 1) (len v) == "]"

unfoldable pub is_delayed_parameter : String → Bool
is_delayed_parameter built_in = built_in == "md5" || built_in == "byteCount"

-- The format that follows `datetime`, if one does.
abbrev pub time_format : String → String
time_format v = if ltb 9 (len v) then slice v 9 (len v) else "%Y%m%dT%H%M%S"

abbrev pub instance_or_unknown : String → Option String → String
instance_or_unknown v none = v ++ "-unknown"
instance_or_unknown v (some i) = i

-- A value for an expression, a built-in value with its name, or a literal.
pub data ValueKind : Type 0 where
  expression built_in : String → ValueKind
  literal : ValueKind

-- The order of the tests that every use of a value makes.
unfoldable pub kind_of : String → ValueKind
kind_of v =
    if is_expression v
    then expression (get_inner v)
    else if is_built_in v
    then built_in (get_inner v)
    else literal

module _ {W : Type 0} (lib : TranslatorLibrary W) (timeout : ℕ) where
  unfoldable pub eval_expression : String → Exec W String
  eval_expression cmd = lib.run_shell cmd timeout >>= λ done.
      if nat_eq done.0 0 then pure done.1 else raise (eval_failed done.0)

  unfoldable pub eval_built_in : String → W → String × W
  unfolding is_delayed_parameter
  eval_built_in v w =
      if v == "hostname"
      then (lib.hostname, w)
      else if v == "instance"
      then (instance_or_unknown v (lib.instance_name w), w)
      else if v == "guid"
      then lib.unique_id w
      else if v == "pid"
      then (lib.process_id, w)
      else if slice v 0 8 == "datetime"
      then (lib.formatted_time (time_format v) w, w)
      else if is_delayed_parameter v
      then ("", w)
      else (v ++ "-unknown", w)

  -- A value, with the built-in name that it comes from, if it does.
  unfoldable pub evaluate : ValueKind → String → Exec W (String × Option String)
  unfolding eval_expression eval_built_in
  evaluate (expression cmd) v w = (eval_expression cmd >>= λ out. pure (out, none)) w
  evaluate (built_in b) v w = (ok ((eval_built_in b w).0, some b), (eval_built_in b w).1)
  evaluate literal v w = (ok (v, none), w)

  -- The value that a value translator makes of an incoming one. It replaces %v inside of the marks.
  abbrev pub with_value : String → ValueKind → ValueKind
  with_value value (expression cmd) = expression (lib.replace_value cmd value)
  with_value value (built_in b) = built_in (lib.replace_value b value)
  with_value value literal = literal

  unfoldable pub translate_value : String → String → Exec W (String × Option String)
  unfolding kind_of evaluate
  translate_value translator value =
      evaluate (with_value value (kind_of translator)) (lib.replace_value translator value)

-- m_DelayedEvaluationParameters[ name ] = built_in, where that is to be evaluated later.
unfoldable pub note_delayed : String → Option String → Params → Params
unfolding is_delayed_parameter
note_delayed name none delayed = delayed
note_delayed name (some b) delayed = if is_delayed_parameter b then put name b delayed else delayed

-- o_rTranslatedParameters[ name ] = value, with the note of what is to be evaluated later.
unfoldable pub write : String → String × Option String → Translation → Translation
unfolding note_delayed
write name (value, b) t = record {
  output = put name value t.output;
  delayed = note_delayed name b t.delayed;
}

-- The same for a secondary default: every built-in name is noted, not just those for later.
unfoldable pub write_secondary : String → String × Option String → Translation → Translation
write_secondary name (value, none) t = record t { output = put name value t.output }
write_secondary name (value, some b) t = record {
  output = put name value t.output;
  delayed = put name b t.delayed;
}
