-- ===== src/ParameterTranslator/Places.antt =====
-- What each step of ParameterTranslator::Translate does to the names that are kept for later.
use data_proxy_library.Common.{String, ◌≡◌, true, Option, none, some, is_some, arith}
use data_proxy_library.Common.Dict.{find, put, find-put, find-erase}
use data_proxy_library.Common.Exec.{Exec}
use data_proxy_library.Common.Exec.Rules.{Keeps}
use data_proxy_library.Request.{Params}
use data_proxy_library.Node.Config.{Translation}
use data_proxy_library.ParameterTranslator.{TranslatorConfig, in_world, modify, deliver}
use data_proxy_library.ParameterTranslator.Values.{write, write_secondary}

-- Every name that is kept for later has a value in the output.
unfoldable pub HasPlaces : Params → Params → Type 0
HasPlaces delayed output =
    (k : String) → is_some (find k delayed) ≡ true → is_some (find k output) ≡ true

module _ {W : Type 0} where
  unfoldable pub IsPlaced : Translation × W → Type 0
  unfolding HasPlaces
  IsPlaced (t, w) = HasPlaces t.delayed t.output

  pub write-Placed :
      (name : String) (made : String × Option String) (t : Translation) (w : W)
      → IsPlaced (t, w)
      → IsPlaced (write name made t, w)
  unfolding IsPlaced write
  write-Placed name (value, none) t w h = λ k. ground (arith, find-put name k value t.output, h k)
  write-Placed name (value, some b) t w h =
      λ k. ground (arith, find-put name k value t.output, find-put name k b t.delayed, h k)

  pub write_secondary-Placed :
      (name : String) (made : String × Option String) (t : Translation) (w : W)
      → IsPlaced (t, w)
      → IsPlaced (write_secondary name made t, w)
  unfolding IsPlaced write_secondary
  write_secondary-Placed name (value, none) t w h =
      λ k. ground (arith, find-put name k value t.output, h k)
  write_secondary-Placed name (value, some b) t w h =
      λ k. ground (arith, find-put name k value t.output, find-put name k b t.delayed, h k)

  pub deliver-Placed :
      (config : TranslatorConfig) (name : String) (made : String × Option String) (t : Translation)
      (w : W)
      → IsPlaced (t, w)
      → IsPlaced (deliver config name made t, w)
  unfolding IsPlaced deliver
  deliver-Placed config name (value, none) t w h =
      λ k. ground (arith, find-put name k value t.output, find-erase name k t.delayed, h k)
  deliver-Placed config name (value, some b) t w h = λ k. ground (
    arith,
    find-put name k value t.output,
    find-put name k b t.delayed,
    find-erase name k (put name b t.delayed),
    find-erase name k t.delayed,
    h k,
  )

  -- Actions on the world leave the translation alone.
  pub in_world-Placed : {A : Type 0} (m : Exec W A) → Keeps IsPlaced (in_world m)
  unfolding IsPlaced
  in_world-Placed m = record { at = λ (t, w) h. h }

  pub modify-Placed :
      (f : Translation → Translation)
      → ((t : Translation) (w : W) → IsPlaced (t, w) → IsPlaced (f t, w))
      → Keeps IsPlaced (modify f)
  modify-Placed f k = record { at = λ (t, w) h. k t w h }
