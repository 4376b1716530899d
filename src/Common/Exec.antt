-- ===== src/Common/Exec.antt =====
-- C++ functions that mutate state and may throw: what was written before a throw stays written.
pub mod Rules
use Prim.Native.Nat.{ℕ}
use Prim.Native.String.{String}
use mathlib.Core.Path.{◌≡◌, refl}
use mathlib.Core.Path.{◌≡◌, refl}
use mathlib.Core.Logic.{◌⊎◌, inl, inr}
use mathlib.Core.Bool.{Bool, true, false}
use mathlib.Core.List.{List}

-- The exception classes that the code tells apart, with the names that their messages carry.
-- `mv` and `std` stand for what other code throws: an MVException, and a std::exception that is
-- none.
pub data Error : Type 0 where
  uninitialized : Error
  unknown_node : String → Error
  already_started : Error
  marked_for_rollback : String → Error
  marked_for_commit : String → Error
  partial_commit : List String → Error
  missing_forward : String → String → Error
  forward_cycle : List String → String → Error
  ambiguous_name : String → Error
  ping_failed : Error → Error
  bad_stream : Error
  missing_parameters : List String → Error
  not_supported : String → Error
  critical_failures : List String → Error
  nothing_succeeded : String → Error
  no_config_file : Error
  empty_pool : String → Error
  no_instances : Error
  invalid_database_type : String → Error
  unknown_connection : String → Error
  unknown_table : String → Error
  duplicate_connection : String → Error
  unknown_shard : String → Error
  busy_connection_lost : String → Error
  no_header : Error
  no_partition_key : String → Error
  sort_failed : ℕ → Error
  eval_failed : ℕ → Error
  ambiguous_translation : String → Error
  chained_translation : String → Error
  derived_from_derived : String → String → Error
  mv : ℕ → Error
  std : ℕ → Error

-- `diverged` stands for a call that has not come back within its fuel: no handler catches it.
pub data Result {ℓ} (A : Type ℓ) : Type ℓ where
  ok : A → Result A
  err : Error → Result A
  diverged : Result A

abbrev pub is_ok {ℓ} : {A : Type ℓ} → Result A → Bool
is_ok (ok a) = true
is_ok (err e) = false
is_ok diverged = false

abbrev pub Exec : Type 0 → Type 0 → Type 0
Exec S A = S → Result A × S

module _ {S A : Type 0} where
  abbrev pub pure : A → Exec S A
  pure a s = (ok a, s)

  abbrev pub raise : Error → Exec S A
  raise e s = (err e, s)

-- try { m } catch( const std::exception& ) { h }
module _ {S A : Type 0} where
  abbrev pub handle : Result A → (Error → Exec S A) → Exec S A
  handle (ok a) h s = (ok a, s)
  handle (err e) h s = h e s
  handle diverged h s = (diverged, s)

  abbrev pub catch : Exec S A → (Error → Exec S A) → Exec S A
  catch m h s = handle (m s).0 h (m s).1

module _ {S A B : Type 0} where
  abbrev pub continue : Result A → (A → Exec S B) → Exec S B
  continue (ok a) f s = f a s
  continue (err e) f s = (err e, s)
  continue diverged f s = (diverged, s)

  infixl 5 ◌>>=◌ ◌>>◌
  abbrev pub ◌>>=◌ : Exec S A → (A → Exec S B) → Exec S B
  ◌>>=◌ m f s = continue (m s).0 f (m s).1

  abbrev pub ◌>>◌ : Exec S A → Exec S B → Exec S B
  m >> k = m >>= λ _. k

-- To split on an outcome and keep the equation.
pub Result-cases :
    {A : Type 0} (r : Result A)
    → ((a : A) × (r ≡ ok a)) ⊎ ((e : Error) × (r ≡ err e)) ⊎ (r ≡ diverged)
Result-cases (ok a) = inl (a, refl)
Result-cases (err e) = inr (inl (e, refl))
Result-cases diverged = inr (inr refl)
