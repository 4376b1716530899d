-- ===== src/Common/Exec/Rules.antt =====
-- What actions keep, and that they come back: one rule for each way to build an action.
use mathlib.Core.Path.{◌≡◌, refl, subst, sym}
use mathlib.Core.Logic.{◌≢◌}
use mathlib.Core.Bool.{Bool, true, false}
use data_proxy_library.Common.Base.{if◌then◌else◌}
use data_proxy_library.Common.Exec.{
  Error, Result, ok, err, diverged, Exec, pure, raise, continue, handle, catch, ◌>>=◌,
}

-- Whether it returns or throws, the action keeps `P`.
pub record Keeps {ℓ} {S A : Type 0} (P : S → Type ℓ) (m : Exec S A) : Type ℓ where
  pub at : (s : S) → P s → P (m s).1

-- The action comes back, with a value or an exception.
pub record Returns {S A : Type 0} (m : Exec S A) : Type 0 where
  pub at : (s : S) → (m s).0 ≢ diverged

module _ {ℓ} {S A : Type 0} {P : S → Type ℓ} where
  pub Keeps-pure : (a : A) → Keeps P (pure a)
  Keeps-pure a = record { at = λ s h. h }

  pub Keeps-raise : (e : Error) → Keeps P (raise {A = A} e)
  Keeps-raise e = record { at = λ s h. h }

  pub Keeps-if : (b : Bool) (m n : Exec S A) → Keeps P m → Keeps P n → Keeps P (if b then m else n)
  Keeps-if true m n km kn = km
  Keeps-if false m n km kn = kn

  pub handle-Keeps :
      (r : Result A) (h : Error → Exec S A) (s : S)
      → P s
      → ((e : Error) → Keeps P (h e))
      → P (handle r h s).1
  handle-Keeps (ok a) h s p k = p
  handle-Keeps (err e) h s p k = (k e).at s p
  handle-Keeps diverged h s p k = p

  pub Keeps-catch :
      (m : Exec S A) (h : Error → Exec S A)
      → Keeps P m
      → ((e : Error) → Keeps P (h e))
      → Keeps P (catch m h)
  Keeps-catch m h km kh = record { at = λ s p. handle-Keeps (m s).0 h (m s).1 (km.at s p) kh }

module _ {S A : Type 0} where
  pub Returns-pure : (a : A) → Returns {S = S} (pure a)
  Returns-pure a = record { at = λ s e. cc }

  pub Returns-raise : (e : Error) → Returns {S = S} (raise {A = A} e)
  Returns-raise e = record { at = λ s h. cc }

  pub handle-Returns :
      (r : Result A) (h : Error → Exec S A) (s : S)
      → r ≢ diverged
      → ((e : Error) → Returns (h e))
      → (handle r h s).0 ≢ diverged
  handle-Returns (ok a) h s p k = λ e. cc
  handle-Returns (err e) h s p k = (k e).at s
  handle-Returns diverged h s p k = p

  pub Returns-catch :
      (m : Exec S A) (h : Error → Exec S A)
      → Returns m
      → ((e : Error) → Returns (h e))
      → Returns (catch m h)
  Returns-catch m h km kh = record { at = λ s. handle-Returns (m s).0 h (m s).1 (km.at s) kh }

module _ {ℓ} {S A B : Type 0} {P : S → Type ℓ} where
  pub continue-Keeps :
      (r : Result A) (f : A → Exec S B) (s : S)
      → P s
      → ((a : A) → Keeps P (f a))
      → P (continue r f s).1
  continue-Keeps (ok a) f s p k = (k a).at s p
  continue-Keeps (err e) f s p k = p
  continue-Keeps diverged f s p k = p

  pub Keeps-bind :
      (m : Exec S A) (f : A → Exec S B) → Keeps P m → ((a : A) → Keeps P (f a)) → Keeps P (m >>= f)
  Keeps-bind m f km kf = record { at = λ s p. continue-Keeps (m s).0 f (m s).1 (km.at s p) kf }

module _ {S A B : Type 0} where
  pub continue-Returns :
      (r : Result A) (f : A → Exec S B) (s : S)
      → r ≢ diverged
      → ((a : A) → Returns (f a))
      → (continue r f s).0 ≢ diverged
  continue-Returns (ok a) f s p k = (k a).at s
  continue-Returns (err e) f s p k = λ h. cc
  continue-Returns diverged f s p k = absurd (p refl)

  pub Returns-bind :
      (m : Exec S A) (f : A → Exec S B) → Returns m → ((a : A) → Returns (f a)) → Returns (m >>= f)
  Returns-bind m f km kf = record { at = λ s. continue-Returns (m s).0 f (m s).1 (km.at s) kf }

  pub Returns-continue :
      (r : Result A) (f : A → Exec S B)
      → r ≢ diverged
      → ((a : A) → Returns (f a))
      → Returns (continue r f)
  Returns-continue r f h k = record { at = λ s. continue-Returns r f s h k }

  pub Keeps-continue {ℓ} :
      {P : S → Type ℓ} (r : Result A) (f : A → Exec S B)
      → ((a : A) → Keeps P (f a))
      → Keeps P (continue r f)
  Keeps-continue r f k = record { at = λ s p. continue-Keeps r f s p k }

-- A property of the final state, branch by branch; the test stays as it is.
pub if-lands {ℓ} :
    {S A : Type 0} (P : S → Type ℓ) (b : Bool) (x y : Result A × S)
    → (b ≡ true → P x.1)
    → (b ≡ false → P y.1)
    → P (if b then x else y).1
if-lands P true x y h k = h refl
if-lands P false x y h k = k refl

-- The action returns a value of which `Q` holds in the state that it leaves.
module _ {S A : Type 0} where
  abbrev pub IsSettled : (A → S → Type 0) → Result A × S → Type 0
  IsSettled Q (r, s) = (a : A) × (r ≡ ok a) × Q a s

-- From every state of which `P` holds.
pub record Settles {S A : Type 0} (P : S → Type 0) (m : Exec S A) (Q : A → S → Type 0)
    : Type 0 where
  pub at : (s : S) → P s → IsSettled Q (m s)

module _ {S A : Type 0} {P : S → Type 0} where
  pub Settles-pure : (a : A) (Q : A → S → Type 0) → ((s : S) → P s → Q a s) → Settles P (pure a) Q
  Settles-pure a Q h = record { at = λ s p. (a, refl, h s p) }

ok_injective : {A : Type 0} (a b : A) → ok a ≡ ok b → b ≡ a
ok_injective a b e = cc

module _ {S A B : Type 0} where
  pub continue-Settles :
      (r : Result A) (f : A → Exec S B) (s : S) (Q : A → S → Type 0) (R : B → S → Type 0)
      → IsSettled Q (r, s)
      → ((a : A) → Settles (Q a) (f a) R)
      → IsSettled R (continue r f s)
  continue-Settles (ok a) f s Q R (b, e, q) k =
      (k a).at s (subst (λ x. Q x s) (ok_injective a b e) q)
  continue-Settles (err d) f s Q R (b, e, q) k = absurd cc
  continue-Settles diverged f s Q R (b, e, q) k = absurd cc

  pub Settles-bind :
      {P : S → Type 0} (m : Exec S A) (f : A → Exec S B) (Q : A → S → Type 0) (R : B → S → Type 0)
      → Settles P m Q
      → ((a : A) → Settles (Q a) (f a) R)
      → Settles P (m >>= f) R
  Settles-bind m f Q R km kf = record {
    at = λ s p. continue-Settles (m s).0 f (m s).1 Q R (km.at s p) kf;
  }

-- Of every value that the action returns `Q` holds.
pub record Yields {S A : Type 0} (Q : A → Type 0) (m : Exec S A) : Type 0 where
  pub at : (s : S) (a : A) → (m s).0 ≡ ok a → Q a

module _ {S A : Type 0} where
  pub Yields-pure : (Q : A → Type 0) (a : A) → Q a → Yields {S = S} Q (pure a)
  Yields-pure Q a q = record { at = λ s b e. subst Q (ok_injective b a (sym e)) q }

module _ {S A B : Type 0} where
  continue-Yields :
      (Q : B → Type 0) (r : Result A) (f : A → Exec S B) (s : S) (b : B)
      → ((a : A) → Yields Q (f a))
      → (continue r f s).0 ≡ ok b
      → Q b
  continue-Yields Q (ok a) f s b k e = (k a).at s b e
  continue-Yields Q (err d) f s b k e = absurd cc
  continue-Yields Q diverged f s b k e = absurd cc

  pub Yields-bind :
      (Q : B → Type 0) (m : Exec S A) (f : A → Exec S B)
      → ((a : A) → Yields Q (f a))
      → Yields Q (m >>= f)
  Yields-bind Q m f k = record { at = λ s b. continue-Yields Q (m s).0 f (m s).1 b k }

  continue-Keeps_yielded :
      {P : S → Type 0} (Q : A → Type 0) (r : Result A) (f : A → Exec S B) (s : S)
      → P s
      → ((a : A) → r ≡ ok a → Q a)
      → ((a : A) → Q a → Keeps P (f a))
      → P (continue r f s).1
  continue-Keeps_yielded Q (ok a) f s p q k = (k a (q a refl)).at s p
  continue-Keeps_yielded Q (err e) f s p q k = p
  continue-Keeps_yielded Q diverged f s p q k = p

  -- The rest of the action may use what holds of the value.
  pub Keeps-bind_yielded :
      {P : S → Type 0} (Q : A → Type 0) (m : Exec S A) (f : A → Exec S B)
      → Keeps P m
      → Yields Q m
      → ((a : A) → Q a → Keeps P (f a))
      → Keeps P (m >>= f)
  Keeps-bind_yielded Q m f km y k = record {
    at = λ s p. continue-Keeps_yielded Q (m s).0 f (m s).1 (km.at s p) (y.at s) k;
  }
