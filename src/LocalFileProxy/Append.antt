-- ===== src/LocalFileProxy/Append.antt =====
-- What Commit puts into a file in append mode.
use data_proxy_library.Common.{
  ℕ, String, ◌≡◌, refl, subst, ap, ◌∙◌, Bool, true, false, Option, none, some, List, [], ◌∷◌, ◌++◌,
  if◌then◌else◌, ◌==◌, Bool-cases, inl, inr, eq_refl, eq_iff, contains, IsDistinct, arith,
}
use data_proxy_library.Common.Exec.{Result, ok, err, diverged, ◌>>=◌, ◌>>◌}
use data_proxy_library.Common.Exec.Rules.{Settles, IsSettled, Settles-bind}
use data_proxy_library.Request.{Bytes}
use data_proxy_library.LocalFileProxy.{FileSystem}
use data_proxy_library.LocalFileProxy.Commit.{skip_lines, skipped, write_out, append_files, or_keep}
use data_proxy_library.LocalFileProxy.Contents.{Files, with_file, Holds, IsFileSystem}

-- The stored data in order; the first lines are left out where something stands before.
unfoldable pub joined : ℕ → Bool → List Bytes → Bytes
unfolding skip_lines
joined n appending [] = []
joined n appending (b ∷ bs) = (if appending then skip_lines n b else b) ++ joined n true bs

-- The files hold the data.
abbrev pub AreHeld : Files → List String → List Bytes → Type 0
AreHeld files [] [] = Unit
AreHeld files [] (b ∷ bs) = ⊥
AreHeld files (f ∷ fs) [] = ⊥
AreHeld files (f ∷ fs) (b ∷ bs) = (files f ≡ some b) × AreHeld files fs bs

abbrev pub without : List String → Files → Files
without fs files g = if contains g fs then none else files g

pub same_held :
    (old new : Files) (fs : List String) (bs : List Bytes)
    → ((g : String) → contains g fs ≡ true → new g ≡ old g)
    → AreHeld old fs bs
    → AreHeld new fs bs
same_held old new [] [] k h = tt
same_held old new [] (b ∷ bs) k h = absurd h
same_held old new (f ∷ fs) [] k h = absurd h
same_held old new (f ∷ fs) (b ∷ bs) k (e, h) =
    (k f (ground (arith, eq_refl f)) ∙ e, same_held old new fs bs (λ g c. k g (ground arith)) h)

-- What one step leaves of the files behind it.
step_files :
    (cf f : String) (now : Bytes) (files : Files) (fs : List String) (g : String)
    → contains f fs ≡ false
    → contains cf (f ∷ fs) ≡ false
    → contains g fs ≡ true
    → with_file f none (with_file cf (some now) files) g ≡ files g
step_files cf f now files fs g d e c = ground (arith, eq_iff f g, eq_iff cf g)

-- And what all leave.
all_files :
    (cf f : String) (a : Option Bytes) (b : Option Bytes) (files : Files) (fs : List String)
    (g : String)
    → with_file cf b (without fs (with_file f none (with_file cf a files))) g
      ≡ with_file cf b (without (f ∷ fs) files) g
all_files cf f a b files fs g = ground arith

not_first : (cf f : String) (fs : List String) → contains cf (f ∷ fs) ≡ false → (cf == f) ≡ false
not_first cf f fs h = ground (arith, eq_iff cf f, eq_iff f cf)

not_last : (cf f : String) (fs : List String) → contains cf (f ∷ fs) ≡ false → (f == cf) ≡ false
not_last cf f fs h = ground arith

not_behind :
    (cf f : String) (fs : List String) → contains cf (f ∷ fs) ≡ false → contains cf fs ≡ false
not_behind cf f fs h = ground arith

kept_out :
    (cf f : String) (a : Option Bytes) (files : Files)
    → (f == cf) ≡ false
    → with_file f none (with_file cf a files) cf ≡ a
kept_out cf f a files h = rw (h, eq_refl cf) refl

concat_assoc : (a b c : Bytes) → (a ++ b) ++ c ≡ a ++ (b ++ c)
concat_assoc [] b c = refl
concat_assoc (x ∷ a) b c = ap (λ l. x ∷ l) (concat_assoc a b c)

pub concat_nil : (a : Bytes) → a ++ [] ≡ a
concat_nil [] = refl
concat_nil (x ∷ a) = ap (λ l. x ∷ l) (concat_nil a)

module _ {W : Type 0} (contents : W → Files) (fs : FileSystem W) (law : IsFileSystem contents fs)
    (n : ℕ) (cf : String) where
  -- The files are behind the bytes that were there, and gone.
  abbrev pub IsAppended :
      Bytes → Bool → List String → List Bytes → Files → Unit {0} → List String × W → Type 0
  IsAppended acc appending ops bs files u (t, w) =
      (t ≡ [])
      × Holds contents (with_file cf (some (acc ++ joined n appending bs)) (without ops files)) w

  done_appending :
      (acc : Bytes) (files : Files) (g : String)
      → files cf ≡ some acc
      → files g ≡ with_file cf (some (acc ++ [])) files g
  done_appending acc files g e = elim (Bool-cases (cf == g)) [
    | inl here ↦ rw (here, concat_nil) (subst (λ f. files f ≡ some acc) ((eq_iff cf g).0 here) e)
    | inr there ↦ rw there refl
  ]

  pub write_out-Settles :
      (acc bytes : Bytes) (files : Files)
      → files cf ≡ some acc
      → Settles
          (Holds contents files)
          (write_out fs cf bytes)
          (λ u. Holds contents (with_file cf (some (acc ++ bytes)) files))
  write_out-Settles acc bytes files e = record {
    at = λ w h. (tt, refl, (law.writes cf acc bytes files w e h).1);
  }

  append_one :
      (f : String) (b acc : Bytes) (appending : Bool) (files : Files)
      → files cf ≡ some acc
      → files f ≡ some b
      → (cf == f) ≡ false
      → Settles
          (Holds contents files)
          (fs.read f >>= λ bytes. write_out fs cf (skipped fs n appending bytes) >> fs.remove f)
          (λ u.
            Holds contents
              (with_file f none (with_file cf (some (acc ++ skipped fs n appending b)) files)))
  append_one f b acc appending files e i other =
      Settles-bind (fs.read f)
        (λ bytes. write_out fs cf (skipped fs n appending bytes) >> fs.remove f)
        (λ found w. (found ≡ b) × Holds contents files w)
        (λ u.
          Holds contents
            (with_file f none (with_file cf (some (acc ++ skipped fs n appending b)) files)))
        (law.reads f b files i)
        (λ found. record {
          at = λ w (same, h). rw same (
              (Settles-bind (write_out fs cf (skipped fs n appending b)) (λ u. fs.remove f)
                  (λ u.
                    Holds contents (with_file cf (some (acc ++ skipped fs n appending b)) files))
                  (λ u. Holds contents (
                    with_file f none (with_file cf (some (acc ++ skipped fs n appending b)) files)))
                  (write_out-Settles acc (skipped fs n appending b) files e)
                  (λ u.
                    law.removes f b (with_file cf (some (acc ++ skipped fs n appending b)) files)
                      (rw other i))).at
                w h);
        })

  pub or_keep-Settled :
      {S : Type 0} (s : Result (Unit {0}) × W) (left : S) (next : Result (Unit {0}) × (S × W))
      (Q : Unit {0} → S × W → Type 0)
      → s.0 ≡ ok tt
      → IsSettled Q next
      → IsSettled Q (or_keep s left next)
  or_keep-Settled (ok u, w) left next Q e h = h
  or_keep-Settled (err x, w) left next Q e h = absurd cc
  or_keep-Settled (diverged, w) left next Q e h = absurd cc

  pub append_files-Settles :
      (ops : List String) (bs : List Bytes) (acc : Bytes) (appending : Bool) (files : Files) (w : W)
      → files cf ≡ some acc
      → AreHeld files ops bs
      → IsDistinct (cf ∷ ops)
      → Holds contents files w
      → IsSettled (IsAppended acc appending ops bs files) (append_files fs n cf appending (ops, w))
  unfolding append_files joined
  append_files-Settles [] [] acc appending files w e held d h =
      (tt, refl, (refl, λ g. h g ∙ done_appending acc files g e))
  append_files-Settles [] (b ∷ bs) acc appending files w e held d h = absurd held
  append_files-Settles (f ∷ ops) [] acc appending files w e held d h = absurd held
  append_files-Settles (f ∷ ops) (b ∷ bs) acc appending files w e (i, held) (other, (apart, d)) h =
      let x = skipped fs n appending b in
      let left = with_file f none (with_file cf (some (acc ++ x)) files) in
      let first = (append_one f b acc appending files e i (not_first cf f ops other)).at w h in
      let rest =
        append_files-Settles ops bs (acc ++ x) true left _
          (kept_out cf f (some (acc ++ x)) files (not_last cf f ops other))
          (same_held files left ops bs (λ g c. step_files cf f (acc ++ x) files ops g apart other c)
            held)
          (not_behind cf f ops other, d) first.2 in
      or_keep-Settled _ _ _ (IsAppended acc appending (f ∷ ops) (b ∷ bs) files) first.1 (
        rest.0,
        rest.1,
        (
          rest.2.0,
          λ g.
              rest.2.1 g
              ∙ ap (λ l. with_file cf (some l) (without ops left) g)
                  (concat_assoc acc x (joined n true bs))
              ∙ all_files cf f (some (acc ++ x)) (some (acc ++ (x ++ joined n true bs))) files ops
                  g,
        ),
      )
