-- ===== src/LocalFileProxy/Appended.antt =====
-- A Commit in append mode, from the lock to the last removal.
use Prim.Native.String.{◌++◌ as ◌^^◌}
use data_proxy_library.Common.{
  ℕ, String, ◌≡◌, refl, ◌∙◌, true, false, Option, none, some, List, [], ◌∷◌, ◌++◌, is_some, ◌==◌,
  eq_iff, contains, IsDistinct, arith,
}
use data_proxy_library.Common.Exec.{◌>>=◌, ◌>>◌, pure}
use data_proxy_library.Common.Exec.Rules.{Settles, IsSettled, Settles-bind, Settles-pure}
use data_proxy_library.Request.{Bytes}
use data_proxy_library.LocalFileProxy.{FileSystem, with_files}
use data_proxy_library.LocalFileProxy.Commit.{write_out, append_old, append_files, append_pending}
use data_proxy_library.LocalFileProxy.Contents.{Files, with_file, Holds, IsFileSystem}
use data_proxy_library.LocalFileProxy.RoundTrip.{
  with_files-Settles, with_file_same, with_file_again,
}
use data_proxy_library.LocalFileProxy.Append.{
  joined, AreHeld, without, same_held, append_files-Settles, write_out-Settles,
}

-- The bytes of a file, and none where there is no file.
abbrev pub bytes_of : Option Bytes → Bytes
bytes_of none = []
bytes_of (some b) = b

-- What a Commit in append mode leaves: the destination, with the data behind the old ones, and
-- neither the pre-commit files nor the commit file and the lock file.
abbrev pub appended_files : ℕ → String → List String → List Bytes → Files → Files
appended_files n d ops bs files = with_file (d ^^ "~~dpl.lock") none (
    with_file d (some (bytes_of (files d) ++ joined n (is_some (files d)) bs))
      (with_file (d ^^ "~~dpl.commit") none (without ops files)))

pub held_apart :
    (cf : String) (a : Option Bytes) (files : Files) (ops : List String) (bs : List Bytes)
    → contains cf ops ≡ false
    → AreHeld files ops bs
    → AreHeld (with_file cf a files) ops bs
held_apart cf a files ops bs apart = same_held files (with_file cf a files) ops bs (λ g c. kept g c)
  where
    kept : (g : String) → contains g ops ≡ true → with_file cf a files g ≡ files g
    kept g c = ground (arith, eq_iff cf g)

not_destination :
    (cf d : String) (ops : List String) → IsDistinct (cf ∷ d ∷ ops) → (cf == d) ≡ false
not_destination cf d ops (h, k) = ground (arith, eq_iff cf d, eq_iff d cf)

not_among :
    (cf d : String) (ops : List String) → IsDistinct (cf ∷ d ∷ ops) → contains cf ops ≡ false
not_among cf d ops (h, k) = ground arith

-- The lock file is there until it is removed.
lock_left :
    (lock cf d : String) (x y : Option Bytes) (files : Files) (ops : List String)
    → IsDistinct (lock ∷ cf ∷ d ∷ ops)
    → with_file d x (with_file cf none (with_file cf x (without ops (with_file cf y files)))) lock
      ≡ files lock
lock_left lock cf d x y files ops (apart, h) = ground (arith, eq_iff cf lock, eq_iff d lock)

-- The commit file was written in between.
files_left_lem :
    (lock cf d : String) (x y : Option Bytes) (files : Files) (ops : List String) (g : String)
    → with_file lock none
        (with_file d x (with_file cf none (with_file cf x (without ops (with_file cf y files)))))
        g
      ≡ with_file lock none (with_file d x (with_file cf none (without ops files))) g
files_left_lem lock cf d x y files ops g = ground arith

module _ {W : Type 0} (contents : W → Files) (fs : FileSystem W) (law : IsFileSystem contents fs)
    (n : ℕ) (d : String) where
  read_old :
      (files : Files) (b : Bytes)
      → ((d ^^ "~~dpl.commit") == d) ≡ false
      → files d ≡ some b
      → Settles
          (Holds contents (with_file (d ^^ "~~dpl.commit") (some []) files))
          (fs.read d >>= write_out fs (d ^^ "~~dpl.commit") >> pure true)
          (λ x w. (x ≡ true) × Holds contents (with_file (d ^^ "~~dpl.commit") (some b) files) w)
  read_old files b apart e =
      let cf = d ^^ "~~dpl.commit" in
      let empty = with_file cf (some []) files in
      let full = with_file cf (some b) files in
      Settles-bind (fs.read d >>= write_out fs cf) (λ u. pure true) (λ u. Holds contents full)
        (λ x w. (x ≡ true) × Holds contents full w)
        (Settles-bind (fs.read d) (write_out fs cf)
          (λ found w. (found ≡ b) × Holds contents empty w) (λ u. Holds contents full)
          (law.reads d b empty (rw apart e))
          (λ found. record {
            at = λ w (same, h). rw same (
              tt,
              refl,
              λ g.
                  ((write_out-Settles contents fs law n cf [] b empty
                        (with_file_same cf (some []) files)).at
                      w h).2
                    g
                  ∙ with_file_again cf (some []) (some b) files g,
            );
          }))
        (λ u. Settles-pure true _ (λ w h. (refl, h)))

  append_old-Settles :
      (files : Files)
      → ((d ^^ "~~dpl.commit") == d) ≡ false
      → Settles
          (Holds contents (with_file (d ^^ "~~dpl.commit") (some []) files))
          (append_old fs d)
          (λ b w.
            (b ≡ is_some (files d))
            × Holds contents (with_file (d ^^ "~~dpl.commit") (some (bytes_of (files d))) files) w)
  unfolding append_old
  append_old-Settles files apart = record { at = λ w h. go (files d) refl w h }
    where
      go :
          (o : Option Bytes)
          → files d ≡ o
          → (w : W) → Holds contents (with_file (d ^^ "~~dpl.commit") (some []) files) w
          → IsSettled
              (λ b w.
                (b ≡ is_some o)
                × Holds contents (with_file (d ^^ "~~dpl.commit") (some (bytes_of o)) files) w)
              (append_old fs d w)
      go none e w h = rw (law.exists_lem d _ w h, apart, e) (false, refl, (refl, h))
      go (some b) e w h = rw (law.exists_lem d _ w h, apart, e) ((read_old files b apart e).at w h)

  -- What is pending is as it was, and the files are as given.
  abbrev pub IsBefore : List String → Files → List String × W → Type 0
  IsBefore ops files (t, w) = (t ≡ ops) × Holds contents files w

  pub append_pending-Settles :
      (ops : List String) (bs : List Bytes) (files : Files) (now : Bytes)
      → files (d ^^ "~~dpl.lock") ≡ some now
      → AreHeld files ops bs
      → IsDistinct ((d ^^ "~~dpl.lock") ∷ (d ^^ "~~dpl.commit") ∷ d ∷ ops)
      → Settles
          (IsBefore ops files)
          (append_pending fs n d)
          (λ u (t, w). (t ≡ []) × Holds contents (appended_files n d ops bs files) w)
  unfolding append_pending
  append_pending-Settles ops bs files now l held apart =
      let cf = d ^^ "~~dpl.commit" in
      let lock = d ^^ "~~dpl.lock" in
      let old = bytes_of (files d) in
      let x = some (old ++ joined n (is_some (files d)) bs) in
      let opened = with_file cf (some old) files in
      let full = with_file cf x (without ops opened) in
      Settles-bind (with_files fs (fs.open_file cf >> append_old fs d) >>= append_files fs n cf)
        (λ u. with_files fs (fs.move cf d >> fs.remove lock)) (λ u. IsBefore [] full)
        (λ u (t, w). (t ≡ []) × Holds contents (appended_files n d ops bs files) w)
        (Settles-bind (with_files fs (fs.open_file cf >> append_old fs d)) (append_files fs n cf)
          (λ b (t, w). (t ≡ ops) × ((b ≡ is_some (files d)) × Holds contents opened w))
          (λ u. IsBefore [] full)
          (with_files-Settles contents fs law ops (Holds contents files)
            (fs.open_file cf >> append_old fs d)
            (λ b w. (b ≡ is_some (files d)) × Holds contents opened w)
            (Settles-bind (fs.open_file cf) (λ u. append_old fs d)
              (λ u. Holds contents (with_file cf (some []) files))
              (λ b w. (b ≡ is_some (files d)) × Holds contents opened w) (law.opens cf files)
              (λ u. append_old-Settles files (not_destination cf d ops apart.1))))
          (λ b. record {
            at = λ (t, w) (e, (same, h)).
                rw (e, same)
                  (append_files-Settles contents fs law n cf ops bs old (is_some (files d)) opened w
                    (with_file_same cf (some old) files)
                    (held_apart cf (some old) files ops bs (not_among cf d ops apart.1) held)
                    (not_among cf d ops apart.1, apart.1.1.1) h);
          }))
        (λ u.
          with_files-Settles contents fs law [] (Holds contents full)
            (fs.move cf d >> fs.remove lock) (λ v. Holds contents (appended_files n d ops bs files))
            (Settles-bind (fs.move cf d) (λ v. fs.remove lock)
              (λ v. Holds contents (with_file d x (with_file cf none full)))
              (λ v. Holds contents (appended_files n d ops bs files))
              (law.moves cf d _ full (with_file_same cf x (without ops opened)))
              (λ v. record {
                at = λ w h.
                    let r =
                      (law.removes lock now (with_file d x (with_file cf none full))
                          (lock_left lock cf d x (some old) files ops apart ∙ l)).at
                        w h in
                    (r.0, r.1, λ g. r.2 g ∙ files_left_lem lock cf d x (some old) files ops g);
              })))
