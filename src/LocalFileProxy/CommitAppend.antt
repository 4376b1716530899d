-- ===== src/LocalFileProxy/CommitAppend.antt =====
-- A Commit in append mode with one destination pending.
use Prim.Native.String.{◌++◌ as ◌^^◌}
use data_proxy_library.Common.{
  ℕ, String, ◌≡◌, refl, ◌∙◌, false, Option, some, List, [], ◌∷◌, ◌==◌, eq_iff, contains, IsDistinct,
  arith,
}
use data_proxy_library.Common.Exec.{Result, ok}
use data_proxy_library.Common.Exec.Rules.{Settles, IsSettled, Settles-bind}
use data_proxy_library.Request.{Bytes}
use data_proxy_library.LocalFileProxy.{FileSystem, FileConfig, append, PendingOps, with_files}
use data_proxy_library.LocalFileProxy.Commit.{
  append_ops, commit_append, commit, for_each_entry, or_keep, releasing,
}
use data_proxy_library.LocalFileProxy.Pending.{IsFile}
use data_proxy_library.LocalFileProxy.Contents.{Files, with_file, Holds, IsFileSystem}
use data_proxy_library.LocalFileProxy.RoundTrip.{with_files-Settles, with_file_same}
use data_proxy_library.LocalFileProxy.Append.{AreHeld, or_keep-Settled}
use data_proxy_library.LocalFileProxy.Appended.{appended_files, held_apart, append_pending-Settles}

-- The names that a Commit works with are different ones.
abbrev pub AreApart : String → List String → Type 0
AreApart d ops = IsDistinct ((d ^^ "~~dpl.lock") ∷ (d ^^ "~~dpl.commit") ∷ d ∷ ops)

lock_apart :
    (lock cf d : String) (ops : List String)
    → IsDistinct (lock ∷ cf ∷ d ∷ ops)
    → (lock == d) ≡ false
lock_apart lock cf d ops (h, k) = ground (arith, eq_iff lock d, eq_iff d lock)

lock_among :
    (lock cf d : String) (ops : List String)
    → IsDistinct (lock ∷ cf ∷ d ∷ ops)
    → contains lock ops ≡ false
lock_among lock cf d ops (h, k) = ground arith

-- What the lock file held before does not matter.
appended_locked :
    (n : ℕ) (d : String) (ops : List String) (bs : List Bytes) (a : Option Bytes) (files : Files)
    (g : String)
    → AreApart d ops
    → appended_files n d ops bs (with_file (d ^^ "~~dpl.lock") a files) g
      ≡ appended_files n d ops bs files g
appended_locked n d ops bs a files g apart =
    rw (lock_apart (d ^^ "~~dpl.lock") (d ^^ "~~dpl.commit") d ops apart) (ground arith)

module _ {W : Type 0} (contents : W → Files) (fs : FileSystem W) (law : IsFileSystem contents fs)
    (n : ℕ) (d : String) where
  -- Nothing is pending, and the files are as given.
  abbrev IsDone : Files → Unit {0} → List String × W → Type 0
  IsDone files u (t, w) = (t ≡ []) × Holds contents files w

  append_ops-Settles :
      (op : String) (ops : List String) (bs : List Bytes) (files : Files) (now : Bytes)
      → IsFile op
      → AreHeld files (op ∷ ops) bs
      → AreApart d (op ∷ ops)
      → Settles
          (λ (t, w).
            (t ≡ op ∷ ops) × Holds contents (with_file (d ^^ "~~dpl.lock") (some now) files) w)
          (append_ops fs n d)
          (IsDone (appended_files n d (op ∷ ops) bs files))
  append_ops-Settles op ops bs files now f held apart =
      let lock = d ^^ "~~dpl.lock" in
      let r =
        append_pending-Settles contents fs law n d (op ∷ ops) bs (with_file lock (some now) files)
          now (with_file_same lock (some now) files)
          (held_apart lock (some now) files (op ∷ ops) bs
            (lock_among lock (d ^^ "~~dpl.commit") d (op ∷ ops) apart) held)
          apart in
      record {
        at = λ (t, w) (e, h).
            rw (e, f)
              (let x = r.at (op ∷ ops, w) (refl, h) in
                (
                  x.0,
                  x.1,
                  (
                    x.2.0,
                    λ g. x.2.1 g ∙ appended_locked n d (op ∷ ops) bs (some now) files g apart,
                  ),
                ));
      }

  released :
      (f : String) (files : Files) (x : Result (Unit {0}) × (List String × W))
      → IsSettled (IsDone files) x
      → IsSettled (IsDone files) (releasing fs f x)
  released f files (r, (t, w)) (u, e, (p, h)) = (u, e, (p, law.releases f files w h))

  commit_append-Settles :
      (op : String) (ops : List String) (bs : List Bytes) (files : Files)
      → IsFile op
      → AreHeld files (op ∷ ops) bs
      → AreApart d (op ∷ ops)
      → Settles
          (λ (t, w). (t ≡ op ∷ ops) × Holds contents files w)
          (commit_append fs n d)
          (IsDone (appended_files n d (op ∷ ops) bs files))
  unfolding commit_append
  commit_append-Settles op ops bs files f held apart =
      let lock = d ^^ "~~dpl.lock" in
      Settles-bind (with_files fs (fs.obtain_lock lock))
        (λ u s. releasing fs lock (append_ops fs n d s))
        (λ u (t, w).
          (t ≡ op ∷ ops) × ((now : Bytes) × Holds contents (with_file lock (some now) files) w))
        (IsDone (appended_files n d (op ∷ ops) bs files))
        (with_files-Settles contents fs law (op ∷ ops) (Holds contents files) (fs.obtain_lock lock)
          (λ u w. (now : Bytes) × Holds contents (with_file lock (some now) files) w)
          (law.locks lock files))
        (λ u. record {
          at = λ (t, w) (e, (now, h)).
              released lock _ (append_ops fs n d (t, w))
                ((append_ops-Settles op ops bs files now f held apart).at (t, w) (e, h));
        })

module _ {W : Type 0} (contents : W → Files) (fs : FileSystem W)
    (law : IsFileSystem contents fs) where
  single_entry :
      (d : String) (files : Files) (s : Result (Unit {0}) × (List String × W))
      → IsSettled (λ u (t, w). (t ≡ []) × Holds contents files w) s
      → IsSettled
          (λ u (p, w). (p ≡ []) × Holds contents files w)
          (or_keep {S = PendingOps} (s.0, s.1.1) ((d, s.1.0) ∷ []) (ok tt, ([], s.1.1)))
  single_entry d files (r, (t, w)) (u, e, (p, h)) =
      or_keep-Settled contents fs law 0 d (r, w) ((d, t) ∷ []) (ok tt, ([], w))
        (λ u (p, w). (p ≡ []) × Holds contents files w) e (tt, refl, (refl, h))

  -- In append mode, on files whose operations do not fail: a Commit with pre-commit files pending
  -- for one destination, no delete among them, and with all names different, returns with nothing
  -- pending. The destination then holds what it held and the data of the pre-commit files in
  -- order, the first skipLines lines left out of each that has something before it. The pre-
  -- commit files, the commit file and the lock file are gone, and no other file has changed.
  pub commit_append_lem :
      (c : FileConfig) (d op : String) (ops : List String) (bs : List Bytes) (files : Files)
      → c.open_mode ≡ append
      → IsFile op
      → AreHeld files (op ∷ ops) bs
      → AreApart d (op ∷ ops)
      → Settles
          (λ (p, w). (p ≡ (d, op ∷ ops) ∷ []) × Holds contents files w)
          (commit fs c)
          (λ u (p, w).
            (p ≡ []) × Holds contents (appended_files c.skip_lines d (op ∷ ops) bs files) w)
  unfolding commit for_each_entry
  commit_append_lem c d op ops bs files m f held apart = record {
    at = λ (p, w) (e, h).
        rw (e, m)
          (single_entry d (appended_files c.skip_lines d (op ∷ ops) bs files)
            (commit_append fs c.skip_lines d (op ∷ ops, w))
            ((commit_append-Settles contents fs law c.skip_lines d op ops bs files f held apart).at
              (op ∷ ops, w) (refl, h)));
  }
