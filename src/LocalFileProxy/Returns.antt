-- ===== src/LocalFileProxy/Returns.antt =====
-- Commit and Rollback come back: no first operation is read where there is none.
use Prim.Native.String.{◌++◌}
use data_proxy_library.Common.{
  ℕ, String, ◌≢◌, refl, Bool, true, false, List, [], ◌∷◌, if◌then◌else◌, Bool-cases, inl, inr,
}
use data_proxy_library.Common.Exec.{Result, ok, err, diverged, Exec, pure, continue, ◌>>=◌, ◌>>◌}
use data_proxy_library.Common.Exec.Rules.{Returns, Returns-pure, Returns-bind}
use data_proxy_library.Request.{Bytes}
use data_proxy_library.LocalFileProxy.{
  FileSystem, FileConfig, OpenMode, overwrite, append, PendingOps, is_delete, with_files, when,
}
use data_proxy_library.LocalFileProxy.Commit.{
  commit, commit_overwrite, commit_single, commit_entry, commit_append, discard, discard_files,
  rollback, remove_if_exists, append_old, append_files, append_pending, after_delete, append_ops,
  releasing, write_out, skipped, set,
}
use data_proxy_library.LocalFileProxy.Pending.{IsOps, IsPending}
use data_proxy_library.LocalFileProxy.Settle.{or_keep-Returns, for_each_entry-Returns}

-- The file operations come back, with a value or an exception.
pub record IsReturning {W : Type 0} (fs : FileSystem W) : Type 0 where
  pub remove : (f : String) → Returns (fs.remove f)
  pub move : (f g : String) → Returns (fs.move f g)
  pub open_file : (f : String) → Returns (fs.open_file f)
  pub read : (f : String) → Returns (fs.read f)
  pub obtain_lock : (f : String) → Returns (fs.obtain_lock f)

module _ {W : Type 0} (fs : FileSystem W) (back : IsReturning fs) where
  with_files-Returns :
      {S A : Type 0} (m : Exec W A) → Returns m → Returns {S = S × W} (with_files fs m)
  with_files-Returns m r = record { at = λ (s, w). r.at w }

  when-Returns : (b : Bool) (m : Exec W (Unit {0})) → Returns m → Returns (when fs b m)
  when-Returns true m r = r
  when-Returns false m r = Returns-pure tt

  remove_if_exists-Returns : (f : String) → Returns (remove_if_exists fs f)
  remove_if_exists-Returns f = record {
    at = λ w. (when-Returns (fs.does_exist f w) (fs.remove f) (back.remove f)).at w;
  }

  commit_single-Returns : (d op : String) → Returns (commit_single fs d op)
  commit_single-Returns d op = elim (Bool-cases (is_delete op)) [
    | inl e ↦ rw e (remove_if_exists-Returns d)
    | inr e ↦ rw e (back.move op d)
  ]

  commit_overwrite-Returns :
      (d : String) (ops : List String) (w : W) → (commit_overwrite fs d (ops, w)).0 ≢ diverged
  unfolding commit_overwrite
  commit_overwrite-Returns d [] w = λ e. cc
  commit_overwrite-Returns d (op ∷ []) w = (commit_single-Returns d op).at w
  commit_overwrite-Returns d (op ∷ o ∷ ops) w = λ e. cc

  discard_files-Returns : (ops : List String) (w : W) → (discard_files fs (ops, w)).0 ≢ diverged
  unfolding discard_files
  discard_files-Returns [] w = λ e. cc
  discard_files-Returns (f ∷ ops) w =
      or_keep-Returns (fs.remove f w) (f ∷ ops) (discard_files fs (ops, (fs.remove f w).1))
        ((back.remove f).at w) (discard_files-Returns ops (fs.remove f w).1)

  discard-Returns :
      (mode : OpenMode) (ops : List String) (w : W)
      → IsOps mode ops
      → (discard fs (ops, w)).0 ≢ diverged
  unfolding discard
  discard-Returns mode [] w h = absurd h
  discard-Returns mode (op ∷ ops) w h = elim (Bool-cases (is_delete op)) [
    | inl e ↦ rw e (discard_files-Returns ops w)
    | inr e ↦ rw e (discard_files-Returns (op ∷ ops) w)
  ]

  write_out-Returns : (f : String) (bytes : Bytes) → Returns (write_out fs f bytes)
  write_out-Returns f bytes = record { at = λ w e. cc }

  old-Returns :
      (b : Bool) (m : Exec W Bool)
      → Returns m
      → (w : W) → (if b then m w else (ok false, w)).0 ≢ diverged
  old-Returns true m r w = r.at w
  old-Returns false m r w = λ e. cc

  append_old-Returns : (d : String) → Returns (append_old fs d)
  unfolding append_old
  append_old-Returns d = record {
    at = λ w.
        old-Returns (fs.does_exist d w)
          (fs.read d >>= write_out fs (d ++ "~~dpl.commit") >> pure true)
          (Returns-bind (fs.read d >>= write_out fs (d ++ "~~dpl.commit")) (λ u. pure true)
            (Returns-bind (fs.read d) (write_out fs (d ++ "~~dpl.commit")) (back.read d)
              (write_out-Returns (d ++ "~~dpl.commit")))
            (λ u. Returns-pure true))
          w;
  }

  append_files-Returns :
      (n : ℕ) (f : String) (appending : Bool) (ops : List String) (w : W)
      → (append_files fs n f appending (ops, w)).0 ≢ diverged
  unfolding append_files
  append_files-Returns n f appending [] w = λ e. cc
  append_files-Returns n f appending (op ∷ ops) w =
      or_keep-Returns
        ((fs.read op >>= λ bytes. write_out fs f (skipped fs n appending bytes) >> fs.remove op) w)
        (op ∷ ops) _
        ((Returns-bind (fs.read op)
            (λ bytes. write_out fs f (skipped fs n appending bytes) >> fs.remove op) (back.read op)
            (λ bytes.
              Returns-bind (write_out fs f (skipped fs n appending bytes)) (λ u. fs.remove op)
                (write_out-Returns f (skipped fs n appending bytes)) (λ u. back.remove op))).at
          w)
        (append_files-Returns n f true ops _)

  append_pending-Returns : (n : ℕ) (d : String) → Returns (append_pending fs n d)
  unfolding append_pending
  append_pending-Returns n d =
      Returns-bind
        (with_files fs (fs.open_file (d ++ "~~dpl.commit") >> append_old fs d)
          >>= append_files fs n (d ++ "~~dpl.commit"))
        (λ u. with_files fs (fs.move (d ++ "~~dpl.commit") d >> fs.remove (d ++ "~~dpl.lock")))
        (Returns-bind (with_files fs (fs.open_file (d ++ "~~dpl.commit") >> append_old fs d))
          (append_files fs n (d ++ "~~dpl.commit"))
          (with_files-Returns (fs.open_file (d ++ "~~dpl.commit") >> append_old fs d) (
            Returns-bind (fs.open_file (d ++ "~~dpl.commit")) (λ u. append_old fs d)
              (back.open_file (d ++ "~~dpl.commit")) (λ u. append_old-Returns d)))
          (λ appending. record {
            at = λ (ops, w). append_files-Returns n (d ++ "~~dpl.commit") appending ops w;
          }))
        (λ u.
          with_files-Returns (fs.move (d ++ "~~dpl.commit") d >> fs.remove (d ++ "~~dpl.lock")) (
            Returns-bind (fs.move (d ++ "~~dpl.commit") d) (λ v. fs.remove (d ++ "~~dpl.lock"))
              (back.move (d ++ "~~dpl.commit") d) (λ v. back.remove (d ++ "~~dpl.lock"))))

  after_delete-Returns :
      (n : ℕ) (d : String) (ops : List String) → Returns (after_delete fs n d ops)
  after_delete-Returns n d [] =
      with_files-Returns (fs.remove (d ++ "~~dpl.lock")) (back.remove (d ++ "~~dpl.lock"))
  after_delete-Returns n d (op ∷ ops) = append_pending-Returns n d

  deleted-Returns :
      (n : ℕ) (d : String) (ops : List String)
      → Returns (with_files fs (remove_if_exists fs d) >> set ops >> after_delete fs n d ops)
  deleted-Returns n d ops =
      Returns-bind (with_files fs (remove_if_exists fs d) >> set ops) (λ u. after_delete fs n d ops)
        (Returns-bind (with_files fs (remove_if_exists fs d)) (λ u. set ops)
          (with_files-Returns (remove_if_exists fs d) (remove_if_exists-Returns d))
          (λ u. record { at = λ (old, w) e. cc }))
        (λ u. after_delete-Returns n d ops)

  append_ops-Returns :
      (n : ℕ) (d : String) (ops : List String) (w : W)
      → IsOps append ops
      → (append_ops fs n d (ops, w)).0 ≢ diverged
  append_ops-Returns n d [] w h = absurd h
  append_ops-Returns n d (op ∷ ops) w h = elim (Bool-cases (is_delete op)) [
    | inl e ↦ rw e ((deleted-Returns n d ops).at (op ∷ ops, w))
    | inr e ↦ rw e ((append_pending-Returns n d).at (op ∷ ops, w))
  ]

  releasing-Returns :
      (f : String) (x : Result (Unit {0}) × (List String × W))
      → x.0 ≢ diverged
      → (releasing fs f x).0 ≢ diverged
  releasing-Returns f (r, (ops, w)) h = h

  locked-Returns :
      (f : String) (m : Exec (List String × W) (Unit {0})) (ops : List String)
      → ((w : W) → (m (ops, w)).0 ≢ diverged)
      → (r : Result (Unit {0})) (w : W) → r ≢ diverged
      → (continue r (λ u s. releasing fs f (m s)) (ops, w)).0 ≢ diverged
  locked-Returns f m ops h (ok u) w n = releasing-Returns f (m (ops, w)) (h w)
  locked-Returns f m ops h (err e) w n = λ p. cc
  locked-Returns f m ops h diverged w n = absurd (n refl)

  commit_append-Returns :
      (n : ℕ) (d : String) (ops : List String) (w : W)
      → IsOps append ops
      → (commit_append fs n d (ops, w)).0 ≢ diverged
  unfolding commit_append
  commit_append-Returns n d ops w h =
      locked-Returns (d ++ "~~dpl.lock") (append_ops fs n d) ops
        (λ v. append_ops-Returns n d ops v h) (fs.obtain_lock (d ++ "~~dpl.lock") w).0
        (fs.obtain_lock (d ++ "~~dpl.lock") w).1 ((back.obtain_lock (d ++ "~~dpl.lock")).at w)

  commit_entry-Returns :
      (mode : OpenMode) (n : ℕ) (d : String) (ops : List String) (w : W)
      → IsOps mode ops
      → (commit_entry fs mode n d (ops, w)).0 ≢ diverged
  commit_entry-Returns overwrite n d ops w h = commit_overwrite-Returns d ops w
  commit_entry-Returns append n d ops w h = commit_append-Returns n d ops w h

  pub commit-Returns :
      (c : FileConfig) (pending : PendingOps) (w : W)
      → IsPending c.open_mode pending
      → (commit fs c (pending, w)).0 ≢ diverged
  unfolding commit
  commit-Returns c pending w h =
      for_each_entry-Returns c.open_mode (commit_entry fs c.open_mode c.skip_lines)
        (commit_entry-Returns c.open_mode c.skip_lines) pending w h

  pub rollback-Returns :
      (mode : OpenMode) (pending : PendingOps) (w : W)
      → IsPending mode pending
      → (rollback fs (pending, w)).0 ≢ diverged
  unfolding rollback
  rollback-Returns mode pending w h =
      for_each_entry-Returns mode (λ d. discard fs) (λ d. discard-Returns mode) pending w h
