-- ===== src/LocalFileProxy/Commit.antt =====
-- Commit, Rollback and Ping of LocalFileProxy.cpp.
use Prim.Native.String.{◌++◌}
use data_proxy_library.Common.{
  ℕ, zero, suc, String, Bool, true, false, ◌&&◌, not, List, [], ◌∷◌, nat_eq, if◌then◌else◌,
}
use data_proxy_library.Common.Exec.{mv, Result, ok, err, diverged, Exec, pure, ◌>>=◌, ◌>>◌}
use data_proxy_library.Request.{Bytes}
use data_proxy_library.LocalFileProxy.{
  readable, writable, FileSystem, OpenMode, overwrite, append, FileConfig, PendingOps, is_delete,
  when, with_files,
}

-- std::getline, for its effect on what is left to read.
unfoldable pub skip_line : Bytes → Bytes
skip_line [] = []
skip_line (b ∷ bs) = let rest = skip_line bs in if nat_eq b 10 then bs else rest

unfoldable pub skip_lines : ℕ → Bytes → Bytes
unfolding skip_line
skip_lines zero bs = bs
skip_lines (suc n) bs = skip_lines n (skip_line bs)

-- What dereferences the first of no operations is undefined.
abbrev pub undefined : {S A : Type 0} → Exec S A
undefined s = (diverged, s)

-- A loop goes on behind a step that succeeds. Else it leaves what it has not erased.
abbrev pub or_keep :
    {S W : Type 0}
    → Result (Unit {0}) × W
    → S
    → Result (Unit {0}) × (S × W)
    → Result (Unit {0}) × (S × W)
or_keep (ok u, w) left next = next
or_keep (err e, w) left next = (err e, (left, w))
or_keep (diverged, w) left next = (diverged, (left, w))

module _ {W : Type 0} where
  -- The loops over m_PendingOps: an entry is erased behind its step. A step that throws leaves its
  -- entry, with the operations that it has not erased, and all behind it.
  unfoldable pub for_each_entry :
      (String → Exec (List String × W) (Unit {0})) → Exec (PendingOps × W) (Unit {0})
  for_each_entry step ([], w) = (ok tt, ([], w))
  for_each_entry step ((destination, ops) ∷ rest, w) =
      let s = step destination (ops, w) in
      let next = for_each_entry step (rest, s.1.1) in
      or_keep (s.0, s.1.1) ((destination, s.1.0) ∷ rest) next

  abbrev pub set : List String → Exec (List String × W) (Unit {0})
  set ops (old, w) = (ok tt, (ops, w))

module _ {W : Type 0} (fs : FileSystem W) where
  abbrev pub remove_if_exists : String → Exec W (Unit {0})
  remove_if_exists file w = when fs (fs.does_exist file w) (fs.remove file) w

  abbrev pub commit_single : String → String → Exec W (Unit {0})
  commit_single destination op =
      if is_delete op then remove_if_exists destination else fs.move op destination

  unfoldable pub commit_overwrite : String → Exec (List String × W) (Unit {0})
  unfolding is_delete
  commit_overwrite destination ([], w) = (ok tt, ([], w))
  commit_overwrite destination (op ∷ [], w) =
      with_files fs (commit_single destination op) (op ∷ [], w)
  commit_overwrite destination (op ∷ o ∷ ops, w) = (err (mv 0), (op ∷ o ∷ ops, w))

  -- `<<`: a failure of the stream is not looked at.
  abbrev pub write_out : String → Bytes → Exec W (Unit {0})
  write_out file bytes w = (ok tt, (fs.write file bytes w).1)

  -- Whether there was an old file.
  unfoldable pub append_old : String → Exec W Bool
  append_old destination w =
      if fs.does_exist destination w
      then (fs.read destination >>= write_out (destination ++ "~~dpl.commit") >> pure true) w
      else (ok false, w)

  abbrev pub skipped : ℕ → Bool → Bytes → Bytes
  skipped n appending bytes = if appending then skip_lines n bytes else bytes

  -- The pending files: each is erased from the operations behind its removal.
  unfoldable pub append_files : ℕ → String → Bool → Exec (List String × W) (Unit {0})
  unfolding skip_lines
  append_files n commit_file appending ([], w) = (ok tt, ([], w))
  append_files n commit_file appending (f ∷ ops, w) =
      let s =
        (fs.read f >>= λ bytes. write_out commit_file (skipped n appending bytes) >> fs.remove f)
          w in
      let next = append_files n commit_file true (ops, s.1) in or_keep s (f ∷ ops) next

  unfoldable pub append_pending : ℕ → String → Exec (List String × W) (Unit {0})
  unfolding append_old append_files
  append_pending n destination =
      with_files fs (fs.open_file (destination ++ "~~dpl.commit") >> append_old destination)
      >>= append_files n (destination ++ "~~dpl.commit")
      >> with_files fs (
          fs.move (destination ++ "~~dpl.commit") destination
          >> fs.remove (destination ++ "~~dpl.lock"))

  abbrev pub after_delete : ℕ → String → List String → Exec (List String × W) (Unit {0})
  after_delete n destination [] = with_files fs (fs.remove (destination ++ "~~dpl.lock"))
  after_delete n destination (op ∷ ops) = append_pending n destination

  abbrev pub append_ops : ℕ → String → Exec (List String × W) (Unit {0})
  append_ops n destination ([], w) = undefined ([], w)
  append_ops n destination (op ∷ ops, w) =
      (if is_delete op
          then with_files fs (remove_if_exists destination)
            >> set ops
            >> after_delete n destination ops
          else append_pending n destination)
        (op ∷ ops, w)

  -- The lock is released on every way out, by the destructor where not before.
  abbrev pub releasing :
      {A : Type 0} → String → Result A × (List String × W) → Result A × (List String × W)
  releasing file (r, (ops, w)) = (r, (ops, fs.release_lock file w))

  abbrev pub locked : String → Exec (List String × W) (Unit {0}) → Exec (List String × W) (Unit {0})
  locked file m = with_files fs (fs.obtain_lock file) >> λ s. releasing file (m s)

  unfoldable pub commit_append : ℕ → String → Exec (List String × W) (Unit {0})
  unfolding is_delete append_pending
  commit_append n destination = locked (destination ++ "~~dpl.lock") (append_ops n destination)

  abbrev pub commit_entry : OpenMode → ℕ → String → Exec (List String × W) (Unit {0})
  commit_entry overwrite n = commit_overwrite
  commit_entry append n = commit_append n

  unfoldable pub commit : FileConfig → Exec (PendingOps × W) (Unit {0})
  unfolding for_each_entry commit_overwrite commit_append
  commit c = for_each_entry (commit_entry c.open_mode c.skip_lines)

  -- The loop of Rollback over the files.
  unfoldable pub discard_files : Exec (List String × W) (Unit {0})
  discard_files ([], w) = (ok tt, ([], w))
  discard_files (f ∷ ops, w) =
      let s = fs.remove f w in let next = discard_files (ops, s.1) in or_keep s (f ∷ ops) next

  unfoldable pub discard : Exec (List String × W) (Unit {0})
  unfolding discard_files is_delete
  discard ([], w) = undefined ([], w)
  discard (op ∷ ops, w) =
      if is_delete op then discard_files (ops, w) else discard_files (op ∷ ops, w)

  unfoldable pub rollback : Exec (PendingOps × W) (Unit {0})
  unfolding for_each_entry discard
  rollback = for_each_entry (λ destination. discard)

  -- Ping, by the requests that it is for.
  unfoldable pub ping : FileConfig → Bool → Bool → Exec W (Unit {0})
  ping c for_read for_change =
      when fs for_read (fs.validate_directory readable c.base_location)
      >> when fs for_change (
          fs.validate_directory writable c.base_location
          >> when fs ((elim c.open_mode [ overwrite ↦ false | append ↦ true ]) && not for_read)
              (fs.validate_directory readable c.base_location))
