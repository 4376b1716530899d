-- ===== src/LocalFileProxy/History.antt =====
-- The requests and transactions that a node gets over time.
use data_proxy_library.Common.{◌≡◌, ◌≢◌, List, [], ◌∷◌, All}
use data_proxy_library.Common.Exec.{diverged}
use data_proxy_library.Request.{Params}
use data_proxy_library.LocalFileProxy.{
  FileSystem, Naming, FileConfig, OpenMode, overwrite, Source, PendingOps, store_file, delete_file,
}
use data_proxy_library.LocalFileProxy.Commit.{commit, rollback}
use data_proxy_library.LocalFileProxy.Pending.{IsPending, store_file-Keeps, delete_file-Keeps}
use data_proxy_library.LocalFileProxy.Settle.{commit-Keeps, rollback-Keeps}
use data_proxy_library.LocalFileProxy.Returns.{IsReturning, commit-Returns, rollback-Returns}

pub data FileCall : Type 0 where
  stores : Params → Source → FileCall
  deletes : Params → FileCall
  commits : FileCall
  rolls_back : FileCall

-- What a Commit that fails leaves in append mode may be no operations.
abbrev pub IsSafe : OpenMode → FileCall → Type 0
IsSafe mode (stores ps source) = Unit
IsSafe mode (deletes ps) = Unit
IsSafe mode commits = mode ≡ overwrite
IsSafe mode rolls_back = Unit

module _ {W : Type 0} (fs : FileSystem W) (names : Naming) (c : FileConfig) where
  unfoldable pub perform : FileCall → PendingOps × W → PendingOps × W
  unfolding store_file delete_file commit rollback
  perform (stores ps source) s = (store_file fs names c ps source s).1
  perform (deletes ps) s = (delete_file fs names c ps s).1
  perform commits s = (commit fs c s).1
  perform rolls_back s = (rollback fs s).1

  unfoldable pub run : List FileCall → PendingOps × W → PendingOps × W
  unfolding perform
  run [] s = s
  run (call ∷ calls) s = run calls (perform call s)

  perform-Tidy :
      (call : FileCall) (pending : PendingOps) (w : W)
      → IsSafe c.open_mode call
      → IsPending c.open_mode pending
      → IsPending c.open_mode (perform call (pending, w)).0
  unfolding perform
  perform-Tidy (stores ps source) pending w s h =
      (store_file-Keeps fs names c ps source).at (pending, w) h
  perform-Tidy (deletes ps) pending w s h = (delete_file-Keeps fs names c ps).at (pending, w) h
  perform-Tidy commits pending w s h = (commit-Keeps fs c s).at (pending, w) h
  perform-Tidy rolls_back pending w s h = (rollback-Keeps fs c.open_mode).at (pending, w) h

  run-Tidy :
      (calls : List FileCall) (pending : PendingOps) (w : W)
      → All (IsSafe c.open_mode) calls
      → IsPending c.open_mode pending
      → IsPending c.open_mode (run calls (pending, w)).0
  unfolding run
  run-Tidy [] pending w s h = h
  run-Tidy (call ∷ calls) pending w (s, ss) h =
      run-Tidy calls (perform call (pending, w)).0 (perform call (pending, w)).1 ss
        (perform-Tidy call pending w s h)

  -- After any history of Stores, Deletes, Rollbacks and, in overwrite mode, Commits of a new
  -- node, whichever of them have thrown: every entry has operations, in overwrite mode a single
  -- one, and in append mode no delete but in front.
  pub history-Pending :
      (calls : List FileCall) (w : W)
      → All (IsSafe c.open_mode) calls
      → IsPending c.open_mode (run calls ([], w)).0
  history-Pending calls w s = run-Tidy calls [] w s tt

  -- After any history of Stores, Deletes, Rollbacks and, in overwrite mode, Commits of a new
  -- node, whichever of them have thrown, a Commit and a Rollback return or throw, where the file
  -- operations do: neither reads the first operation of an entry that has none.
  pub history-Returns :
      (calls : List FileCall) (w : W)
      → IsReturning fs
      → All (IsSafe c.open_mode) calls
      → ((commit fs c (run calls ([], w))).0 ≢ diverged)
        × ((rollback fs (run calls ([], w))).0 ≢ diverged)
  history-Returns calls w back s = (
    commit-Returns fs back c (run calls ([], w)).0 (run calls ([], w)).1
        (history-Pending calls w s),
    rollback-Returns fs back c.open_mode (run calls ([], w)).0 (run calls ([], w)).1
        (history-Pending calls w s),
  )
