-- ===== src/LocalFileProxy/Tests.antt =====
-- A node with one file, in either mode.
use data_proxy_library.Common.{
  ◌≡◌, ◌≢◌, refl, false, none, some, List, [], ◌∷◌, if◌then◌else◌, ◌==◌,
}
use data_proxy_library.Common.Dict.{find, put}
use data_proxy_library.Common.Exec.{mv, ok, err, diverged, ◌>>◌}
use data_proxy_library.Common.Exec.Rules.{Settles}
use data_proxy_library.Request.{Bytes}
use data_proxy_library.LocalFileProxy.{
  is_delete, FileSystem, Naming, FileConfig, OpenMode, overwrite, append, Source, PendingOps,
  store_file, load_file, with_files,
}
use data_proxy_library.LocalFileProxy.Commit.{commit, rollback}
use data_proxy_library.LocalFileProxy.Pending.{IsPending}
use data_proxy_library.LocalFileProxy.History.{
  FileCall, stores, deletes, commits, rolls_back, run, history-Pending, history-Returns,
}
use data_proxy_library.LocalFileProxy.Contents.{Files, IsCommitted, IsRolledBack, IsFresh, Holds}
use data_proxy_library.LocalFileProxy.Appended.{appended_files}
use data_proxy_library.LocalFileProxy.CommitAppend.{commit_append_lem}
use data_proxy_library.LocalFileProxy.Reload.{store_commit, store_rollback, store_load}
use data_proxy_library.LocalFileProxy.Disk.{
  Disk, contents, disk, disk-IsFileSystem, disk-IsReturning,
}

abbrev names : Naming
names = record {
  to_string = λ ps. "all";
  substitute = λ format ps. ok format;
  mentions = λ format star. false;
  replace_all = λ name star by. name;
}

abbrev config : OpenMode → FileConfig
config mode = record {
  base_location = "/data";
  name_format = some "report";
  open_mode = mode;
  skip_lines = 1;
  fail_if_older_than = none;
}

abbrev source : Bytes → Source
source bytes = record { bytes = bytes; fails = false }

-- A heading and a line.
abbrev old_report : Bytes
old_report = 72 ∷ 10 ∷ 65 ∷ 10 ∷ []

abbrev new_report : Bytes
new_report = 72 ∷ 10 ∷ 66 ∷ 10 ∷ []

abbrev files : Files
files f = if f == "/data/report" then some old_report else none

abbrev start : PendingOps × Disk
start = ([], (files, "1"))

abbrev calls : List FileCall
calls =
    stores [] (source new_report)
    ∷ stores [] (source [])
    ∷ commits
    ∷ deletes []
    ∷ rolls_back
    ∷ stores [] (source [])
    ∷ []

history-Pending_example :
    IsPending overwrite (run disk names (config overwrite) calls ([], (files, "1"))).0
history-Pending_example =
    history-Pending disk names (config overwrite) calls (files, "1")
      (tt, (tt, (refl, (tt, (tt, (tt, tt))))))

abbrev appends : List FileCall
appends = deletes [] ∷ stores [] (source new_report) ∷ stores [] (source []) ∷ []

history-Returns_example :
    ((commit disk (config append) (run disk names (config append) appends ([], (files, "1")))).0
      ≢ diverged)
    × ((rollback disk (run disk names (config append) appends ([], (files, "1")))).0 ≢ diverged)
history-Returns_example =
    history-Returns disk names (config append) appends (files, "1") disk-IsReturning
      (tt, (tt, (tt, tt)))

store_commit_example :
    Settles
      (IsFresh contents files)
      (store_file disk names (config overwrite) [] (source new_report)
        >> commit disk (config overwrite))
      (IsCommitted contents "/data/report" new_report files)
store_commit_example =
    store_commit contents disk disk-IsFileSystem names (config overwrite) [] "/data/report"
      (source new_report) files refl refl refl

store_rollback_example :
    Settles
      (IsFresh contents files)
      (store_file disk names (config append) [] (source new_report) >> rollback disk)
      (IsRolledBack contents "/data/report" files)
store_rollback_example =
    store_rollback contents disk disk-IsFileSystem names (config append) [] "/data/report"
      (source new_report) files refl refl

store_load_example :
    Settles
      (IsFresh contents files)
      (store_file disk names (config overwrite) [] (source new_report)
        >> commit disk (config overwrite)
        >> with_files disk (load_file disk names (config overwrite) []))
      (λ found s. found ≡ new_report)
store_load_example =
    store_load contents disk disk-IsFileSystem names (config overwrite) [] "/data/report"
      (source new_report) files refl refl refl refl

-- In append mode the heading of the new report is skipped.
appended :
    ((store_file disk names (config append) [] (source new_report)
        >> commit disk (config append)
        >> with_files disk (load_file disk names (config append) []))
      start).0
    ≡ ok (72 ∷ 10 ∷ 65 ∷ 10 ∷ 66 ∷ 10 ∷ [])
unfolding store_file commit put find load_file
appended = refl

-- Where the last move of a Commit in append mode fails, no operations are left of the entry, and
-- what follows reads the first of them.
abbrev stuck : FileSystem Disk
stuck = record disk { move = λ f g w. (err (mv 2), w) }

emptied :
    (commit stuck
      (config append)
      (store_file stuck names (config append) [] (source new_report) start).1).1.0
    ≡ ("/data/report", []) ∷ []
unfolding commit store_file put find
emptied = refl

emptied_undefined :
    (rollback stuck
      (commit stuck
        (config append)
        (store_file stuck names (config append) [] (source new_report) start).1).1).0
    ≡ diverged
unfolding rollback commit store_file put find
emptied_undefined = refl

-- A report and two pre-commit files for it.
abbrev two_pending : Files
two_pending f =
    if f == "/data/report"
    then some old_report
    else if f == "p1"
    then some new_report
    else if f == "p2"
    then some (72 ∷ 10 ∷ 67 ∷ 10 ∷ [])
    else none

commit_append_lem_example :
    Settles
      (λ (p, w). (p ≡ ("/data/report", "p1" ∷ "p2" ∷ []) ∷ []) × Holds contents two_pending w)
      (commit disk (config append))
      (λ u (p, w).
        (p ≡ [])
        × Holds contents
            (appended_files 1 "/data/report"
              ("p1" ∷ "p2" ∷ [])
              (new_report ∷ (72 ∷ 10 ∷ 67 ∷ 10 ∷ []) ∷ [])
              two_pending)
            w)
unfolding is_delete
commit_append_lem_example =
    commit_append_lem contents disk disk-IsFileSystem (config append) "/data/report" "p1"
      ("p2" ∷ []) (new_report ∷ (72 ∷ 10 ∷ 67 ∷ 10 ∷ []) ∷ []) two_pending refl refl
      (refl, (refl, tt)) (refl, (refl, (refl, (refl, (refl, tt)))))
