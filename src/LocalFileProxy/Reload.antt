-- ===== src/LocalFileProxy/Reload.antt =====
-- What a Load finds behind a Store and its Commit or Rollback.
use data_proxy_library.Common.{ℕ, String, ◌≡◌, refl, false, Option, none, some}
use data_proxy_library.Common.Exec.{ok, ◌>>◌}
use data_proxy_library.Common.Exec.Rules.{Settles, Settles-bind}
use data_proxy_library.Request.{Params, Bytes}
use data_proxy_library.LocalFileProxy.{
  readable, FileSystem, Naming, FileConfig, overwrite, Source, with_files, store_file,
  build_file_spec, format_name, below, suffixed, load_file, load_named, check_age,
}
use data_proxy_library.LocalFileProxy.Commit.{commit, rollback}
use data_proxy_library.LocalFileProxy.Contents.{
  Files, with_file, Holds, IsFileSystem, IsStored, IsCommitted, IsRolledBack, IsFresh,
}
use data_proxy_library.LocalFileProxy.RoundTrip.{
  store_file-Settles, commit-Settles, rollback-Settles, with_file_same,
}

module _ {W : Type 0} (contents : W → Files) (fs : FileSystem W) (law : IsFileSystem contents fs)
    (names : Naming) (c : FileConfig) where
  check_age-Settles :
      (d : String) (limit : Option ℕ) (files : Files)
      → limit ≡ none
      → Settles (Holds contents files) (check_age fs names c d limit) (λ u. Holds contents files)
  check_age-Settles d limit files e = record { at = λ w h. rw e (tt, refl, h) }

  load_named-Settles :
      (d : String) (bytes : Bytes) (files : Files)
      → c.fail_if_older_than ≡ none
      → files d ≡ some bytes
      → Settles
          (Holds contents files)
          (load_named fs names c d)
          (λ found w. (found ≡ bytes) × Holds contents files w)
  unfolding load_named
  load_named-Settles d bytes files old e = record {
    at = λ w h.
        rw (law.exists_lem d files w h, e)
          ((Settles-bind
              (fs.validate_directory readable (fs.dir_name d)
                >> check_age fs names c d c.fail_if_older_than)
              (λ u. fs.read d) (λ u. Holds contents files)
              (λ found w. (found ≡ bytes) × Holds contents files w)
              (Settles-bind (fs.validate_directory readable (fs.dir_name d))
                (λ u. check_age fs names c d c.fail_if_older_than) (λ u. Holds contents files)
                (λ u. Holds contents files) (law.validates readable (fs.dir_name d) files)
                (λ u. check_age-Settles d c.fail_if_older_than files old))
              (λ u. law.reads d bytes files e)).at
            w h);
  }

  load_file-Settles :
      (ps : Params) (d : String) (bytes : Bytes) (files : Files)
      → below c.base_location (format_name names c.name_format ps) ≡ ok d
      → c.fail_if_older_than ≡ none
      → files d ≡ some bytes
      → Settles
          (Holds contents files)
          (load_file fs names c ps)
          (λ found w. (found ≡ bytes) × Holds contents files w)
  unfolding load_file build_file_spec
  load_file-Settles ps d bytes files b old e = record {
    at = λ w h. rw b ((load_named-Settles d bytes files old e).at w h);
  }

  -- In overwrite mode, on files whose operations do not fail: where nothing is pending, a Store
  -- of a stream that does not fail and the Commit behind it return with nothing pending. The
  -- destination then holds the bytes that were stored, the pre-commit file is gone, and no other
  -- file has changed.
  pub store_commit :
      (ps : Params) (d : String) (source : Source) (files : Files)
      → below c.base_location (format_name names c.name_format ps) ≡ ok d
      → source.fails ≡ false
      → c.open_mode ≡ overwrite
      → Settles
          (IsFresh contents files)
          (store_file fs names c ps source >> commit fs c)
          (IsCommitted contents d source.bytes files)
  store_commit ps d source files b s m =
      Settles-bind (store_file fs names c ps source) (λ u. commit fs c)
        (IsStored contents d source.bytes files) (IsCommitted contents d source.bytes files)
        (store_file-Settles contents fs law names c ps d source files b s)
        (λ u. commit-Settles contents fs law c d source.bytes files m)

  -- On files whose operations do not fail: where nothing is pending, a Store of a stream that
  -- does not fail and the Rollback behind it return with nothing pending. The one file that may
  -- have changed is the pre-commit file with a fresh id, and it is gone.
  pub store_rollback :
      (ps : Params) (d : String) (source : Source) (files : Files)
      → below c.base_location (format_name names c.name_format ps) ≡ ok d
      → source.fails ≡ false
      → Settles
          (IsFresh contents files)
          (store_file fs names c ps source >> rollback fs)
          (IsRolledBack contents d files)
  store_rollback ps d source files b s =
      Settles-bind (store_file fs names c ps source) (λ u. rollback fs)
        (IsStored contents d source.bytes files) (IsRolledBack contents d files)
        (store_file-Settles contents fs law names c ps d source files b s)
        (λ u. rollback-Settles contents fs law d source.bytes files)

  loaded-Settles :
      (ps : Params) (d : String) (bytes : Bytes) (files : Files)
      → below c.base_location (format_name names c.name_format ps) ≡ ok d
      → c.fail_if_older_than ≡ none
      → Settles
          (IsCommitted contents d bytes files tt)
          (with_files fs (load_file fs names c ps))
          (λ found s. found ≡ bytes)
  loaded-Settles ps d bytes files b old = record {
    at = λ (t, w) (e, (id, h)).
        let r =
          (load_file-Settles ps d bytes _ b old (
              with_file_same d (some bytes)
                (with_file (suffixed d "~~dpl.pending" id) none files))).at
            w h in
        (r.0, r.1, r.2.0);
  }

  -- In overwrite mode without an age limit, on files whose operations do not fail: where nothing
  -- is pending, a Store of a stream that does not fail, the Commit behind it and a Load with the
  -- same parameters return, and the Load returns the bytes that were stored.
  pub store_load :
      (ps : Params) (d : String) (source : Source) (files : Files)
      → below c.base_location (format_name names c.name_format ps) ≡ ok d
      → source.fails ≡ false
      → c.open_mode ≡ overwrite
      → c.fail_if_older_than ≡ none
      → Settles
          (IsFresh contents files)
          (store_file fs names c ps source
            >> commit fs c
            >> with_files fs (load_file fs names c ps))
          (λ found s. found ≡ source.bytes)
  store_load ps d source files b s m old =
      Settles-bind (store_file fs names c ps source >> commit fs c)
        (λ u. with_files fs (load_file fs names c ps)) (IsCommitted contents d source.bytes files)
        (λ found s. found ≡ source.bytes) (store_commit ps d source files b s m)
        (λ u. loaded-Settles ps d source.bytes files b old)
