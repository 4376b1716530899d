-- ===== src/LocalFileProxy/RoundTrip.antt =====
-- A Store and the Commit or Rollback behind it.
use data_proxy_library.Common.{
  String, ◌≡◌, refl, subst, ap, ◌∙◌, false, Option, none, some, [], ◌∷◌, ◌++◌, ◌==◌, Bool-cases,
  inl, inr, eq_refl,
}
use data_proxy_library.Common.Dict.{find, put}
use data_proxy_library.Common.Exec.{ok, Exec, ◌>>◌, pure}
use data_proxy_library.Common.Exec.Rules.{Settles, Settles-bind, Settles-pure}
use data_proxy_library.Request.{Params, Bytes}
use data_proxy_library.LocalFileProxy.{
  writable, FileSystem, Naming, FileConfig, OpenMode, overwrite, append, Source, with_files,
  copy_source, write_pending, suffixed, push_op, store_named, store_file, build_file_spec,
  format_name, below, replace_ops, ops_of, files_of, remove_all, push_back,
}
use data_proxy_library.LocalFileProxy.Commit.{
  for_each_entry, commit, commit_overwrite, discard, discard_files, rollback,
}
use data_proxy_library.LocalFileProxy.Pending.{suffixed-IsFile}
use data_proxy_library.LocalFileProxy.Contents.{
  Files, with_file, Holds, IsFileSystem, IsWritten, IsStored, IsFresh, IsCommitted, IsRolledBack,
}

pub with_file_again :
    (f : String) (a b : Option Bytes) (files : Files) (g : String)
    → with_file f b (with_file f a files) g ≡ with_file f b files g
with_file_again f a b files g = elim (Bool-cases (f == g)) [ inl e ↦ rw e refl | inr e ↦ rw e refl ]

pub with_file_same : (f : String) (a : Option Bytes) (files : Files) → with_file f a files f ≡ a
with_file_same f a files = rw (eq_refl f) refl

module _ {W : Type 0} (contents : W → Files) (fs : FileSystem W)
    (law : IsFileSystem contents fs) where
  again_lem :
      (f : String) (a b : Option Bytes) (files : Files) (w : W)
      → Holds contents (with_file f b (with_file f a files)) w
      → Holds contents (with_file f b files) w
  again_lem f a b files w h g = h g ∙ with_file_again f a b files g

  copy_source-Settles :
      (source : Source) (f : String) (old : Bytes) (files : Files)
      → source.fails ≡ false
      → files f ≡ some old
      → Settles
          (Holds contents files)
          (copy_source fs source f)
          (λ u. Holds contents (with_file f (some (old ++ source.bytes)) files))
  unfolding copy_source
  copy_source-Settles source f old files s e = record {
    at = λ w h. (
      tt,
      rw (s, (law.writes f old source.bytes files w e h).0) refl,
      (law.writes f old source.bytes files w e h).1,
    );
  }

  write_pending-Settles :
      (names : Naming) (c : FileConfig) (d : String) (source : Source) (files : Files)
      → source.fails ≡ false
      → Settles
          (Holds contents files)
          (write_pending fs names c d source)
          (IsWritten contents d source.bytes files)
  unfolding write_pending
  write_pending-Settles names c d source files s =
      Settles-bind (fs.validate_or_create_directory writable (fs.dir_name d) >> fs.unique_id)
        (λ id.
          fs.open_file (suffixed d "~~dpl.pending" id)
          >> copy_source fs source (suffixed d "~~dpl.pending" id)
          >> pure (suffixed d "~~dpl.pending" id))
        (λ id. Holds contents files) (IsWritten contents d source.bytes files)
        (Settles-bind (fs.validate_or_create_directory writable (fs.dir_name d)) (λ u. fs.unique_id)
          (λ u. Holds contents files) (λ id. Holds contents files)
          (law.creates writable (fs.dir_name d) files) (λ u. law.gives_id files))
        (λ id.
          let q = suffixed d "~~dpl.pending" id in
          Settles-bind (fs.open_file q >> copy_source fs source q) (λ u. pure q)
            (λ u. Holds contents (with_file q (some source.bytes) (with_file q (some []) files)))
            (IsWritten contents d source.bytes files)
            (Settles-bind (fs.open_file q) (λ u. copy_source fs source q)
              (λ u. Holds contents (with_file q (some []) files))
              (λ u. Holds contents (with_file q (some source.bytes) (with_file q (some []) files)))
              (law.opens q files)
              (λ u.
                copy_source-Settles source q [] (with_file q (some []) files) s
                  (with_file_same q (some []) files)))
            (λ u.
              Settles-pure q (IsWritten contents d source.bytes files)
                (λ w h. (id, refl, again_lem q (some []) (some source.bytes) files w h))))

  -- With nothing pending before and behind.
  pub with_files-Settles :
      {S A : Type 0} (s : S) (P : W → Type 0) (m : Exec W A) (Q : A → W → Type 0)
      → Settles P m Q
      → Settles (λ (t, w). (t ≡ s) × P w) (with_files fs m) (λ a (t, w). (t ≡ s) × Q a w)
  with_files-Settles s P m Q h = record {
    at = λ (t, w) (e, p). let r = h.at w p in (r.0, r.1, (e, r.2));
  }

  push_op-Settles :
      (names : Naming) (c : FileConfig) (mode : OpenMode) (d op : String) (bytes : Bytes)
      (files : Files)
      → Settles
          (λ (t, w). (t ≡ []) × IsWritten contents d bytes files op w)
          (push_op fs names c mode d op)
          (IsStored contents d bytes files)
  unfolding push_op replace_ops ops_of find files_of remove_all push_back put
  push_op-Settles names c overwrite d op bytes files = record {
    at = λ (t, w) (e, (id, same, h)). rw e (
      tt,
      refl,
      (
        id,
        ap (λ q. (d, q ∷ []) ∷ []) same,
        subst (λ q. Holds contents (with_file q (some bytes) files) w) same h,
      ),
    );
  }
  push_op-Settles names c append d op bytes files = record {
    at = λ (t, w) (e, (id, same, h)). rw e (
      tt,
      refl,
      (
        id,
        ap (λ q. (d, q ∷ []) ∷ []) same,
        subst (λ q. Holds contents (with_file q (some bytes) files) w) same h,
      ),
    );
  }

  store_named-Settles :
      (names : Naming) (c : FileConfig) (d : String) (source : Source) (files : Files)
      → source.fails ≡ false
      → Settles
          (IsFresh contents files)
          (store_named fs names c source d)
          (IsStored contents d source.bytes files)
  store_named-Settles names c d source files s =
      Settles-bind (with_files fs (write_pending fs names c d source))
        (push_op fs names c c.open_mode d)
        (λ q (t, w). (t ≡ []) × IsWritten contents d source.bytes files q w)
        (IsStored contents d source.bytes files)
        (with_files-Settles [] (Holds contents files) (write_pending fs names c d source)
          (IsWritten contents d source.bytes files)
          (write_pending-Settles names c d source files s))
        (λ q. push_op-Settles names c c.open_mode d q source.bytes files)

  build_file_spec-Settles :
      (names : Naming) (c : FileConfig) (ps : Params) (d : String) (files : Files)
      → below c.base_location (format_name names c.name_format ps) ≡ ok d
      → Settles
          (IsFresh contents files)
          (build_file_spec names c ps)
          (λ e s. (e ≡ d) × IsFresh contents files s)
  unfolding build_file_spec
  build_file_spec-Settles names c ps d files e = record { at = λ (t, w) h. (d, e, (refl, h)) }

  pub store_file-Settles :
      (names : Naming) (c : FileConfig) (ps : Params) (d : String) (source : Source) (files : Files)
      → below c.base_location (format_name names c.name_format ps) ≡ ok d
      → source.fails ≡ false
      → Settles
          (IsFresh contents files)
          (store_file fs names c ps source)
          (IsStored contents d source.bytes files)
  unfolding store_file
  store_file-Settles names c ps d source files e s =
      Settles-bind
        (with_files fs (fs.validate_directory writable c.base_location)
          >> build_file_spec names c ps)
        (store_named fs names c source) (λ f t. (f ≡ d) × IsFresh contents files t)
        (IsStored contents d source.bytes files)
        (Settles-bind (with_files fs (fs.validate_directory writable c.base_location))
          (λ u. build_file_spec names c ps) (λ u. IsFresh contents files)
          (λ f t. (f ≡ d) × IsFresh contents files t)
          (with_files-Settles [] (Holds contents files)
            (fs.validate_directory writable c.base_location) (λ u. Holds contents files)
            (law.validates writable c.base_location files))
          (λ u. build_file_spec-Settles names c ps d files e))
        (λ f. record {
          at = λ t (same, h). rw same ((store_named-Settles names c d source files s).at t h);
        })

  with_file_under :
      (d q : String) (a b c : Option Bytes) (files : Files) (g : String)
      → with_file d a (with_file q c (with_file q b files)) g
        ≡ with_file d a (with_file q c files) g
  with_file_under d q a b c files g = elim (Bool-cases (d == g)) [
    | inl e ↦ rw e refl
    | inr e ↦ rw e (with_file_again q b c files g)
  ]

  pub commit-Settles :
      (c : FileConfig) (d : String) (bytes : Bytes) (files : Files)
      → c.open_mode ≡ overwrite
      → Settles
          (IsStored contents d bytes files tt)
          (commit fs c)
          (IsCommitted contents d bytes files)
  unfolding commit for_each_entry commit_overwrite
  commit-Settles c d bytes files e = record {
    at = λ (t, w) (id, same, h).
        let q = suffixed d "~~dpl.pending" id in
        let moved =
          (law.moves q d bytes (with_file q (some bytes) files)
              (with_file_same q (some bytes) files)).at
            w h in
        rw (same, e, suffixed-IsFile d id, moved.1)
          (
            tt,
            refl,
            (
              refl,
              (id, λ g. moved.2 g ∙ with_file_under d q (some bytes) (some bytes) none files g),
            ),
          );
  }

  pub rollback-Settles :
      (d : String) (bytes : Bytes) (files : Files)
      → Settles (IsStored contents d bytes files tt) (rollback fs) (IsRolledBack contents d files)
  unfolding rollback for_each_entry discard discard_files
  rollback-Settles d bytes files = record {
    at = λ (t, w) (id, same, h).
        let q = suffixed d "~~dpl.pending" id in
        let gone =
          (law.removes q bytes (with_file q (some bytes) files)
              (with_file_same q (some bytes) files)).at
            w h in
        rw (same, suffixed-IsFile d id, gone.1)
          (tt, refl, (refl, (id, λ g. gone.2 g ∙ with_file_again q (some bytes) none files g)));
  }
