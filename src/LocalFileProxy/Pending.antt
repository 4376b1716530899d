-- ===== src/LocalFileProxy/Pending.antt =====
-- The pending operations of a destination: in front at most a delete, behind it pre-commit files.
use Prim.Native.String.{◌++◌, len}
use text.Mathlib.TextPositions.{len-append}
use data_proxy_library.Common.{
  ◌≤◌, String, ◌≡◌, sym, ap, subst, Bool, true, false, ◌&&◌, not, List, [], ◌∷◌, All, ◌==◌,
  if◌then◌else◌, eq_iff, arith, Bool-cases, inl, inr, is_some,
}
use data_proxy_library.Common.Dict.{find, put, str_lt}
use data_proxy_library.Common.Exec.{ok, Exec, pure, ◌>>◌}
use data_proxy_library.Common.Exec.Rules.{
  Keeps, Keeps-bind, Keeps-bind_yielded, Yields, Yields-pure, Yields-bind, if-lands,
}
use data_proxy_library.Request.{Params}
use data_proxy_library.LocalFileProxy.{
  FileSystem, Naming, FileConfig, OpenMode, writable, overwrite, append, Source, PendingOps,
  is_delete, suffixed, ops_of, push_back, files_of, remove_all, with_files, set_ops, replace_ops,
  push_op, write_pending, store_named, store_file, delete_pending, delete_file, build_file_spec,
  copy_source, check_directory,
}

-- A pre-commit file, not a mark for a delete.
abbrev pub IsFile : String → Type 0
IsFile op = is_delete op ≡ false

-- The operations that may be pending for one destination.
abbrev pub IsOps : OpenMode → List String → Type 0
IsOps mode [] = ⊥
IsOps overwrite (op ∷ []) = Unit
IsOps overwrite (op ∷ o ∷ ops) = ⊥
IsOps append (op ∷ ops) = All IsFile ops

abbrev pub IsPending : OpenMode → PendingOps → Type 0
IsPending mode [] = Unit
IsPending mode ((destination, ops) ∷ rest) = IsOps mode ops × IsPending mode rest

put-IsPending :
    (mode : OpenMode) (d : String) (ops : List String) (pending : PendingOps)
    → IsOps mode ops
    → IsPending mode pending
    → IsPending mode (put d ops pending)
unfolding put
put-IsPending mode d ops [] o h = (o, tt)
put-IsPending mode d ops ((e, old) ∷ rest) o (p, h) = elim (Bool-cases (e == d)) [
  | inl here ↦ rw here (o, h)
  | inr there ↦ elim (Bool-cases (str_lt d e)) [
    | inl before ↦ rw (there, before) (o, (p, h))
    | inr behind ↦ rw (there, behind) (p, put-IsPending mode d ops rest o h)
  ]
]

single-IsOps : (mode : OpenMode) (op : String) → IsOps mode (op ∷ [])
single-IsOps overwrite op = tt
single-IsOps append op = tt

files_push_back :
    (op : String) (ops : List String) → IsFile op → All IsFile ops → All IsFile (push_back op ops)
unfolding push_back
files_push_back op [] f h = (f, tt)
files_push_back op (o ∷ ops) f (g, h) = (g, files_push_back op ops f h)

push_back-IsOps :
    (op : String) (ops : List String)
    → IsFile op
    → IsOps append ops
    → IsOps append (push_back op ops)
unfolding push_back
push_back-IsOps op [] f h = absurd h
push_back-IsOps op (o ∷ ops) f h = files_push_back op ops f h

ops_of-cons :
    (d e : String) (ops : List String) (rest : PendingOps)
    → ops_of d ((e, ops) ∷ rest) ≡ (if e == d then ops else ops_of d rest)
unfolding ops_of find
ops_of-cons d e ops rest = ground arith

ops_of-IsPushed :
    (d op : String) (pending : PendingOps)
    → IsFile op
    → IsPending append pending
    → IsOps append (push_back op (ops_of d pending))
unfolding ops_of find push_back
ops_of-IsPushed d op [] f h = tt
ops_of-IsPushed d op ((e, ops) ∷ rest) f (p, h) =
    subst (λ l. IsOps append (push_back op l)) (sym (ops_of-cons d e ops rest))
      (pushed_if (e == d) ops (ops_of d rest) (push_back-IsOps op ops f p)
        (ops_of-IsPushed d op rest f h))
  where
    pushed_if :
        (b : Bool) (these those : List String)
        → IsOps append (push_back op these)
        → IsOps append (push_back op those)
        → IsOps append (push_back op (if b then these else those))
    pushed_if true these those p h = p
    pushed_if false these those p h = h

longer-IsFile : (d rest : String) → 1 ≤ len rest → IsFile (d ++ rest)
unfolding is_delete
longer-IsFile d rest h = elim (Bool-cases ((d ++ rest) == "")) [
  | inl e ↦ absurd (omega (arith, len-append d rest, ap len ((eq_iff (d ++ rest) "").0 e), h))
  | inr e ↦ e
]

pub suffixed-IsFile : (d id : String) → IsFile (suffixed d "~~dpl.pending" id)
suffixed-IsFile d id =
    longer-IsFile d ("~~dpl.pending" ++ "." ++ id)
      (omega (arith, len-append "~~dpl.pending" ("." ++ id)))

module _ {W : Type 0} (fs : FileSystem W) (mode : OpenMode) where
  abbrev pub Settled : PendingOps × W → Type 0
  Settled (pending, w) = IsPending mode pending

  with_files-Keeps : {A : Type 0} (m : Exec W A) → Keeps Settled (with_files fs m)
  with_files-Keeps m = record { at = λ (pending, w) h. h }

  replace_ops-Keeps :
      (names : Naming) (c : FileConfig) (d op : String)
      → Keeps Settled (replace_ops fs names c d op)
  unfolding replace_ops
  replace_ops-Keeps names c d op = record {
    at = λ (pending, w) h.
        (Keeps-bind (with_files fs (remove_all fs (files_of (ops_of d pending))))
            (λ _. set_ops fs names c d (op ∷ []))
            (with_files-Keeps (remove_all fs (files_of (ops_of d pending))))
            (λ _. record {
              at = λ (now, v) k. put-IsPending mode d (op ∷ []) now (single-IsOps mode op) k;
            })).at
          (pending, w) h;
  }

  written-IsFile :
      (names : Naming) (c : FileConfig) (d : String) (source : Source)
      → Yields IsFile (write_pending fs names c d source)
  unfolding write_pending
  written-IsFile names c d source =
      Yields-bind IsFile (fs.validate_or_create_directory writable (fs.dir_name d) >> fs.unique_id)
        (λ id.
          fs.open_file (suffixed d "~~dpl.pending" id)
          >> copy_source fs source (suffixed d "~~dpl.pending" id)
          >> pure (suffixed d "~~dpl.pending" id))
        (λ id.
          Yields-bind IsFile
            (fs.open_file (suffixed d "~~dpl.pending" id)
              >> copy_source fs source (suffixed d "~~dpl.pending" id))
            (λ u. pure (suffixed d "~~dpl.pending" id))
            (λ u. Yields-pure IsFile (suffixed d "~~dpl.pending" id) (suffixed-IsFile d id)))

  write_pending-Yields :
      (names : Naming) (c : FileConfig) (d : String) (source : Source)
      → Yields {S = PendingOps × W} IsFile (with_files fs (write_pending fs names c d source))
  write_pending-Yields names c d source = record {
    at = λ (pending, w) op e. (written-IsFile names c d source).at w op e;
  }

module _ {W : Type 0} (fs : FileSystem W) (names : Naming) (c : FileConfig) where
  push_op-Keeps :
      (mode : OpenMode) (d op : String)
      → IsFile op
      → Keeps (Settled fs mode) (push_op fs names c mode d op)
  unfolding push_op
  push_op-Keeps overwrite d op f = record {
    at = λ (pending, w) h. (replace_ops-Keeps fs overwrite names c d op).at (pending, w) h;
  }
  push_op-Keeps append d op f = record {
    at = λ (pending, w) h.
        put-IsPending append d (push_back op (ops_of d pending)) pending
          (ops_of-IsPushed d op pending f h) h;
  }

  abbrev pub Tidy : PendingOps × W → Type 0
  Tidy = Settled fs c.open_mode

  build_file_spec-Keeps : (ps : Params) → Keeps Tidy (build_file_spec names c ps)
  unfolding build_file_spec
  build_file_spec-Keeps ps = record { at = λ (pending, w) h. h }

  store_named-Keeps : (source : Source) (d : String) → Keeps Tidy (store_named fs names c source d)
  store_named-Keeps source d =
      Keeps-bind_yielded IsFile (with_files fs (write_pending fs names c d source))
        (push_op fs names c c.open_mode d)
        (with_files-Keeps fs c.open_mode (write_pending fs names c d source))
        (write_pending-Yields fs c.open_mode names c d source)
        (λ op f. push_op-Keeps c.open_mode d op f)

  pub store_file-Keeps :
      (ps : Params) (source : Source) → Keeps Tidy (store_file fs names c ps source)
  unfolding store_file
  store_file-Keeps ps source =
      Keeps-bind
        (with_files fs (fs.validate_directory writable c.base_location)
          >> build_file_spec names c ps)
        (store_named fs names c source)
        (Keeps-bind (with_files fs (fs.validate_directory writable c.base_location))
          (λ u. build_file_spec names c ps)
          (with_files-Keeps fs c.open_mode (fs.validate_directory writable c.base_location))
          (λ u. build_file_spec-Keeps ps))
        (store_named-Keeps source)

  delete_pending-Keeps : (file : String) → Keeps Tidy (delete_pending fs names c file)
  unfolding delete_pending
  delete_pending-Keeps file = record {
    at = λ (pending, w) h.
        if-lands Tidy (not (fs.does_exist file w) && not (is_some (find file pending)))
          (ok tt, (pending, w)) (replace_ops fs names c file "" (pending, w)) (λ e. h)
          (λ e. (replace_ops-Keeps fs c.open_mode names c file "").at (pending, w) h);
  }

  pub delete_file-Keeps : (ps : Params) → Keeps Tidy (delete_file fs names c ps)
  unfolding delete_file
  delete_file-Keeps ps =
      Keeps-bind (build_file_spec names c ps)
        (λ file. with_files fs (check_directory fs names c file) >> delete_pending fs names c file)
        (build_file_spec-Keeps ps)
        (λ file.
          Keeps-bind (with_files fs (check_directory fs names c file))
            (λ u. delete_pending fs names c file)
            (with_files-Keeps fs c.open_mode (check_directory fs names c file))
            (λ u. delete_pending-Keeps file))
