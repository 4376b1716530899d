-- ===== src/LocalFileProxy.antt =====
-- LocalFileProxy.cpp: a node that keeps each set of parameters' data in a file of its own. A request
-- leaves its change pending, beside the file; Commit and Rollback settle what is pending.
pub mod Commit
pub mod Pending
pub mod Settle
pub mod Returns
pub mod History
pub mod Contents
pub mod RoundTrip
pub mod Reload
pub mod Append
pub mod Appended
pub mod CommitAppend
pub mod Disk
pub mod Tests
use Prim.Native.String.{◌++◌}
use data_proxy_library.Common.{
  ℕ, zero, suc, String, Bool, true, false, ◌&&◌, ◌||◌, not, Option, none, some, List, [], ◌∷◌, ltb,
  nat_eq, is_some, if◌then◌else◌, ◌==◌,
}
use data_proxy_library.Common.Dict.{Dict, find, put}
use data_proxy_library.Common.Exec.{mv, Result, ok, err, diverged, Exec, pure, raise, ◌>>=◌, ◌>>◌}
use data_proxy_library.Request.{Params, Bytes}

-- F_OK, R_OK, and W_OK | X_OK
pub data Access : Type 0 where
  present : Access
  readable : Access
  writable : Access

-- FileUtilities, the file streams, the lock files and the ids that the node uses. `write` says
-- whether the stream has failed, which the caller may look at or not; `age` is in seconds.
pub record FileSystem (W : Type 0) : Type 0 where
  pub does_exist : String → W → Bool
  pub does_directory_exist : String → W → Bool
  pub dir_name : String → String
  pub validate_directory : Access → String → Exec W (Unit {0})
  pub validate_or_create_directory : Access → String → Exec W (Unit {0})
  pub age : String → W → ℕ
  pub remove : String → Exec W (Unit {0})
  pub move : String → String → Exec W (Unit {0})
  pub open_file : String → Exec W (Unit {0})
  pub write : String → Bytes → W → Bool × W
  pub read : String → Exec W Bytes
  pub unique_id : Exec W String
  pub obtain_lock : String → Exec W (Unit {0})
  pub release_lock : String → W → W

-- The text functions that a name is built with.
pub record Naming : Type 0 where
  pub to_string : Params → String
  pub substitute : String → Params → Result String
  pub mentions : String → String → Bool
  pub replace_all : String → String → String → String

pub data OpenMode : Type 0 where
  overwrite : OpenMode
  append : OpenMode

-- What the constructor reads.
pub record FileConfig : Type 0 where
  pub base_location : String
  pub name_format : Option String
  pub open_mode : OpenMode
  pub skip_lines : ℕ
  pub fail_if_older_than : Option ℕ

-- The data of a Store, and whether its stream fails once they are read.
pub record Source : Type 0 where
  pub bytes : Bytes
  pub fails : Bool

-- m_PendingOps
abbrev pub PendingOps : Type 0
PendingOps = Dict (List String)

-- `operation == DELETE_STRING`
unfoldable pub is_delete : String → Bool
is_delete op = op == ""

abbrev pub replace_stars : Naming → String → Params → Result String → Result String
replace_stars names format ps (ok name) =
    ok (if names.mentions format "*" then names.replace_all name "*" (names.to_string ps) else name)
replace_stars names format ps (err e) = err e
replace_stars names format ps diverged = diverged

abbrev pub below : String → Result String → Result String
below base (ok name) = ok (base ++ "/" ++ name)
below base (err e) = err e
below base diverged = diverged

abbrev pub format_name : Naming → Option String → Params → Result String
format_name names none ps = ok (names.to_string ps)
format_name names (some format) ps = replace_stars names format ps (names.substitute format ps)

unfoldable pub build_file_spec : {S : Type 0} → Naming → FileConfig → Params → Exec S String
build_file_spec names c ps s = (below c.base_location (format_name names c.name_format ps), s)

abbrev pub suffixed : String → String → String → String
suffixed destination suffix id = destination ++ suffix ++ "." ++ id

-- The pending files among the operations: a delete can only stand in front.
unfoldable pub files_of : List String → List String
unfolding is_delete
files_of [] = []
files_of (op ∷ ops) = if is_delete op then ops else op ∷ ops

unfoldable pub push_back : String → List String → List String
push_back op [] = op ∷ []
push_back op (o ∷ ops) = o ∷ push_back op ops

-- m_PendingOps[ destination ]
unfoldable pub ops_of : String → PendingOps → List String
ops_of destination pending = elim (find destination pending) [ none ↦ [] | some ops ↦ ops ]

module _ {W : Type 0} (fs : FileSystem W) where
  abbrev pub when : Bool → Exec W (Unit {0}) → Exec W (Unit {0})
  when b m = if b then m else pure tt

  unfoldable pub remove_all : List String → Exec W (Unit {0})
  remove_all [] = pure tt
  remove_all (f ∷ rest) = fs.remove f >> remove_all rest

  -- boost::iostreams::copy into the open file, with the two tests behind it.
  unfoldable pub copy_source : Source → String → Exec W (Unit {0})
  copy_source source file w =
      let written = fs.write file source.bytes w in
      ((if source.fails || written.0 then err (mv 0) else ok tt), written.1)

  abbrev pub with_files : {S A : Type 0} → Exec W A → Exec (S × W) A
  with_files m (s, w) = ((m w).0, (s, (m w).1))

module _ {W : Type 0} (fs : FileSystem W) (names : Naming) (c : FileConfig) where
  abbrev pub check_age : String → Option ℕ → Exec W (Unit {0})
  check_age file none w = (ok tt, w)
  check_age file (some limit) w = if ltb limit (fs.age file w) then (err (mv 0), w) else (ok tt, w)

  -- LoadImpl, into an output that does not fail.
  unfoldable pub load_named : String → Exec W Bytes
  load_named file w =
      if fs.does_exist file w
      then (fs.validate_directory readable (fs.dir_name file)
            >> check_age file c.fail_if_older_than
            >> fs.read file)
          w
      else (err (mv 0), w)

  unfoldable pub load_file : Params → Exec W Bytes
  unfolding build_file_spec load_named
  load_file ps = build_file_spec names c ps >>= load_named

  -- StoreImpl behind the name, up to the closed pre-commit file.
  unfoldable pub write_pending : String → Source → Exec W String
  unfolding copy_source
  write_pending destination source =
      fs.validate_or_create_directory writable (fs.dir_name destination) >> fs.unique_id >>= λ id.
      fs.open_file (suffixed destination "~~dpl.pending" id)
      >> copy_source fs source (suffixed destination "~~dpl.pending" id)
      >> pure (suffixed destination "~~dpl.pending" id)

  abbrev pub set_ops : String → List String → Exec (PendingOps × W) (Unit {0})
  set_ops destination ops (pending, w) = (ok tt, (put destination ops pending, w))

  -- What is pending for the file is cancelled, and the operation takes its place.
  unfoldable pub replace_ops : String → String → Exec (PendingOps × W) (Unit {0})
  unfolding ops_of files_of remove_all
  replace_ops destination op (pending, w) =
      (with_files fs (remove_all fs (files_of (ops_of destination pending)))
          >> set_ops destination (op ∷ []))
        (pending, w)

  unfoldable pub push_op : OpenMode → String → String → Exec (PendingOps × W) (Unit {0})
  unfolding replace_ops ops_of push_back
  push_op overwrite destination op (pending, w) = replace_ops destination op (pending, w)
  push_op append destination op (pending, w) =
      set_ops destination (push_back op (ops_of destination pending)) (pending, w)

  abbrev pub store_named : Source → String → Exec (PendingOps × W) (Unit {0})
  store_named source destination =
      with_files fs (write_pending destination source) >>= push_op c.open_mode destination

  unfoldable pub store_file : Params → Source → Exec (PendingOps × W) (Unit {0})
  unfolding write_pending push_op build_file_spec
  store_file ps source =
      with_files fs (fs.validate_directory writable c.base_location)
      >> build_file_spec names c ps
      >>= store_named source

  abbrev pub check_directory : String → Exec W (Unit {0})
  check_directory file w =
      when fs (fs.does_directory_exist (fs.dir_name file) w)
        (fs.validate_directory writable (fs.dir_name file)) w

  unfoldable pub delete_pending : String → Exec (PendingOps × W) (Unit {0})
  unfolding replace_ops
  delete_pending file (pending, w) =
      if not (fs.does_exist file w) && not (is_some (find file pending))
      then (ok tt, (pending, w))
      else replace_ops file "" (pending, w)

  -- DeleteImpl
  unfoldable pub delete_file : Params → Exec (PendingOps × W) (Unit {0})
  unfolding build_file_spec delete_pending
  delete_file ps = build_file_spec names c ps >>= λ file.
      with_files fs (check_directory file) >> delete_pending file
