-- ===== src/LocalFileProxy/Contents.antt =====
-- What the files hold, and how the file operations change it.
use data_proxy_library.Common.{
  String, ◌≡◌, false, Option, none, some, [], ◌∷◌, ◌++◌, is_some, if◌then◌else◌, ◌==◌,
}
use data_proxy_library.Common.Exec.Rules.{Settles}
use data_proxy_library.Request.{Bytes}
use data_proxy_library.LocalFileProxy.{Access, FileSystem, PendingOps, suffixed}

-- The bytes of each file that exists.
abbrev pub Files : Type 0
Files = String → Option Bytes

abbrev pub with_file : String → Option Bytes → Files → Files
with_file f content files g = if f == g then content else files g

module _ {W : Type 0} (contents : W → Files) where
  abbrev pub Holds : Files → W → Type 0
  Holds files w = (g : String) → contents w g ≡ files g

  -- Disks that do not fail, and directories that may be used.
  pub record IsFileSystem (fs : FileSystem W) : Type 0 where
    pub validates :
        (a : Access) (d : String) (files : Files)
        → Settles (Holds files) (fs.validate_directory a d) (λ u. Holds files)
    pub creates :
        (a : Access) (d : String) (files : Files)
        → Settles (Holds files) (fs.validate_or_create_directory a d) (λ u. Holds files)
    pub gives_id : (files : Files) → Settles (Holds files) fs.unique_id (λ id. Holds files)
    pub opens :
        (f : String) (files : Files)
        → Settles (Holds files) (fs.open_file f) (λ u. Holds (with_file f (some []) files))
    pub writes :
        (f : String) (old bytes : Bytes) (files : Files) (w : W)
        → files f ≡ some old
        → Holds files w
        → ((fs.write f bytes w).0 ≡ false)
          × Holds (with_file f (some (old ++ bytes)) files) (fs.write f bytes w).1
    pub reads :
        (f : String) (bytes : Bytes) (files : Files)
        → files f ≡ some bytes
        → Settles (Holds files) (fs.read f) (λ found w. (found ≡ bytes) × Holds files w)
    pub removes :
        (f : String) (bytes : Bytes) (files : Files)
        → files f ≡ some bytes
        → Settles (Holds files) (fs.remove f) (λ u. Holds (with_file f none files))
    pub moves :
        (f g : String) (bytes : Bytes) (files : Files)
        → files f ≡ some bytes
        → Settles
            (Holds files)
            (fs.move f g)
            (λ u. Holds (with_file g (some bytes) (with_file f none files)))
    pub locks :
        (f : String) (files : Files)
        → Settles
            (Holds files)
            (fs.obtain_lock f)
            (λ u w. (now : Bytes) × Holds (with_file f (some now) files) w)
    pub releases :
        (f : String) (files : Files) (w : W) → Holds files w → Holds files (fs.release_lock f w)
    pub exists_lem :
        (f : String) (files : Files) (w : W) → Holds files w → fs.does_exist f w ≡ is_some (files f)

  -- What a Store has written, in a file with a fresh id.
  abbrev pub IsWritten : String → Bytes → Files → String → W → Type 0
  IsWritten d bytes files q w =
      (id : String) × (q ≡ suffixed d "~~dpl.pending" id) × Holds (with_file q (some bytes) files) w

  -- One operation is pending: the file that the Store has written.
  abbrev pub IsStored : String → Bytes → Files → Unit {0} → PendingOps × W → Type 0
  IsStored d bytes files u (pending, w) =
      (id : String) × (pending ≡ (d, suffixed d "~~dpl.pending" id ∷ []) ∷ [])
      × Holds (with_file (suffixed d "~~dpl.pending" id) (some bytes) files) w

  -- Holds on the way in.
  abbrev pub IsFresh : Files → PendingOps × W → Type 0
  IsFresh files (pending, w) = (pending ≡ []) × Holds files w

  -- The bytes are in the destination, and the pre-commit file is gone.
  abbrev pub IsCommitted : String → Bytes → Files → Unit {0} → PendingOps × W → Type 0
  IsCommitted d bytes files u (pending, w) =
      (pending ≡ [])
      × ((id : String) × Holds
            (with_file d (some bytes) (with_file (suffixed d "~~dpl.pending" id) none files)) w)

  -- The pre-commit file is gone, and nothing else has changed.
  abbrev pub IsRolledBack : String → Files → Unit {0} → PendingOps × W → Type 0
  IsRolledBack d files u (pending, w) =
      (pending ≡ [])
      × ((id : String) × Holds (with_file (suffixed d "~~dpl.pending" id) none files) w)
