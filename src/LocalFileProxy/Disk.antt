-- ===== src/LocalFileProxy/Disk.antt =====
-- Files that are kept in a function, with the next id: file operations that are as assumed.
use Prim.Native.String.{◌++◌}
use data_proxy_library.Common.{
  String, ◌≡◌, ◌≢◌, refl, ap, ◌∙◌, true, false, Option, none, some, [], is_some, ◌==◌, Bool-cases,
  inl, inr,
}
use mathlib.Core.List.{[], ◌++◌ as ◌+++◌}
use data_proxy_library.Common.Exec.{mv, Result, ok, err, diverged}
use data_proxy_library.Request.{Bytes}
use data_proxy_library.LocalFileProxy.{FileSystem}
use data_proxy_library.LocalFileProxy.Contents.{Files, with_file, IsFileSystem}
use data_proxy_library.LocalFileProxy.Returns.{IsReturning}

abbrev pub Disk : Type 0
Disk = Files × String

abbrev pub contents : Disk → Files
contents w = w.0

abbrev bytes_or_none : Option Bytes → Bytes
bytes_or_none none = []
bytes_or_none (some bs) = bs

abbrev pub when_found :
    {A : Type 0} → Option Bytes → (Bytes → Result A × Disk) → Disk → Result A × Disk
when_found none f w = (err (mv 1), w)
when_found (some bs) f w = f bs

abbrev pub disk : FileSystem Disk
disk = record {
  does_exist = λ f w. is_some (w.0 f);
  does_directory_exist = λ d w. true;
  dir_name = λ f. f;
  validate_directory = λ a d w. (ok tt, w);
  validate_or_create_directory = λ a d w. (ok tt, w);
  age = λ f w. 0;
  remove = λ f w. when_found (w.0 f) (λ bs. (ok tt, (with_file f none w.0, w.1))) w;
  move = λ f g w.
      when_found (w.0 f) (λ bs. (ok tt, (with_file g (some bs) (with_file f none w.0), w.1))) w;
  open_file = λ f w. (ok tt, (with_file f (some []) w.0, w.1));
  write = λ f bytes w. (false, (with_file f (some (bytes_or_none (w.0 f) +++ bytes)) w.0, w.1));
  read = λ f w. when_found (w.0 f) (λ bs. (ok bs, w)) w;
  unique_id = λ w. (ok w.1, (w.0, w.1 ++ "1"));
  obtain_lock = λ f w. (ok tt, (with_file f (some []) w.0, w.1));
  release_lock = λ f w. w;
}

with_file_congr :
    (f : String) (a : Option Bytes) (old new : Files)
    → ((g : String) → old g ≡ new g)
    → (g : String) → with_file f a old g ≡ with_file f a new g
with_file_congr f a old new h g = elim (Bool-cases (f == g)) [
  | inl e ↦ rw e refl
  | inr e ↦ rw e (h g)
]

pub disk-IsFileSystem : IsFileSystem contents disk
disk-IsFileSystem = record {
  validates = λ a d files. record { at = λ w h. (tt, refl, h) };
  creates = λ a d files. record { at = λ w h. (tt, refl, h) };
  gives_id = λ files. record { at = λ w h. (w.1, refl, h) };
  opens = λ f files. record { at = λ w h. (tt, refl, with_file_congr f (some []) w.0 files h) };
  writes = λ f old bytes files w e h.
      (refl, rw (h f ∙ e) (with_file_congr f (some (old +++ bytes)) w.0 files h));
  reads = λ f bytes files e. record { at = λ w h. rw (h f ∙ e) (bytes, refl, (refl, h)) };
  removes = λ f bytes files e. record {
    at = λ w h. rw (h f ∙ e) (tt, refl, with_file_congr f none w.0 files h);
  };
  moves = λ f g bytes files e. record {
    at = λ w h. rw (h f ∙ e) (
      tt,
      refl,
      with_file_congr g (some bytes) (with_file f none w.0) (with_file f none files)
          (with_file_congr f none w.0 files h),
    );
  };
  locks =
      λ f files. record { at = λ w h. (tt, refl, ([], with_file_congr f (some []) w.0 files h)) };
  releases = λ f files w h. h;
  exists_lem = λ f files w h. ap is_some (h f);
}

when_found-Returns :
    {A : Type 0} (o : Option Bytes) (f : Bytes → Result A × Disk) (w : Disk)
    → ((bs : Bytes) → (f bs).0 ≢ diverged)
    → (when_found o f w).0 ≢ diverged
when_found-Returns none f w h = λ e. cc
when_found-Returns (some bs) f w h = h bs

pub disk-IsReturning : IsReturning disk
disk-IsReturning = record {
  remove = λ f. record { at = λ w. when_found-Returns (w.0 f) _ w (λ bs e. cc) };
  move = λ f g. record { at = λ w. when_found-Returns (w.0 f) _ w (λ bs e. cc) };
  open_file = λ f. record { at = λ w e. cc };
  read = λ f. record { at = λ w. when_found-Returns (w.0 f) _ w (λ bs e. cc) };
  obtain_lock = λ f. record { at = λ w e. cc };
}
