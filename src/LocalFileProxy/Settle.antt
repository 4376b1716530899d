-- ===== src/LocalFileProxy/Settle.antt =====
-- What Commit and Rollback leave pending, and that they come back.
use data_proxy_library.Common.{String, ◌≡◌, ◌≢◌, refl, List, [], ◌∷◌, All, Bool-cases, inl, inr}
use data_proxy_library.Common.Exec.{Result, ok, err, diverged, Exec}
use data_proxy_library.Common.Exec.Rules.{Keeps}
use data_proxy_library.LocalFileProxy.{
  FileSystem, FileConfig, OpenMode, overwrite, append, PendingOps, is_delete,
}
use data_proxy_library.LocalFileProxy.Commit.{
  for_each_entry, or_keep, commit, commit_overwrite, commit_single, commit_entry, discard,
  discard_files, rollback,
}
use data_proxy_library.LocalFileProxy.Pending.{IsFile, IsOps, IsPending, Settled}

module _ {W : Type 0} where
  -- What a step that did not succeed leaves of an entry.
  abbrev IsLeft : OpenMode → Result (Unit {0}) × (List String × W) → Type 0
  IsLeft mode (ok u, (ops, w)) = Unit
  IsLeft mode (err e, (ops, w)) = IsOps mode ops
  IsLeft mode (diverged, (ops, w)) = IsOps mode ops

  entry-IsPending :
      (mode : OpenMode) (d : String) (rest : PendingOps)
      (next : Result (Unit {0}) × (PendingOps × W)) (s : Result (Unit {0}) × (List String × W))
      → IsLeft mode s
      → IsPending mode rest
      → IsPending mode next.1.0
      → IsPending mode (or_keep (s.0, s.1.1) ((d, s.1.0) ∷ rest) next).1.0
  entry-IsPending mode d rest next (ok u, (ops, w)) l h n = n
  entry-IsPending mode d rest next (err e, (ops, w)) l h n = (l, h)
  entry-IsPending mode d rest next (diverged, (ops, w)) l h n = (l, h)

  for_each_entry-IsPending :
      (mode : OpenMode) (step : String → Exec (List String × W) (Unit {0}))
      → ((d : String) (ops : List String) (w : W) → IsOps mode ops → IsLeft mode (step d (ops, w)))
      → (pending : PendingOps) (w : W) → IsPending mode pending
      → IsPending mode (for_each_entry step (pending, w)).1.0
  unfolding for_each_entry
  for_each_entry-IsPending mode step keeps [] w h = tt
  for_each_entry-IsPending mode step keeps ((d, ops) ∷ rest) w (o, h) =
      entry-IsPending mode d rest (for_each_entry step (rest, (step d (ops, w)).1.1))
        (step d (ops, w)) (keeps d ops w o) h
        (for_each_entry-IsPending mode step keeps rest (step d (ops, w)).1.1 h)

  or_keep_clears :
      (s : Result (Unit {0}) × W) (left : PendingOps) (next : Result (Unit {0}) × (PendingOps × W))
      → (next.0 ≡ ok tt → next.1.0 ≡ [])
      → (or_keep s left next).0 ≡ ok tt
      → (or_keep s left next).1.0 ≡ []
  or_keep_clears (ok u, w) left next k e = k e
  or_keep_clears (err x, w) left next k e = absurd cc
  or_keep_clears (diverged, w) left next k e = absurd cc

  -- Where every step succeeds nothing is left.
  for_each_entry_clears :
      (step : String → Exec (List String × W) (Unit {0})) (pending : PendingOps) (w : W)
      → (for_each_entry step (pending, w)).0 ≡ ok tt
      → (for_each_entry step (pending, w)).1.0 ≡ []
  unfolding for_each_entry
  for_each_entry_clears step [] w h = refl
  for_each_entry_clears step ((d, ops) ∷ rest) w h =
      or_keep_clears ((step d (ops, w)).0, (step d (ops, w)).1.1)
        ((d, (step d (ops, w)).1.0) ∷ rest) (for_each_entry step (rest, (step d (ops, w)).1.1))
        (for_each_entry_clears step rest (step d (ops, w)).1.1) h

  pub or_keep-Returns :
      {S : Type 0} (s : Result (Unit {0}) × W) (left : S) (next : Result (Unit {0}) × (S × W))
      → s.0 ≢ diverged
      → next.0 ≢ diverged
      → (or_keep s left next).0 ≢ diverged
  or_keep-Returns (ok u, w) left next k n = n
  or_keep-Returns (err x, w) left next k n = λ e. cc
  or_keep-Returns (diverged, w) left next k n = absurd (k refl)

  pub for_each_entry-Returns :
      (mode : OpenMode) (step : String → Exec (List String × W) (Unit {0}))
      → ((d : String) (ops : List String) (w : W) → IsOps mode ops → (step d (ops, w)).0 ≢ diverged)
      → (pending : PendingOps) (w : W) → IsPending mode pending
      → (for_each_entry step (pending, w)).0 ≢ diverged
  unfolding for_each_entry
  for_each_entry-Returns mode step back [] w h = λ e. cc
  for_each_entry-Returns mode step back ((d, ops) ∷ rest) w (o, h) =
      or_keep-Returns ((step d (ops, w)).0, (step d (ops, w)).1.1)
        ((d, (step d (ops, w)).1.0) ∷ rest) (for_each_entry step (rest, (step d (ops, w)).1.1))
        (back d ops w o) (for_each_entry-Returns mode step back rest (step d (ops, w)).1.1 h)

module _ {W : Type 0} (fs : FileSystem W) where
  single-IsLeft :
      (r : Result (Unit {0})) (op : String) (w : W) → IsLeft {W = W} overwrite (r, (op ∷ [], w))
  single-IsLeft (ok u) op w = tt
  single-IsLeft (err e) op w = tt
  single-IsLeft diverged op w = tt

  commit_overwrite-IsLeft :
      (d : String) (ops : List String) (w : W)
      → IsOps overwrite ops
      → IsLeft overwrite (commit_overwrite fs d (ops, w))
  unfolding commit_overwrite
  commit_overwrite-IsLeft d [] w h = absurd h
  commit_overwrite-IsLeft d (op ∷ []) w h =
      single-IsLeft (commit_single fs d op w).0 op (commit_single fs d op w).1
  commit_overwrite-IsLeft d (op ∷ o ∷ ops) w h = absurd h

  files-IsLeft :
      (mode : OpenMode) (f : String) (ops : List String) (s : Result (Unit {0}) × W)
      (next : Result (Unit {0}) × (List String × W))
      → IsOps mode (f ∷ ops)
      → IsLeft mode next
      → IsLeft mode (or_keep s (f ∷ ops) next)
  files-IsLeft mode f ops (ok u, w) next h n = n
  files-IsLeft mode f ops (err e, w) next h n = h
  files-IsLeft mode f ops (diverged, w) next h n = h

  discard_files-IsLeft :
      (ops : List String) (w : W) → All IsFile ops → IsLeft append (discard_files fs (ops, w))
  unfolding discard_files
  discard_files-IsLeft [] w h = tt
  discard_files-IsLeft (f ∷ ops) w (g, h) =
      files-IsLeft append f ops (fs.remove f w) (discard_files fs (ops, (fs.remove f w).1)) h
        (discard_files-IsLeft ops (fs.remove f w).1 h)

  discard_single-IsLeft : (op : String) (w : W) → IsLeft overwrite (discard_files fs (op ∷ [], w))
  unfolding discard_files
  discard_single-IsLeft op w =
      files-IsLeft overwrite op [] (fs.remove op w) (discard_files fs ([], (fs.remove op w).1)) tt
        tt

  discard-IsLeft :
      (mode : OpenMode) (ops : List String) (w : W)
      → IsOps mode ops
      → IsLeft mode (discard fs (ops, w))
  unfolding discard discard_files
  discard-IsLeft mode [] w h = absurd h
  discard-IsLeft overwrite (op ∷ []) w h = elim (Bool-cases (is_delete op)) [
    | inl e ↦ rw e tt
    | inr e ↦ rw e (discard_single-IsLeft op w)
  ]
  discard-IsLeft overwrite (op ∷ o ∷ ops) w h = absurd h
  discard-IsLeft append (op ∷ ops) w h = elim (Bool-cases (is_delete op)) [
    | inl e ↦ rw e (discard_files-IsLeft ops w h)
    | inr e ↦ rw e (discard_files-IsLeft (op ∷ ops) w (e, h))
  ]

  pub rollback-Keeps : (mode : OpenMode) → Keeps (Settled fs mode) (rollback fs)
  unfolding rollback
  rollback-Keeps mode = record {
    at = λ (pending, w) h.
        for_each_entry-IsPending mode (λ d. discard fs) (λ d ops v o. discard-IsLeft mode ops v o)
          pending w h;
  }

  commit_entries-Keeps :
      (c : FileConfig) (mode : OpenMode)
      → mode ≡ overwrite
      → Keeps (Settled fs mode) (for_each_entry (commit_entry fs mode c.skip_lines))
  commit_entries-Keeps c overwrite e = record {
    at = λ (pending, w) h.
        for_each_entry-IsPending overwrite (commit_overwrite fs) commit_overwrite-IsLeft pending w
          h;
  }
  commit_entries-Keeps c append e = absurd cc

  pub commit-Keeps :
      (c : FileConfig) → c.open_mode ≡ overwrite → Keeps (Settled fs c.open_mode) (commit fs c)
  unfolding commit
  commit-Keeps c e = commit_entries-Keeps c c.open_mode e

  pub commit_clears :
      (c : FileConfig) (pending : PendingOps) (w : W)
      → (commit fs c (pending, w)).0 ≡ ok tt
      → (commit fs c (pending, w)).1.0 ≡ []
  unfolding commit
  commit_clears c pending w h =
      for_each_entry_clears (commit_entry fs c.open_mode c.skip_lines) pending w h
