-- ===== src/Partition/Runs.antt =====
-- The runs of rows that PartitionNode's store goes by are the maximal ones.
use data_proxy_library.Common.{
  String, ◌≡◌, ◌≢◌, refl, sym, ap, subst, ◌∙◌, false, none, List, [], ◌∷◌, ◌++◌, ◌==◌, inl, inr,
  eq_iff, Bool-cases, All,
}
use data_proxy_library.Common.Exec.{Exec}
use data_proxy_library.Request.{Params, Bytes}
use data_proxy_library.Partition.Blocks.{Row, store_rows}
use data_proxy_library.Partition.Groups.{Group, attach, groups, store_groups, store_rows-groups}

-- The rows of a run, and of runs one behind the other.
unfoldable pub rows_of : String → List Bytes → List Row
rows_of id [] = []
rows_of id (l ∷ ls) = record { partition_id = id; line = l } ∷ rows_of id ls

unfoldable pub all_rows : List Group → List Row
unfolding rows_of
all_rows [] = []
all_rows (g ∷ gs) = rows_of g.id g.lines ++ all_rows gs

-- Runs that are next to each other have different partition values.
unfoldable pub IsSeparated : List Group → Type 0
IsSeparated [] = Unit
IsSeparated (g ∷ []) = Unit
IsSeparated (g ∷ h ∷ gs) = ((h.id == g.id) ≡ false) × IsSeparated (h ∷ gs)

-- The rows in order, cut into runs that have rows and cannot be made longer.
pub record IsRuns (rows : List Row) (gs : List Group) : Type 0 where
  pub complete : all_rows gs ≡ rows
  pub separated : IsSeparated gs
  pub filled : All (λ g. g.lines ≢ []) gs

attach_complete : (r : Row) (gs : List Group) → all_rows (attach r gs) ≡ r ∷ all_rows gs
unfolding all_rows attach
attach_complete r [] = refl
attach_complete r (g ∷ gs) = elim (Bool-cases (g.id == r.partition_id)) [
  | inl p ↦
      rw (p, attach)
        (ap (λ i. r ∷ (rows_of i g.lines ++ all_rows gs)) (sym ((eq_iff g.id r.partition_id).0 p)))
  | inr p ↦ rw (p, attach) refl
]

same_id-Separated :
    (g h : Group) (gs : List Group) → g.id ≡ h.id → IsSeparated (g ∷ gs) → IsSeparated (h ∷ gs)
unfolding IsSeparated
same_id-Separated g h [] e s = tt
same_id-Separated g h (k ∷ gs) e (d, s) = (subst (λ i. (k.id == i) ≡ false) e d, s)

attach-Separated : (r : Row) (gs : List Group) → IsSeparated gs → IsSeparated (attach r gs)
unfolding IsSeparated attach
attach-Separated r [] s = tt
attach-Separated r (g ∷ gs) s = elim (Bool-cases (g.id == r.partition_id)) [
  | inl p ↦
      rw (p, attach)
        (same_id-Separated g (record { id = r.partition_id; lines = r.line ∷ g.lines }) gs
          ((eq_iff g.id r.partition_id).0 p) s)
  | inr p ↦ rw (p, attach) (p, s)
]

attach_filled :
    (r : Row) (gs : List Group) → All (λ g. g.lines ≢ []) gs → All (λ g. g.lines ≢ []) (attach r gs)
unfolding attach
attach_filled r [] f = (λ e. cc, tt)
attach_filled r (g ∷ gs) (h, f) = elim (Bool-cases (g.id == r.partition_id)) [
  | inl p ↦ rw (p, attach) (λ e. cc, f)
  | inr p ↦ rw (p, attach) (λ e. cc, (h, f))
]

groups-IsRuns : (rows : List Row) → IsRuns rows (groups rows)
unfolding groups all_rows IsSeparated
groups-IsRuns [] = record { complete = refl; separated = tt; filled = tt }
groups-IsRuns (r ∷ rs) = record {
  complete = attach_complete r (groups rs) ∙ ap (λ l. r ∷ l) (groups-IsRuns rs).complete;
  separated = attach-Separated r (groups rs) (groups-IsRuns rs).separated;
  filled = attach_filled r (groups rs) (groups-IsRuns rs).filled;
}

-- A table whose rows are read to their end is stored run by run, where the runs are the rows in
-- order, each run has rows and one partition value, and neighbouring runs have different ones:
-- each run is stored once, in order, its lines below the header, under its partition value. The
-- first store that throws ends it.
pub store_rows-Runs :
    {S : Type 0} (store : Params → Bytes → Exec S (Unit {0})) (key : String) (params : Params)
    (header : Bytes) (rows : List Row)
    → (gs : List Group) × IsRuns rows gs
      × (store_rows store key params header (rows, none) ≡ store_groups store key params header gs)
store_rows-Runs store key params header rows =
    (groups rows, groups-IsRuns rows, store_rows-groups store key params header rows)
