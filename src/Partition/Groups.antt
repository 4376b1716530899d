-- ===== src/Partition/Groups.antt =====
-- What PartitionNode's store of a table comes to: one store for each maximal run of rows with the
-- same partition value.
use data_proxy_library.Common.{
  String, ◌≡◌, refl, sym, ap, subst, ◌∙◌, true, false, none, List, [], ◌∷◌, ◌==◌, if◌then◌else◌,
  arith, inl, inr, eq_iff, eq_refl, Bool-cases,
}
use mathlib.Core.Path.{fun_ext}
use data_proxy_library.Common.Dict.{put}
use data_proxy_library.Common.Exec.{Result-cases, Exec, pure, ◌>>=◌, ◌>>◌}
use data_proxy_library.Request.{Params, Bytes}
use data_proxy_library.Partition.Blocks.{
  Row, Block, add_line, store_block, flush_if_changed, row_loop, store_last, store_rows,
}

-- A run of rows: their partition value, and their lines.
pub record Group : Type 0 where
  pub id : String
  pub lines : List Bytes

-- A row in front of the runs behind it.
unfoldable pub attach : Row → List Group → List Group
attach r [] = record { id = r.partition_id; lines = r.line ∷ [] } ∷ []
attach r (g ∷ gs) =
    if g.id == r.partition_id
    then record { id = r.partition_id; lines = r.line ∷ g.lines } ∷ gs
    else record { id = r.partition_id; lines = r.line ∷ [] } ∷ g ∷ gs

unfoldable pub groups : List Row → List Group
unfolding attach
groups [] = []
groups (r ∷ rs) = attach r (groups rs)

unfoldable pub add_lines : Bytes → List Bytes → Bytes
add_lines text [] = text
add_lines text (l ∷ ls) = add_lines (add_line text l) ls

module _ {S : Type 0} (store : Params → Bytes → Exec S (Unit {0})) (key : String) (params : Params)
    (header : Bytes) where
  -- Each run is stored in turn, below a header of its own, under its partition value.
  unfoldable pub store_groups : List Group → Exec S (Unit {0})
  unfolding add_lines
  store_groups [] = pure tt
  store_groups (g ∷ gs) =
      store (put key g.id params) (add_lines (add_line [] header) g.lines) >> store_groups gs

  -- The same behind a block that has been started.
  finish : String → Bytes → List Group → Exec S (Unit {0})
  unfolding add_lines store_groups
  finish id text [] s = store (put key id params) text s
  finish id text (g ∷ gs) s =
      if g.id == id
      then (store (put key id params) (add_lines text g.lines) >> store_groups gs) s
      else (store (put key id params) text >> store_groups (g ∷ gs)) s

  >>-pure : (m : Exec S (Unit {0})) → (m >> pure tt) ≡ m
  >>-pure m = fun_ext (λ s. elim (Result-cases (m s).0) [
    | inl (a, p) ↦ ground arith
    | inr (inl (e, p)) ↦ ground arith
    | inr (inr p) ↦ ground arith
  ])

  -- A row joins the block that has been started if it has its partition value.
  finish-attach_same :
      (r : Row) (text : Bytes) (gs : List Group)
      → finish r.partition_id text (attach r gs) ≡ finish r.partition_id (add_line text r.line) gs
  unfolding attach finish add_lines store_groups
  finish-attach_same r text [] = fun_ext (λ s.
      rw (eq_refl r.partition_id)
        (ap (λ m. m s) (>>-pure (store (put key r.partition_id params) (add_line text r.line)))))
  finish-attach_same r text (g ∷ gs) = fun_ext (λ s. elim (Bool-cases (g.id == r.partition_id)) [
    | inl p ↦ rw (p, finish) (rw (eq_refl r.partition_id, finish) refl)
    | inr p ↦ rw (p, finish) (rw (eq_refl r.partition_id, finish) refl)
  ])

  -- Otherwise the block is stored, and the row starts one.
  finish-attach_other :
      (r : Row) (id : String) (text : Bytes) (gs : List Group)
      → (r.partition_id == id) ≡ false
      → finish id text (attach r gs) ≡ (
          store (put key id params) text
          >> finish r.partition_id (add_line (add_line [] header) r.line) gs)
  unfolding attach finish add_lines store_groups
  finish-attach_other r id text [] other = fun_ext (λ s.
      rw (other, finish)
        (ap (λ m. (store (put key id params) text >> m) s)
          (>>-pure (store (put key r.partition_id params) (add_line (add_line [] header) r.line)))))
  finish-attach_other r id text (g ∷ gs) other = fun_ext (λ s.
      elim (Bool-cases (g.id == r.partition_id)) [
        | inl p ↦ rw (p, finish) (rw (other, finish) refl)
        | inr p ↦ rw (p, finish) (rw (other, finish) refl)
      ])

  started_at : String → Bytes → Block
  started_at id text = record { started = true; previous_id = id; text = text }

  bind-step :
      {A B C : Type 0} (m : Exec S (Unit {0})) (a : A) (f : A → Exec S B) (g : B → Exec S C)
      → (m >> pure a >>= f >>= g) ≡ (m >> (f a >>= g))
  bind-step m a f g = fun_ext (λ s. elim (Result-cases (m s).0) [
    | inl (u, p) ↦ ground arith
    | inr (inl (e, p)) ↦ ground arith
    | inr (inr p) ↦ ground arith
  ])

  -- The loop and what follows it, from a block that has been started.
  row_loop-finish :
      (rows : List Row) (id : String) (text : Bytes)
      → (row_loop store key params header rows (started_at id text)
          >>= store_last store key params header none)
        ≡ finish id text (groups rows)
  unfolding row_loop flush_if_changed store_last store_block groups finish started_at
  row_loop-finish [] id text = refl
  row_loop-finish (r ∷ rs) id text = elim (Bool-cases (r.partition_id == id)) [
    | inl p ↦
        subst
          (λ i.
            (row_loop store key params header (r ∷ rs) (started_at i text)
              >>= store_last store key params header none)
            ≡ finish i text (groups (r ∷ rs)))
          ((eq_iff r.partition_id id).0 p)
          (rw (eq_refl r.partition_id, row_loop)
              (row_loop-finish rs r.partition_id (add_line text r.line))
            ∙ sym (finish-attach_same r text (groups rs)))
    | inr p ↦
        rw (p, row_loop)
          (bind-step (store (put key id params) text) (started_at id (add_line [] header))
              (λ b.
                row_loop store key params header rs
                  (started_at r.partition_id (add_line b.text r.line)))
              (store_last store key params header none)
            ∙ ap (λ m. store (put key id params) text >> m)
                (row_loop-finish rs r.partition_id (add_line (add_line [] header) r.line))
            ∙ sym (finish-attach_other r id text (groups rs) p))
  ]

  finish-attach_first :
      (r : Row) (gs : List Group)
      → finish r.partition_id (add_line (add_line [] header) r.line) gs ≡ store_groups (attach r gs)
  unfolding attach finish store_groups add_lines
  finish-attach_first r [] =
      sym (>>-pure (store (put key r.partition_id params) (add_line (add_line [] header) r.line)))
  finish-attach_first r (g ∷ gs) = fun_ext (λ s. elim (Bool-cases (g.id == r.partition_id)) [
    | inl p ↦ rw (p, finish) refl
    | inr p ↦ rw (p, finish) refl
  ])

  -- A table whose rows are read to their end is stored run by run: the rows of each run with one
  -- partition value, in order, below the header, under that value. The first store that throws
  -- ends it.
  pub store_rows-groups :
      (rows : List Row)
      → store_rows store key params header (rows, none) ≡ store_groups (groups rows)
  unfolding store_rows row_loop flush_if_changed groups started_at store_last store_groups
  store_rows-groups [] = refl
  store_rows-groups (r ∷ rs) =
      row_loop-finish rs r.partition_id (add_line (add_line [] header) r.line)
      ∙ finish-attach_first r (groups rs)
