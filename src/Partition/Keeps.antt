-- ===== src/Partition/Keeps.antt =====
-- A partitioned store keeps what the stores of its blocks keep.
use data_proxy_library.Common.{
  ℕ, String, ◌&&◌, not, none, some, inl, inr, List, [], ◌∷◌, ◌==◌, Bool-cases, Option, nat_eq,
}
use data_proxy_library.Common.Exec.{no_header, no_partition_key, sort_failed, Error, Exec}
use data_proxy_library.Common.Exec.Rules.{Keeps, Keeps-pure, Keeps-raise, Keeps-bind}
use data_proxy_library.Request.{Params, Bytes, Input, unread, Session, Forwarder, on_world}
use data_proxy_library.Partition.Blocks.{
  Row, Block, store_block, flush_if_changed, row_loop, store_last, store_rows,
}
use data_proxy_library.Partition.{
  PartitionConfig, PartitionLibrary, get_line, index_from, or_no_key, partition_index_and_count,
  sorted_data, store_table, store_lines, store_impl,
}

module _ {S : Type 0} {P : S → Type 0} (store : Params → Bytes → Exec S (Unit {0})) (key : String)
    (params : Params) (header : Bytes) (h : (p : Params) (b : Bytes) → Keeps P (store p b)) where
  flush_if_changed-Keeps :
      (row : Row) (b : Block) → Keeps P (flush_if_changed store key params header row b)
  unfolding flush_if_changed
  flush_if_changed-Keeps row b =
      elim (Bool-cases (b.started && not (row.partition_id == b.previous_id))) [
        | inl c ↦ rw c (Keeps-bind _ _ (h _ _) (λ u. Keeps-pure _))
        | inr c ↦ rw c (Keeps-pure b)
      ]

  row_loop-Keeps : (rows : List Row) (b : Block) → Keeps P (row_loop store key params header rows b)
  unfolding row_loop
  row_loop-Keeps [] b = Keeps-pure b
  row_loop-Keeps (row ∷ rows) b =
      Keeps-bind _ _ (flush_if_changed-Keeps row b) (λ b'. row_loop-Keeps rows _)

  store_last-Keeps :
      (f : Option Error) (b : Block) → Keeps P (store_last store key params header f b)
  unfolding store_last store_block
  store_last-Keeps (some e) b = Keeps-raise e
  store_last-Keeps none b = elim (Bool-cases b.started) [
    | inl c ↦ rw c (h _ _)
    | inr c ↦ rw c (Keeps-pure tt)
  ]

  pub store_rows-Keeps :
      (rows : List Row × Option Error) → Keeps P (store_rows store key params header rows)
  unfolding store_rows
  store_rows-Keeps (rows, failure) =
      Keeps-bind _ _ (row_loop-Keeps rows _) (store_last-Keeps failure)

module _ {W : Type 0} (P : Session W → Type 0) (fw : Forwarder W) (lib : PartitionLibrary W)
    (partition : PartitionConfig)
    (any_world : (s : Session W) (w : W) → P s → P (record s { world = w }))
    (stores : (n : String) (p : Params) (d : Input) → Keeps P (fw.store n p d)) where
  or_no_key-Keeps : (key : String) (o : Option ℕ) (count : ℕ) → Keeps P (or_no_key key o count)
  or_no_key-Keeps key none count = Keeps-raise (no_partition_key key)
  or_no_key-Keeps key (some i) count = Keeps-pure (i, count)

  sorted_data-Keeps : (i : ℕ) (b : Bytes) → Keeps P (sorted_data lib partition i b)
  unfolding sorted_data
  sorted_data-Keeps i b = elim (Bool-cases partition.write_skip_sort) [
    | inl k ↦ rw k (Keeps-pure b)
    | inr k ↦ rw k (
        Keeps-bind (on_world (lib.sort_by i b)) _ (record { at = λ s h. any_world s _ h })
          (λ sorted. elim (Bool-cases (nat_eq sorted.0 0)) [
            | inl z ↦ rw z (Keeps-pure sorted.1)
            | inr z ↦ rw z (Keeps-raise (sort_failed sorted.0))
          ]))
  ]

  store_table-Keeps :
      (p : Params) (lines : Bytes × Bytes) → Keeps P (store_table fw lib partition p lines)
  unfolding store_table partition_index_and_count
  store_table-Keeps p (header, rest) =
      Keeps-bind _ _
        (or_no_key-Keeps _ (index_from 0 partition.write_partition_key (lib.header_tokens header))
          _)
        (λ found. Keeps-bind _ _ (sorted_data-Keeps found.0 rest) (λ sorted.
          store_rows-Keeps _ partition.write_partition_key p header
            (λ q b. stores partition.write_route q (record { bytes = b; pos = 0 }))
            (lib.read_rows sorted found.1 found.0)))

  store_lines-Keeps :
      (p : Params) (o : Option (Bytes × Bytes)) → Keeps P (store_lines fw lib partition p o)
  unfolding store_lines
  store_lines-Keeps p none = Keeps-raise no_header
  store_lines-Keeps p (some lines) = store_table-Keeps p lines

  pub store_impl-Keeps : (p : Params) (d : Input) → Keeps P (store_impl fw lib partition p d)
  unfolding store_impl
  store_impl-Keeps p d = store_lines-Keeps p (get_line (unread d))
