-- ===== src/Partition/Returns.antt =====
-- A partitioned store comes back if the sort and the stores of its blocks do.
use data_proxy_library.Common.{
  ℕ, String, ◌&&◌, not, none, some, inl, inr, List, [], ◌∷◌, ◌==◌, Bool-cases, nat_eq, Option,
}
use data_proxy_library.Common.Exec.{no_header, no_partition_key, sort_failed, Error, Exec}
use data_proxy_library.Common.Exec.Rules.{Returns, Returns-pure, Returns-raise, Returns-bind}
use data_proxy_library.Request.{Params, Bytes, Input, unread, Session, Forwarder, on_world}
use data_proxy_library.Partition.Blocks.{
  Row, Block, store_block, flush_if_changed, row_loop, store_last, store_rows,
}
use data_proxy_library.Partition.{
  PartitionConfig, PartitionLibrary, get_line, index_from, or_no_key, partition_index_and_count,
  sorted_data, store_table, store_lines, store_impl,
}

module _ {S : Type 0} (store : Params → Bytes → Exec S (Unit {0})) (key : String) (params : Params)
    (header : Bytes) (h : (p : Params) (b : Bytes) → Returns (store p b)) where
  flush_if_changed-Returns :
      (row : Row) (b : Block) → Returns (flush_if_changed store key params header row b)
  unfolding flush_if_changed
  flush_if_changed-Returns row b =
      elim (Bool-cases (b.started && not (row.partition_id == b.previous_id))) [
        | inl c ↦ rw c (Returns-bind _ _ (h _ _) (λ u. Returns-pure _))
        | inr c ↦ rw c (Returns-pure b)
      ]

  row_loop-Returns :
      (rows : List Row) (b : Block) → Returns (row_loop store key params header rows b)
  unfolding row_loop
  row_loop-Returns [] b = Returns-pure b
  row_loop-Returns (row ∷ rows) b =
      Returns-bind _ _ (flush_if_changed-Returns row b) (λ b'. row_loop-Returns rows _)

  store_last-Returns :
      (f : Option Error) (b : Block) → Returns (store_last store key params header f b)
  unfolding store_last store_block
  store_last-Returns (some e) b = Returns-raise e
  store_last-Returns none b = elim (Bool-cases b.started) [
    | inl c ↦ rw c (h _ _)
    | inr c ↦ rw c (Returns-pure tt)
  ]

  pub store_rows-Returns :
      (rows : List Row × Option Error) → Returns (store_rows store key params header rows)
  unfolding store_rows
  store_rows-Returns (rows, failure) =
      Returns-bind _ _ (row_loop-Returns rows _) (store_last-Returns failure)

module _ {W : Type 0} (fw : Forwarder W) (lib : PartitionLibrary W) (partition : PartitionConfig)
    (sorts : (i : ℕ) (b : Bytes) → Returns (lib.sort_by i b))
    (stores : (p : Params) (d : Input) → Returns (fw.store partition.write_route p d)) where
  or_no_key-Returns :
      (key : String) (o : Option ℕ) (count : ℕ) → Returns {S = Session W} (or_no_key key o count)
  or_no_key-Returns key none count = Returns-raise (no_partition_key key)
  or_no_key-Returns key (some i) count = Returns-pure (i, count)

  sorted_data-Returns : (i : ℕ) (b : Bytes) → Returns (sorted_data lib partition i b)
  unfolding sorted_data
  sorted_data-Returns i b = elim (Bool-cases partition.write_skip_sort) [
    | inl k ↦ rw k (Returns-pure b)
    | inr k ↦ rw k (
        Returns-bind (on_world (lib.sort_by i b)) _ (record { at = λ s. (sorts i b).at s.world })
          (λ sorted. elim (Bool-cases (nat_eq sorted.0 0)) [
            | inl z ↦ rw z (Returns-pure sorted.1)
            | inr z ↦ rw z (Returns-raise (sort_failed sorted.0))
          ]))
  ]

  store_table-Returns :
      (p : Params) (lines : Bytes × Bytes) → Returns (store_table fw lib partition p lines)
  unfolding store_table partition_index_and_count
  store_table-Returns p (header, rest) =
      Returns-bind _ _
        (or_no_key-Returns _ (index_from 0 partition.write_partition_key (lib.header_tokens header))
          _)
        (λ found. Returns-bind _ _ (sorted_data-Returns found.0 rest) (λ sorted.
          store_rows-Returns _ partition.write_partition_key p header
            (λ q b. stores q (record { bytes = b; pos = 0 }))
            (lib.read_rows sorted found.1 found.0)))

  store_lines-Returns :
      (p : Params) (o : Option (Bytes × Bytes)) → Returns (store_lines fw lib partition p o)
  unfolding store_lines
  store_lines-Returns p none = Returns-raise no_header
  store_lines-Returns p (some lines) = store_table-Returns p lines

  pub store_impl-Returns : (p : Params) (d : Input) → Returns (store_impl fw lib partition p d)
  unfolding store_impl
  store_impl-Returns p d = store_lines-Returns p (get_line (unread d))
