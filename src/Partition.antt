-- ===== src/Partition.antt =====
-- PartitionNode.cpp: a store is cut into blocks of rows with one value of the partition key, and
-- each block is stored under that value.
pub mod Blocks
pub mod Groups
pub mod Runs
pub mod Tests
pub mod Returns
pub mod Keeps
use Prim.Native.Nat.{◌/◌}
use data_proxy_library.Common.{
  ℕ, zero, suc, ◌+◌, String, Bool, true, false, Option, none, some, List, [], ◌∷◌, ◌++◌, length,
  is_empty, drop, nat_eq, ◌==◌, if◌then◌else◌,
}
use data_proxy_library.Common.Dict.{insert}
use data_proxy_library.Common.Exec.{
  Error, not_supported, no_header, no_partition_key, sort_failed, Result, ok, err, Exec, pure,
  raise, ◌>>=◌, ◌>>◌,
}
use data_proxy_library.Request.{
  Params, Bytes, Input, unread, Session, Loading, Forwarder, on_world, insert_forward, on_route,
}
use Blocks.{Row, store_rows}

pub record PartitionConfig : Type 0 where
  pub read_route : Option String
  pub write_route : String
  pub delete_route : Option String
  pub write_partition_key : String
  pub write_skip_sort : Bool

-- What PartitionNode calls: boost::iter_split of a header, the shell's sort by a column (its
-- status and standard output, or what ShellExecutor throws), and CSVReader: the rows that it gives
-- for a number of columns and a bound column, and what it throws behind them, if it does.
pub record PartitionLibrary (W : Type 0) : Type 0 where
  pub header_tokens : Bytes → List String
  pub sort_by : ℕ → Bytes → Exec W (ℕ × Bytes)
  pub read_rows : Bytes → ℕ → ℕ → List Row × Option Error

-- std::getline: the first line, and what is behind its newline.
unfoldable pub get_line : Bytes → Option (Bytes × Bytes)
get_line [] = none
get_line (c ∷ cs) = if nat_eq c 10 then some ([], cs) else (elim (get_line cs) [
  | none ↦ some (c ∷ [], [])
  | some (line, rest) ↦ some (c ∷ line, rest)
])

unfoldable pub index_from : ℕ → String → List String → Option ℕ
index_from i key [] = none
index_from i key (t ∷ ts) = if t == key then some i else index_from (suc i) key ts

-- GetPartitionKeyIndexAndCount
abbrev pub or_no_key : {S : Type 0} → String → Option ℕ → ℕ → Exec S (ℕ × ℕ)
or_no_key key none count = raise (no_partition_key key)
or_no_key key (some i) count = pure (i, count)

unfoldable pub partition_index_and_count : {S : Type 0} → String → List String → Exec S (ℕ × ℕ)
unfolding index_from
partition_index_and_count key tokens = or_no_key key (index_from 0 key tokens) (length tokens)

module _ {W : Type 0} where
  unfoldable pub load_impl :
      Forwarder W → String → PartitionConfig → Params → Exec (Loading W) (Unit {0})
  load_impl fw name partition params =
      on_route (raise (not_supported name)) (λ n. fw.load n params) partition.read_route

  -- The rows behind the header, sorted by the partition column unless that is skipped.
  unfoldable pub sorted_data :
      PartitionLibrary W → PartitionConfig → ℕ → Bytes → Exec (Session W) Bytes
  sorted_data lib partition index rest =
      if partition.write_skip_sort
      then pure rest
      else (on_world (lib.sort_by index rest) >>= λ sorted.
          if nat_eq sorted.0 0 then pure sorted.1 else raise (sort_failed sorted.0))

  unfoldable pub store_table :
      Forwarder W
      → PartitionLibrary W
      → PartitionConfig
      → Params
      → Bytes × Bytes
      → Exec (Session W) (Unit {0})
  unfolding partition_index_and_count sorted_data store_rows
  store_table fw lib partition params (header, rest) =
      partition_index_and_count partition.write_partition_key (lib.header_tokens header)
      >>= λ found. sorted_data lib partition found.0 rest >>= λ sorted.
          store_rows (λ p b. fw.store partition.write_route p (record { bytes = b; pos = 0 }))
            partition.write_partition_key params header (lib.read_rows sorted found.1 found.0)

  unfoldable pub store_lines :
      Forwarder W
      → PartitionLibrary W
      → PartitionConfig
      → Params
      → Option (Bytes × Bytes)
      → Exec (Session W) (Unit {0})
  unfolding store_table
  store_lines fw lib partition params none = raise no_header
  store_lines fw lib partition params (some lines) = store_table fw lib partition params lines

  unfoldable pub store_impl :
      Forwarder W
      → PartitionLibrary W
      → PartitionConfig
      → Params
      → Input
      → Exec (Session W) (Unit {0})
  unfolding get_line store_lines
  store_impl fw lib partition params data_in =
      store_lines fw lib partition params (get_line (unread data_in))

  unfoldable pub delete_impl :
      Forwarder W → String → PartitionConfig → Params → Exec (Session W) (Unit {0})
  delete_impl fw name partition params =
      on_route (raise (not_supported name)) (λ n. fw.delete n params) partition.delete_route

unfoldable pub insert_impl_read_forwards : PartitionConfig → List String → List String
insert_impl_read_forwards partition forwards = insert_forward partition.read_route forwards

unfoldable pub insert_impl_write_forwards : PartitionConfig → List String → List String
insert_impl_write_forwards partition forwards = insert partition.write_route forwards

unfoldable pub insert_impl_delete_forwards : PartitionConfig → List String → List String
insert_impl_delete_forwards partition forwards = insert_forward partition.delete_route forwards
