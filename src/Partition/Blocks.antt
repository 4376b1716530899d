-- ===== src/Partition/Blocks.antt =====
-- The loop of PartitionNode::StoreImpl over the rows of the sorted stream.
use data_proxy_library.Common.{
  String, Bool, true, false, ◌&&◌, not, Option, none, some, List, [], ◌∷◌, ◌++◌, ◌==◌,
  if◌then◌else◌,
}
use data_proxy_library.Common.Dict.{put}
use data_proxy_library.Common.Exec.{Error, Exec, pure, raise, ◌>>=◌, ◌>>◌}
use data_proxy_library.Request.{Params, Bytes}

-- A row that CSVReader has read: the value of the bound column, and the whole line.
pub record Row : Type 0 where
  pub partition_id : String
  pub line : Bytes

-- The locals of the loop.
pub record Block : Type 0 where
  pub started : Bool
  pub previous_id : String
  pub text : Bytes

-- `stream << line << std::endl`
abbrev pub add_line : Bytes → Bytes → Bytes
add_line text line = text ++ (line ++ b'\n' ∷ [])

abbrev pub with_header : Bytes → Block
with_header header = record { started = false; previous_id = ""; text = add_line [] header }

module _ {S : Type 0} (store : Params → Bytes → Exec S (Unit {0})) (key : String) (params : Params)
    (header : Bytes) where
  unfoldable pub store_block : Block → Exec S (Unit {0})
  store_block b = store (put key b.previous_id params) b.text

  unfoldable pub flush_if_changed : Row → Block → Exec S Block
  unfolding store_block
  flush_if_changed row b =
      if b.started && not (row.partition_id == b.previous_id)
      then store_block b >> pure (record b { text = add_line [] header })
      else pure b

  unfoldable pub row_loop : List Row → Block → Exec S Block
  unfolding flush_if_changed
  row_loop [] b = pure b
  row_loop (row ∷ rows) b = flush_if_changed row b >>= λ b'.
      row_loop rows (record {
        started = true;
        previous_id = row.partition_id;
        text = add_line b'.text row.line;
      })

  unfoldable pub store_last : Option Error → Block → Exec S (Unit {0})
  unfolding store_block
  store_last (some e) b = raise e
  store_last none b = if b.started then store_block b else pure tt

  unfoldable pub store_rows : List Row × Option Error → Exec S (Unit {0})
  unfolding row_loop store_last
  store_rows (rows, failure) = row_loop rows (with_header header) >>= store_last failure
