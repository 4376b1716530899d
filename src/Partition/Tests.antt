-- ===== src/Partition/Tests.antt =====
-- The store of a small table whose rows have the partition values x, x and y.
use data_proxy_library.Common.{String, ◌≡◌, refl, Option, some, none, List, [], ◌∷◌, ◌++◌}
use data_proxy_library.Common.Dict.{find, put}
use data_proxy_library.Common.Exec.{ok, Exec}
use data_proxy_library.Request.{Params, Bytes}
use data_proxy_library.Partition.Blocks.{Row, store_rows}
use data_proxy_library.Partition.Groups.{Group, store_groups}
use data_proxy_library.Partition.Runs.{IsRuns, store_rows-Runs}

-- Each store logs the partition value and the bytes.
abbrev store : Params → Bytes → Exec (List (Option String × Bytes)) (Unit {0})
store params bytes log = (ok tt, log ++ (find "key" params, bytes) ∷ [])

abbrev rows : List Row
rows =
    record { partition_id = "x"; line = 1 ∷ [] }
    ∷ record { partition_id = "x"; line = 2 ∷ [] }
    ∷ record { partition_id = "y"; line = 3 ∷ [] }
    ∷ []

store_rows-Runs_example :
    (gs : List Group) × IsRuns rows gs
    × (store_rows store "key" [] (9 ∷ []) (rows, none) ≡ store_groups store "key" [] (9 ∷ []) gs)
store_rows-Runs_example = store_rows-Runs store "key" [] (9 ∷ []) rows

-- The bytes of the two stores.
stored :
    store_rows store "key" [] (9 ∷ []) (rows, none) []
    ≡ (ok tt, (some "x", 9 ∷ 10 ∷ 1 ∷ 10 ∷ 2 ∷ 10 ∷ []) ∷ (some "y", 9 ∷ 10 ∷ 3 ∷ 10 ∷ []) ∷ [])
unfolding store_rows put find
stored = refl
