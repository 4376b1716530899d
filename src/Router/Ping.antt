-- ===== src/Router/Ping.antt =====
-- The modes of a ping (namespace DPL of DPLCommon.hpp), and a ping of several destinations.
use Prim.Native.Nat.{◌/◌}
use data_proxy_library.Common.{ℕ, ◌%◌, String, Bool, List, [], ◌∷◌, nat_eq}
use data_proxy_library.Common.Exec.{Exec, pure, ◌>>◌}

abbrev pub read_mode : ℕ
read_mode = 1

abbrev pub write_mode : ℕ
write_mode = 2

abbrev pub delete_mode : ℕ
delete_mode = 4

-- `mode & flag`, for a flag of one bit.
abbrev pub has_flag : ℕ → ℕ → Bool
has_flag mode flag = nat_eq ((mode / flag) % 2) 1

unfoldable pub ping_all :
    {S : Type 0} → (String → Exec S (Unit {0})) → List String → Exec S (Unit {0})
ping_all ping [] = pure tt
ping_all ping (n ∷ ns) = ping n >> ping_all ping ns
