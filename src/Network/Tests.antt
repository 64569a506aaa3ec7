-- ===== src/Network/Tests.antt =====
-- The network theorems at concrete inputs.
use uefi_boot_system.Prelude.{ℕ, ◌+◌, ◌%◌, ◌^◌, ◌<◌, ◌≤◌, ◌≡◌, List, [], ◌∷◌, arith}
use uefi_boot_system.Network.Checksum.{Bytes, word_sum, ipv4_checksum, ipv4_checksum-word_sum}
use uefi_boot_system.Network.Sockets.{
  Operation, opens, connects, closes, udp_socket, tcp_socket, max_sockets, reset_sockets, IsCounted,
  run, run-IsCounted,
}

abbrev header : List ℕ
header = 0x45 ∷ 0 ∷ 0 ∷ 0x18 ∷ 0xFF ∷ 0xFE ∷ 7 ∷ []

header-Bytes : Bytes header
header-Bytes = (
  omega arith,
  (omega arith, (omega arith, (omega arith, (omega arith, (omega arith, (omega arith, tt)))))),
)

ipv4_checksum-word_sum_example :
    (ipv4_checksum header < 2 ^ 16) × ((word_sum header + ipv4_checksum header) % 65535 ≡ 0)
ipv4_checksum-word_sum_example = ipv4_checksum-word_sum header header-Bytes (omega arith)

abbrev operations : List Operation
operations =
    opens udp_socket 49152 ∷ opens tcp_socket 49153 ∷ connects 1 80 ∷ closes 0 ∷ closes 0 ∷ []

run-IsCounted_example :
    IsCounted (run operations reset_sockets)
    × ((run operations reset_sockets).socket_count ≤ max_sockets)
run-IsCounted_example = run-IsCounted operations
