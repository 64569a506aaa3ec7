-- ===== src/Network/Boot.antt =====
-- kernel/src/network.cpp: `KernelNetworkInit`.
use uefi_boot_system.Prelude.{Bool, true, false, replicate, ◌&&◌, List, [], ◌∷◌}
use uefi_boot_system.Network.Sockets.{Sockets, reset_table}
use uefi_boot_system.Network.SelfTest.{
  run_ethernet_self_test, run_arp_self_test, run_ipv4_self_test, run_icmp_self_test,
  run_udp_self_test, run_tcp_self_test, run_dhcp_self_test, run_dns_self_test, run_http_self_test,
  run_https_self_test, run_socket_api_self_test, run_ipv6_self_test, run_tls_self_test,
  run_web_socket_self_test, run_mdns_self_test, run_ntp_self_test,
}

-- The flags of the status in the order of the self-tests, and the sockets with their count.
pub record Network : Type 0 where
  pub ready : List Bool
  pub table : Sockets

abbrev all_true : List Bool → Bool
all_true [] = true
all_true (b ∷ bs) = b && all_true bs

unfoldable pub reset_network_status : Network → Network
reset_network_status before = record {
  ready = replicate 16 false;
  table = reset_table before.table;
}

unfoldable pub kernel_network_init : Network → Bool × Network
kernel_network_init before =
    let reset = reset_network_status before in
    let (socket_api, table) = run_socket_api_self_test reset.table in
    let ready =
      run_ethernet_self_test ∷ run_arp_self_test ∷ run_ipv4_self_test ∷ run_icmp_self_test
      ∷ run_udp_self_test ∷ run_tcp_self_test ∷ run_dhcp_self_test ∷ run_dns_self_test
      ∷ run_http_self_test ∷ run_https_self_test ∷ socket_api ∷ run_ipv6_self_test
      ∷ run_tls_self_test ∷ run_web_socket_self_test ∷ run_mdns_self_test ∷ run_ntp_self_test
      ∷ [] in
    (all_true ready, record { ready = ready; table = table })
