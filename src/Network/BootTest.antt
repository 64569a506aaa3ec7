-- ===== src/Network/BootTest.antt =====
-- kernel/src/network.cpp: every self-test of the start passes.
use uefi_boot_system.Prelude.{◌≡◌, refl, true, ◌∷◌, replicate}
use uefi_boot_system.Prelude.Table.{find_first}
use uefi_boot_system.Network.{
  bytes_equal, build_ethernet_frame, build_arp_request, build_ip_packet, build_udp_datagram,
  build_tcp_syn, build_icmp_echo, build_dhcp_discover, build_dns_query, build_http_request,
  build_https_client_hello, build_tls_client_hello, build_web_socket_handshake, build_mdns_query,
  build_ntp_client_request,
}
use uefi_boot_system.Network.Checksum.{sum_words, fold_carries, ipv4_checksum}
use uefi_boot_system.Network.Sockets.{
  udp_socket, tcp_socket, closed, reset_table, socket_open, socket_connect, socket_close,
}
use uefi_boot_system.Network.SelfTest.{
  run_ethernet_self_test, run_arp_self_test, run_ipv4_self_test, run_icmp_self_test,
  run_udp_self_test, run_tcp_self_test, run_dhcp_self_test, run_dns_self_test, run_http_self_test,
  run_https_self_test, run_socket_api_self_test, run_ipv6_self_test, run_tls_self_test,
  run_web_socket_self_test, run_mdns_self_test, run_ntp_self_test,
}
use uefi_boot_system.Network.Boot.{Network, reset_network_status, kernel_network_init}

-- Two sockets were open.
abbrev before : Network
before = record {
  ready = replicate 16 true;
  table = record {
    sockets =
        record closed { id = 38; kind = udp_socket; local_port = 49152; is_open = true }
        ∷ record closed { id = 39; kind = tcp_socket; local_port = 80; is_open = true }
        ∷ replicate 14 closed;
    socket_count = 2;
    next_socket_id = 40;
  };
}

network_starts : (kernel_network_init before).0 ≡ true
unfolding kernel_network_init reset_network_status reset_table bytes_equal build_ethernet_frame
    build_arp_request build_ip_packet build_udp_datagram build_tcp_syn build_icmp_echo
    build_dhcp_discover build_dns_query build_http_request build_https_client_hello
    build_tls_client_hello build_web_socket_handshake build_mdns_query build_ntp_client_request
    sum_words fold_carries ipv4_checksum socket_open socket_connect socket_close
    run_ethernet_self_test run_arp_self_test run_ipv4_self_test run_icmp_self_test run_udp_self_test
    run_tcp_self_test run_dhcp_self_test run_dns_self_test run_http_self_test run_https_self_test
    run_socket_api_self_test run_ipv6_self_test run_tls_self_test run_web_socket_self_test
    run_mdns_self_test run_ntp_self_test find_first
network_starts = refl
