-- ===== src/Network/SelfTest.antt =====
-- kernel/src/network.cpp: the self-tests.
use uefi_boot_system.Prelude.{
  ℕ, Bool, false, not, ◌&&◌, List, [], ◌∷◌, Option, none, some, ltb, ◌==◌, get_or, replicate,
  bit_and,
}
use uefi_boot_system.Prelude.Text.{text}
use uefi_boot_system.Network.{
  ipv4_type, ipv6_type, ether_value, icmp, icmpv6, protocol_value, bytes_equal,
  build_ethernet_frame, build_arp_request, build_ip_packet, build_udp_datagram, build_tcp_syn,
  build_icmp_echo, build_dhcp_discover, build_dns_query, build_http_request,
  build_https_client_hello, build_tls_client_hello, build_web_socket_handshake, build_mdns_query,
  build_ntp_client_request,
}
use uefi_boot_system.Network.Checksum.{ipv4_checksum}
use uefi_boot_system.Network.Sockets.{
  Sockets, udp_socket, tcp_socket, socket_open, socket_connect, socket_close,
}

-- The builder answered true, and the test holds of what it wrote.
abbrev holds : {A : Type 0} → Option A → (A → Bool) → Bool
holds none test = false
holds (some a) test = test a

abbrev local_mac : List ℕ
local_mac = 0x52 ∷ 0x54 ∷ 0 ∷ 0x12 ∷ 0x34 ∷ 0x56 ∷ []

abbrev broadcast : List ℕ
broadcast = replicate 6 0xFF

abbrev local_ip : List ℕ
local_ip = 10 ∷ 0 ∷ 2 ∷ 15 ∷ []

unfoldable pub run_ethernet_self_test : Bool
run_ethernet_self_test =
    holds (build_ethernet_frame local_mac broadcast ipv4_type (some (1 ∷ 2 ∷ 3 ∷ 4 ∷ [])) 4)
      (λ frame.
        bytes_equal 6 frame.source local_mac
        && bytes_equal 6 frame.destination broadcast
        && ether_value frame.kind == ether_value ipv4_type)

unfoldable pub run_arp_self_test : Bool
run_arp_self_test =
    let target_ip = 10 ∷ 0 ∷ 2 ∷ 2 ∷ [] in
    holds (build_arp_request local_mac local_ip target_ip) (λ packet.
      packet.operation == 1
      && bytes_equal 6 packet.sender_mac local_mac
      && bytes_equal 4 packet.target_ip target_ip)

unfoldable pub run_ipv4_self_test : Bool
run_ipv4_self_test =
    let destination = 1 ∷ 1 ∷ 1 ∷ 1 ∷ [] in
    let header =
      0x45 ∷ 0 ∷ 0 ∷ 0x18 ∷ 0 ∷ 1 ∷ 0 ∷ 0 ∷ 0x40 ∷ 1 ∷ 0 ∷ 0 ∷ 10 ∷ 0 ∷ 2 ∷ 15 ∷ 1 ∷ 1 ∷ 1 ∷ 1
      ∷ [] in
    holds (build_ip_packet local_ip destination icmp (some (8 ∷ 0 ∷ 0 ∷ 0 ∷ [])) 4) (λ packet.
      packet.hop_limit == 64
      && not (ipv4_checksum header == 0)
      && bytes_equal 4 packet.destination destination)

unfoldable pub run_icmp_self_test : Bool
run_icmp_self_test = build_icmp_echo (some (8 ∷ 0 ∷ 0 ∷ 0 ∷ 0x12 ∷ 0x34 ∷ 0 ∷ 1 ∷ [])) 8

unfoldable pub run_udp_self_test : Bool
run_udp_self_test =
    holds (build_udp_datagram 49152 53 (some (text "dns")) 3)
      (λ datagram. datagram.destination_port == 53 && datagram.payload_size == 3)

unfoldable pub run_tcp_self_test : Bool
run_tcp_self_test =
    holds (build_tcp_syn 49152 80) (λ segment. segment.flags == 2 && bit_and segment.flags 16 == 0)

unfoldable pub run_dhcp_self_test : Bool
run_dhcp_self_test =
    holds build_dhcp_discover
      (λ datagram. datagram.source_port == 68 && datagram.destination_port == 67)

unfoldable pub run_dns_self_test : Bool
run_dns_self_test =
    holds build_dns_query
      (λ datagram. datagram.destination_port == 53 && datagram.payload_size == 12)

unfoldable pub run_http_self_test : Bool
run_http_self_test =
    holds build_http_request
      (λ placeholder. placeholder.destination_port == 80 && ltb 0 placeholder.payload_size)

unfoldable pub run_https_self_test : Bool
run_https_self_test =
    holds build_https_client_hello
      (λ segment. segment.destination_port == 443 && segment.flags == 2)

-- Both sockets are opened before either is looked at.
unfoldable pub run_socket_api_self_test : Sockets → Bool × Sockets
run_socket_api_self_test s =
    let (udp, s1) = socket_open udp_socket 49152 s in
    let (tcp, s2) = socket_open tcp_socket 49153 s1 in
    elim udp [
      | none ↦ (false, s2)
      | some u ↦ elim tcp [
        | none ↦ (false, s2)
        | some t ↦
            let (connected, s3) = socket_connect t 80 s2 in
            let (closed_udp, s4) = socket_close u s3 in
            let (closed_tcp, s5) = socket_close t s4 in
            (connected && closed_udp && closed_tcp && s5.socket_count == 0, s5)
      ]
    ]

unfoldable pub run_ipv6_self_test : Bool
run_ipv6_self_test =
    let source = 0x20 ∷ 1 ∷ 0x0D ∷ 0xB8 ∷ 0 ∷ 0 ∷ 0 ∷ 0 ∷ 0 ∷ 0 ∷ 0 ∷ 0 ∷ 0 ∷ 0 ∷ 0 ∷ 1 ∷ [] in
    let destination = 0x20 ∷ 1 ∷ 0x0D ∷ 0xB8 ∷ 0 ∷ 0 ∷ 0 ∷ 0 ∷ 0 ∷ 0 ∷ 0 ∷ 0 ∷ 0 ∷ 0 ∷ 0 ∷ 2 ∷ [] in
    let payload = 128 ∷ 0 ∷ 0 ∷ 0 ∷ 0x12 ∷ 0x34 ∷ 0 ∷ 1 ∷ [] in
    let router = 0x52 ∷ 0x54 ∷ 0 ∷ 0x65 ∷ 0x43 ∷ 0x21 ∷ [] in
    holds (build_ip_packet source destination icmpv6 (some payload) 8) (λ packet.
      holds (build_ethernet_frame local_mac router ipv6_type (some payload) 8) (λ frame.
        packet.hop_limit == 64
        && protocol_value packet.protocol == protocol_value icmpv6
        && ether_value frame.kind == ether_value ipv6_type
        && bytes_equal 16 packet.destination destination))

unfoldable pub run_tls_self_test : Bool
run_tls_self_test = holds build_tls_client_hello (λ hello.
    hello.version == 0x0303
    && hello.content_type == 0x16
    && hello.cipher_suite == 0x1301
    && get_or hello.random 0 0 == 0xA0
    && get_or hello.random 31 0 == 0xBF)

unfoldable pub run_web_socket_self_test : Bool
run_web_socket_self_test = holds (build_web_socket_handshake (some (text "/ws"))) (λ handshake.
    get_or handshake.method 0 0 == b'G'
    && get_or handshake.path 0 0 == b'/'
    && get_or handshake.upgrade 0 0 == b'w'
    && get_or handshake.connection 0 0 == b'U'
    && get_or handshake.key 0 0 == b'd')

unfoldable pub run_mdns_self_test : Bool
run_mdns_self_test = holds build_mdns_query (λ datagram.
    datagram.source_port == 5353
    && datagram.destination_port == 5353
    && ltb 12 datagram.payload_size)

unfoldable pub run_ntp_self_test : Bool
run_ntp_self_test = holds build_ntp_client_request (λ datagram.
    datagram.destination_port == 123
    && datagram.payload_size == 48
    && get_or datagram.payload 0 0 == 0x23)
