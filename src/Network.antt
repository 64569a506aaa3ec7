-- ===== src/Network.antt =====
-- kernel/src/network.cpp: addresses, packet builders, the checksum and the socket table.
pub mod Sockets
pub mod Checksum
pub mod SelfTest
pub mod Boot
mod BootTest
pub mod Tests
use uefi_boot_system.Prelude.{
  ℕ, zero, suc, ◌+◌, ◌%◌, Bool, true, false, not, ◌&&◌, ◌||◌, List, [], ◌∷◌, Option, none, some,
  if◌then◌else◌, ◌==◌, replicate, get_or, length,
}
use uefi_boot_system.Prelude.Text.{Text, text}

pub data EtherType : Type 0 where
  arp_type ipv4_type ipv6_type : EtherType

abbrev pub ether_value : EtherType → ℕ
ether_value arp_type = 0x0806
ether_value ipv4_type = 0x0800
ether_value ipv6_type = 0x86DD

pub data IpProtocol : Type 0 where
  icmp tcp udp icmpv6 : IpProtocol

abbrev pub protocol_value : IpProtocol → ℕ
protocol_value icmp = 1
protocol_value tcp = 6
protocol_value udp = 17
protocol_value icmpv6 = 58

-- A payload pointer that is not null, with the size that the caller passes.
pub record EthernetFrame : Type 0 where
  pub destination : List ℕ
  pub source : List ℕ
  pub kind : EtherType
  pub payload : List ℕ
  pub payload_size : ℕ

pub record ArpPacket : Type 0 where
  pub sender_mac : List ℕ
  pub sender_ip : List ℕ
  pub target_mac : List ℕ
  pub target_ip : List ℕ
  pub operation : ℕ

-- `Ipv4Packet` and `Ipv6Packet`; `hop_limit` is also the former's `ttl`.
pub record IpPacket : Type 0 where
  pub source : List ℕ
  pub destination : List ℕ
  pub protocol : IpProtocol
  pub payload : List ℕ
  pub payload_size : ℕ
  pub hop_limit : ℕ

pub record UdpDatagram : Type 0 where
  pub source_port : ℕ
  pub destination_port : ℕ
  pub payload : List ℕ
  pub payload_size : ℕ

pub record TcpSegment : Type 0 where
  pub source_port : ℕ
  pub destination_port : ℕ
  pub sequence : ℕ
  pub acknowledgement : ℕ
  pub flags : ℕ

pub record TlsClientHello : Type 0 where
  pub version : ℕ
  pub content_type : ℕ
  pub cipher_suite : ℕ
  pub random : List ℕ

pub record WebSocketHandshake : Type 0 where
  pub method : Text
  pub path : Text
  pub upgrade : Text
  pub connection : Text
  pub key : Text

-- `MacEquals`, `Ipv4Equals` and `Ipv6Equals`: the loop over `count` bytes.
unfoldable pub bytes_equal : ℕ → List ℕ → List ℕ → Bool
bytes_equal zero lhs rhs = true
bytes_equal (suc count) (x ∷ xs) (y ∷ ys) = if x == y then bytes_equal count xs ys else false
bytes_equal (suc count) [] rhs = false
bytes_equal (suc count) (x ∷ xs) [] = false

-- A builder that answers false is `none`.
unfoldable pub build_ethernet_frame :
    List ℕ → List ℕ → EtherType → Option (List ℕ) → ℕ → Option EthernetFrame
build_ethernet_frame source destination kind none payload_size = none
build_ethernet_frame source destination kind (some payload) payload_size =
    if payload_size == 0
    then none
    else some (record {
      destination = destination;
      source = source;
      kind = kind;
      payload = payload;
      payload_size = payload_size;
    })

unfoldable pub build_arp_request : List ℕ → List ℕ → List ℕ → Option ArpPacket
build_arp_request local_mac local_ip target_ip = some (record {
  sender_mac = local_mac;
  sender_ip = local_ip;
  target_mac = replicate 6 0;
  target_ip = target_ip;
  operation = 1;
})

-- `BuildIpv4Packet` and `BuildIpv6Packet`.
unfoldable pub build_ip_packet :
    List ℕ → List ℕ → IpProtocol → Option (List ℕ) → ℕ → Option IpPacket
build_ip_packet source destination protocol none payload_size = none
build_ip_packet source destination protocol (some payload) payload_size =
    if payload_size == 0
    then none
    else some (record {
      source = source;
      destination = destination;
      protocol = protocol;
      payload = payload;
      payload_size = payload_size;
      hop_limit = 64;
    })

unfoldable pub build_udp_datagram : ℕ → ℕ → Option (List ℕ) → ℕ → Option UdpDatagram
build_udp_datagram source_port destination_port none payload_size = none
build_udp_datagram source_port destination_port (some payload) payload_size =
    if source_port == 0 || destination_port == 0
    then none
    else some (record {
      source_port = source_port;
      destination_port = destination_port;
      payload = payload;
      payload_size = payload_size;
    })

unfoldable pub build_tcp_syn : ℕ → ℕ → Option TcpSegment
build_tcp_syn source_port destination_port =
    if source_port == 0 || destination_port == 0
    then none
    else some (record {
      source_port = source_port;
      destination_port = destination_port;
      sequence = 1;
      acknowledgement = 0;
      flags = 2;
    })

unfoldable pub build_icmp_echo : Option (List ℕ) → ℕ → Bool
build_icmp_echo none payload_size = false
build_icmp_echo (some payload) payload_size = not (payload_size == 0)

unfoldable pub build_dhcp_discover : Option UdpDatagram
build_dhcp_discover = build_udp_datagram 68 67 (some (0x35 ∷ 1 ∷ 1 ∷ 0xFF ∷ [])) 4

unfoldable pub build_dns_query : Option UdpDatagram
build_dns_query =
    build_udp_datagram 49152 53 (some (0x12 ∷ 0x34 ∷ 1 ∷ 0 ∷ 0 ∷ 1 ∷ replicate 6 0)) 12

unfoldable pub build_http_request : Option UdpDatagram
build_http_request =
    build_udp_datagram 49153 80 (some (text "GET / HTTP/1.1")) (length (text "GET / HTTP/1.1"))

unfoldable pub build_https_client_hello : Option TcpSegment
build_https_client_hello = build_tcp_syn 49154 443

abbrev count_up : ℕ → ℕ → List ℕ
count_up from zero = []
count_up from (suc n) = from % 256 ∷ count_up (from + 1) n

unfoldable pub build_tls_client_hello : Option TlsClientHello
build_tls_client_hello = some (record {
  version = 0x0303;
  content_type = 0x16;
  cipher_suite = 0x1301;
  random = count_up 0xA0 32;
})

unfoldable pub build_web_socket_handshake : Option Text → Option WebSocketHandshake
build_web_socket_handshake none = none
build_web_socket_handshake (some path) =
    if get_or path 0 0 == b'/'
    then some (record {
      method = text "GET";
      path = path;
      upgrade = text "websocket";
      connection = text "Upgrade";
      key = text "dGhlIHNhbXBsZSBub25jZQ==";
    })
    else none

unfoldable pub build_mdns_query : Option UdpDatagram
build_mdns_query =
    build_udp_datagram 5353 5353
      (some (
        0 ∷ 0 ∷ 0 ∷ 0 ∷ 0 ∷ 1 ∷ 0 ∷ 0 ∷ 0 ∷ 0 ∷ 0 ∷ 0 ∷ 5 ∷ 108 ∷ 111 ∷ 99 ∷ 97 ∷ 108 ∷ 0 ∷ 0 ∷ 0x0C
        ∷ 0 ∷ 1 ∷ []))
      23

unfoldable pub build_ntp_client_request : Option UdpDatagram
build_ntp_client_request = build_udp_datagram 49155 123 (some (0x23 ∷ replicate 47 0)) 48
