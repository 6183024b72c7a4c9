-- ===== src/Address/Types.antt =====
-- `Address` and `NetLocation` of `src/address.rs`. A Rust `String` is its bytes.
use shoes_on_shuttle.Common.{ℕ, Bytes, Bool, true, false, ◌&&◌, ◌==◌, Option, none, some}
use shoes_on_shuttle.Net.Types.{Ipv4Addr, Ipv6Addr, ipv4_eq}

pub data Address : Type 0 where
  ipv4 : Ipv4Addr → Address
  ipv6 : Ipv6Addr → Address
  hostname : Bytes → Address

pub record NetLocation : Type 0 where
  pub address : Address
  pub port : ℕ

-- `SocketAddr`: an IP address and a port.
pub data IpAddr : Type 0 where
  v4 : Ipv4Addr → IpAddr
  v6 : Ipv6Addr → IpAddr

pub record SocketAddr : Type 0 where
  pub ip : IpAddr
  pub port : ℕ

abbrev pub unspecified_address : Address
unspecified_address = ipv4 (record { a = 0; b = 0; c = 0; d = 0 })

abbrev pub unspecified : NetLocation
unspecified = record { address = unspecified_address; port = 0 }

abbrev pub is_ipv6 : Address → Bool
is_ipv6 (ipv6 i) = true
is_ipv6 _ = false

abbrev pub is_hostname : Address → Bool
is_hostname (hostname h) = true
is_hostname _ = false

-- `Address::hostname`.
abbrev pub hostname_of : Address → Option Bytes
hostname_of (hostname h) = some h
hostname_of _ = none

abbrev is_unspecified_address : Address → Bool
is_unspecified_address (ipv4 i) = ipv4_eq i (record { a = 0; b = 0; c = 0; d = 0 })
is_unspecified_address _ = false

-- `self == &Self::UNSPECIFIED`.
abbrev pub is_unspecified : NetLocation → Bool
is_unspecified l = is_unspecified_address l.address && l.port == 0

abbrev pub from_ip_addr : IpAddr → ℕ → NetLocation
from_ip_addr (v4 i) port = record { address = ipv4 i; port = port }
from_ip_addr (v6 i) port = record { address = ipv6 i; port = port }

abbrev pub from_socket_addr : SocketAddr → NetLocation
from_socket_addr a = from_ip_addr a.ip a.port

abbrev socket_addr_of : Address → ℕ → Option SocketAddr
socket_addr_of (ipv4 i) port = some (record { ip = v4 i; port = port })
socket_addr_of (ipv6 i) port = some (record { ip = v6 i; port = port })
socket_addr_of (hostname h) port = none

abbrev pub to_socket_addr_nonblocking : NetLocation → Option SocketAddr
to_socket_addr_nonblocking l = socket_addr_of l.address l.port
