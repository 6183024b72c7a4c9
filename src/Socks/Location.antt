-- ===== src/Socks/Location.antt =====
-- `read_location`, `write_location` and `write_location_to_vec` of `src/socks_handler.rs`.
pub mod RoundTrip
use shoes_on_shuttle.Common.{
  ℕ, ◌+◌, ◌%◌, Bytes, [], ◌∷◌, ◌++◌, ◌==◌, if◌then◌else◌, get_or, take, length,
}
use shoes_on_shuttle.Net.Types.{
  Ipv4Addr, Ipv6Addr, from_be_bytes, high_byte, low_byte, octets, octets6, segments_of,
}
use shoes_on_shuttle.Net.Utf8.{is_utf8}
use shoes_on_shuttle.Address.{Address, ipv4, ipv6, hostname, NetLocation, address_from}
use shoes_on_shuttle.Stream.{
  Io, pure, fail, ensure, lift, read_exact, write_all, ◌>>=◌, ◌>>◌, invalid_data, invalid_input,
}

abbrev pub addr_type_ipv4 : ℕ
addr_type_ipv4 = 0x01

abbrev pub addr_type_domain_name : ℕ
addr_type_domain_name = 0x03

abbrev pub addr_type_ipv6 : ℕ
addr_type_ipv6 = 0x04

-- `bytes[i]`, at an index that is in range.
abbrev pub byte_at : Bytes → ℕ → ℕ
byte_at bytes i = get_or bytes i 0

-- The three arms of `read_location`.
read_ipv4_location : Io NetLocation
read_ipv4_location = do
  bytes ← read_exact 6
  let addr : Ipv4Addr = record {
    a = byte_at bytes 0;
    b = byte_at bytes 1;
    c = byte_at bytes 2;
    d = byte_at bytes 3;
  }
  pure (record { address = ipv4 addr; port = from_be_bytes (byte_at bytes 4) (byte_at bytes 5) })

read_ipv6_location : Io NetLocation
read_ipv6_location = do
  bytes ← read_exact 18
  let addr = segments_of (λ k. byte_at bytes k)
  pure (record { address = ipv6 addr; port = from_be_bytes (byte_at bytes 16) (byte_at bytes 17) })

read_domain_location : Io NetLocation
read_domain_location = do
  size ← read_exact 1
  let address_len = byte_at size 0
  bytes ← read_exact (address_len + 2)
  let text = take address_len bytes
  ensure (is_utf8 text) invalid_data "Failed to decode address"
  let port = from_be_bytes (byte_at bytes address_len) (byte_at bytes (address_len + 1))
  address ← lift (address_from text)
  pure (record { address = address; port = port })

abbrev read_by_type : ℕ → Io NetLocation
read_by_type address_type =
    if address_type == addr_type_ipv4
    then read_ipv4_location
    else if address_type == addr_type_ipv6
    then read_ipv6_location
    else if address_type == addr_type_domain_name
    then read_domain_location
    else fail invalid_input "Unknown address type"

unfoldable pub read_location : Io NetLocation
unfolding read_ipv4_location read_ipv6_location read_domain_location
read_location = do kind ← read_exact 1; read_by_type (byte_at kind 0)

abbrev write_address : Address → Io (Unit {0})
write_address (ipv4 i) = do write_all (addr_type_ipv4 ∷ []); write_all (octets i)
write_address (ipv6 i) = do write_all (addr_type_ipv6 ∷ []); write_all (octets6 i)
write_address (hostname h) = do
  write_all (addr_type_domain_name ∷ [])
  write_all (length h % 256 ∷ [])
  write_all h

unfoldable pub write_location : NetLocation → Io (Unit {0})
write_location location = do
  write_address location.address
  write_all (high_byte location.port ∷ low_byte location.port ∷ [])

abbrev address_vec : Address → Bytes
address_vec (ipv4 i) = addr_type_ipv4 ∷ octets i
address_vec (ipv6 i) = addr_type_ipv6 ∷ octets6 i
address_vec (hostname h) = addr_type_domain_name ∷ (length h % 256) ∷ h

unfoldable pub write_location_to_vec : NetLocation → Bytes
write_location_to_vec location =
    address_vec location.address ++ (high_byte location.port ∷ low_byte location.port ∷ [])
