-- ===== src/Socks/Location/RoundTrip.antt =====
-- `read_location` on the bytes of `write_location_to_vec`, of `src/socks_handler.rs`.
use shoes_on_shuttle.Common.{
  ℕ, ◌+◌, ◌*◌, ◌/◌, ◌%◌, ◌<◌, ◌≡◌, arith, Bytes, [], ◌∷◌, ◌++◌, append_assoc, length, true,
  length-append, split_exact_front, take_front, get_or-append,
}
use shoes_on_shuttle.Net.Types.{Ipv4Addr, Ipv6Addr, IsIpv4, IsIpv6, IsU16}
use shoes_on_shuttle.Net.Utf8.{is_utf8}
use shoes_on_shuttle.Address.{Address, ipv4, ipv6, hostname, NetLocation, address_from}
use shoes_on_shuttle.Stream.{Stream, ok, success, write_all}
use shoes_on_shuttle.Socks.Location.{read_location, write_location, write_location_to_vec}

-- What can stand in a location: fields in range, and a hostname of at most 255 bytes of UTF-8 that
-- does not read as an IP address.
abbrev pub IsWireAddress : Address → Type 0
IsWireAddress (ipv4 i) = IsIpv4 i
IsWireAddress (ipv6 i) = IsIpv6 i
IsWireAddress (hostname h) =
    (length h < 256) × (is_utf8 h ≡ true) × (address_from h ≡ success (hostname h))

pub record IsWire (l : NetLocation) : Type 0 where
  pub address_ok : IsWireAddress l.address
  pub port_ok : IsU16 l.port

-- `write_location` writes the bytes of `write_location_to_vec`.
pub write_location-eq-vec :
    (l : NetLocation) (s : Stream) → write_location l s ≡ write_all (write_location_to_vec l) s
unfolding write_location write_location_to_vec
write_location-eq-vec l s = by_address l.address l.port
  where
    by_address :
        (a : Address) (p : ℕ)
        → write_location (record { address = a; port = p }) s
          ≡ write_all (write_location_to_vec (record { address = a; port = p })) s
    by_address (ipv4 i) p = simp append_assoc
    by_address (ipv6 i) p = simp append_assoc
    by_address (hostname h) p = simp append_assoc

pub be_bytes : (n : ℕ) → IsU16 n → n / 256 % 256 * 256 + n % 256 ≡ n
be_bytes n h = omega arith

module _ (s : Stream) (rest : Bytes) where
  -- What is read back from the bytes of `l`, whatever follows them.
  abbrev ReadsBack : NetLocation → Type 0
  ReadsBack l =
      read_location (record s { incoming = write_location_to_vec l ++ rest })
      ≡ ok l (record s { incoming = rest })

  read-ipv4 : (i : Ipv4Addr) (p : ℕ) → IsU16 p → ReadsBack (record { address = ipv4 i; port = p })
  unfolding read_location write_location_to_vec
  read-ipv4 i p hp = rw (be_bytes p hp)

  read-ipv6 :
      (i : Ipv6Addr) (p : ℕ)
      → IsIpv6 i
      → IsU16 p
      → ReadsBack (record { address = ipv6 i; port = p })
  unfolding read_location write_location_to_vec
  read-ipv6 i p hi hp = rw (
    be_bytes p hp,
    be_bytes i.s0 hi.u0,
    be_bytes i.s1 hi.u1,
    be_bytes i.s2 hi.u2,
    be_bytes i.s3 hi.u3,
    be_bytes i.s4 hi.u4,
    be_bytes i.s5 hi.u5,
    be_bytes i.s6 hi.u6,
    be_bytes i.s7 hi.u7,
  )

  read-hostname :
      (h : Bytes) (p : ℕ)
      → IsWireAddress (hostname h)
      → IsU16 p
      → ReadsBack (record { address = hostname h; port = p })
  unfolding read_location write_location_to_vec
  read-hostname h p (fits, text, name) hp =
      let tail : Bytes = (p / 256 % 256) ∷ (p % 256) ∷ [] in
      let n = length h % 256 in
      ground (
        arith,
        split_exact_front (n + 2) (h ++ tail) rest (omega (arith, length-append h tail)),
        take_front n h tail (omega arith),
        get_or-append n n 0 h tail 0 (omega arith) (omega arith),
        get_or-append n (n + 1) 1 h tail 0 (omega arith) (omega arith),
        be_bytes p hp,
      )

  reads_back :
      (a : Address) (p : ℕ)
      → IsWireAddress a
      → IsU16 p
      → ReadsBack (record { address = a; port = p })
  reads_back (ipv4 i) p ha hp = read-ipv4 i p hp
  reads_back (ipv6 i) p ha hp = read-ipv6 i p ha hp
  reads_back (hostname h) p ha hp = read-hostname h p ha hp

-- For a location whose fields are in range, and whose hostname, if it has one, is UTF-8 of at most
-- 255 bytes that does not read as an IP address: `read_location` reads back what
-- `write_location_to_vec` encodes, and leaves what follows it.
pub read_location-write_location_to_vec :
    (l : NetLocation) (s : Stream) (rest : Bytes)
    → IsWire l
    → read_location (record s { incoming = write_location_to_vec l ++ rest })
      ≡ ok l (record s { incoming = rest })
read_location-write_location_to_vec l s rest h =
    reads_back s rest l.address l.port h.address_ok h.port_ok
