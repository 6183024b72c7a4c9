-- ===== src/Net/Types.antt =====
-- The addresses of `std::net`: their fields, their octets in network order, and the number that an
-- address stands for.
use shoes_on_shuttle.Common.{
  arith, ◌≡◌, ℕ, ◌+◌, ◌*◌, ◌/◌, ◌%◌, ◌^◌, ◌<◌, Bytes, [], ◌∷◌, Bool, ◌&&◌, ◌==◌, IsByte,
}

-- `Ipv4Addr`: four octets.
pub record Ipv4Addr : Type 0 where
  pub a : ℕ
  pub b : ℕ
  pub c : ℕ
  pub d : ℕ

-- `Ipv6Addr`: eight 16-bit segments.
pub record Ipv6Addr : Type 0 where
  pub s0 : ℕ
  pub s1 : ℕ
  pub s2 : ℕ
  pub s3 : ℕ
  pub s4 : ℕ
  pub s5 : ℕ
  pub s6 : ℕ
  pub s7 : ℕ

abbrev pub IsU16 : ℕ → Type 0
IsU16 n = n < 2 ^ 16

pub record IsIpv4 (i : Ipv4Addr) : Type 0 where
  pub a_byte : IsByte i.a
  pub b_byte : IsByte i.b
  pub c_byte : IsByte i.c
  pub d_byte : IsByte i.d

pub record IsIpv6 (i : Ipv6Addr) : Type 0 where
  pub u0 : IsU16 i.s0
  pub u1 : IsU16 i.s1
  pub u2 : IsU16 i.s2
  pub u3 : IsU16 i.s3
  pub u4 : IsU16 i.s4
  pub u5 : IsU16 i.s5
  pub u6 : IsU16 i.s6
  pub u7 : IsU16 i.s7

-- `u16::from_be_bytes`, and `(hi as u16) << 8 | lo as u16` on two bytes.
abbrev pub from_be_bytes : ℕ → ℕ → ℕ
from_be_bytes hi lo = hi * 256 + lo

-- `(n >> 8) as u8` and `(n & 0xff) as u8`.
abbrev pub high_byte : ℕ → ℕ
high_byte n = n / 256 % 256

abbrev pub low_byte : ℕ → ℕ
low_byte n = n % 256

-- `to_be_bytes` of a `u16`.
abbrev pub to_be_bytes : ℕ → Bytes
to_be_bytes n = high_byte n ∷ low_byte n ∷ []

abbrev pub octets : Ipv4Addr → Bytes
octets i = i.a ∷ i.b ∷ i.c ∷ i.d ∷ []

abbrev pub octets6 : Ipv6Addr → Bytes
octets6 i =
    high_byte i.s0
    ∷ low_byte i.s0
    ∷ high_byte i.s1
    ∷ low_byte i.s1
    ∷ high_byte i.s2
    ∷ low_byte i.s2
    ∷ high_byte i.s3
    ∷ low_byte i.s3
    ∷ high_byte i.s4
    ∷ low_byte i.s4
    ∷ high_byte i.s5
    ∷ low_byte i.s5
    ∷ high_byte i.s6
    ∷ low_byte i.s6
    ∷ high_byte i.s7
    ∷ low_byte i.s7
    ∷ []

-- `Ipv6Addr::new` on the segments of 16 bytes in network order, from position `k` of a buffer.
abbrev pub segments_of : (ℕ → ℕ) → Ipv6Addr
segments_of at = record {
  s0 = from_be_bytes (at 0) (at 1);
  s1 = from_be_bytes (at 2) (at 3);
  s2 = from_be_bytes (at 4) (at 5);
  s3 = from_be_bytes (at 6) (at 7);
  s4 = from_be_bytes (at 8) (at 9);
  s5 = from_be_bytes (at 10) (at 11);
  s6 = from_be_bytes (at 12) (at 13);
  s7 = from_be_bytes (at 14) (at 15);
}

-- `u128::from(Ipv6Addr)`.
abbrev pub ipv6_number : Ipv6Addr → ℕ
ipv6_number i =
    ((((((i.s0 * 2 ^ 16 + i.s1) * 2 ^ 16 + i.s2) * 2 ^ 16 + i.s3) * 2 ^ 16 + i.s4) * 2 ^ 16 + i.s5)
          * 2 ^ 16
        + i.s6)
      * 2 ^ 16
    + i.s7

-- `Ipv4Addr::to_ipv6_mapped`: `::ffff:a.b.c.d`.
abbrev pub to_ipv6_mapped : Ipv4Addr → Ipv6Addr
to_ipv6_mapped i = record {
  s0 = 0;
  s1 = 0;
  s2 = 0;
  s3 = 0;
  s4 = 0;
  s5 = 0xffff;
  s6 = from_be_bytes i.a i.b;
  s7 = from_be_bytes i.c i.d;
}

abbrev pub ipv4_eq : Ipv4Addr → Ipv4Addr → Bool
ipv4_eq i j = i.a == j.a && i.b == j.b && i.c == j.c && i.d == j.d

-- `to_be_bytes` of a `u64`.
abbrev pub u64_bytes : ℕ → Bytes
u64_bytes n =
    (n / 2 ^ 56 % 256)
    ∷ (n / 2 ^ 48 % 256)
    ∷ (n / 2 ^ 40 % 256)
    ∷ (n / 2 ^ 32 % 256)
    ∷ (n / 2 ^ 24 % 256)
    ∷ (n / 2 ^ 16 % 256)
    ∷ (n / 2 ^ 8 % 256)
    ∷ (n % 256)
    ∷ []

-- `length = (length << 8) | b` over the bytes.
abbrev pub be_number : Bytes → ℕ → ℕ
be_number [] length = length
be_number (b ∷ bytes) length = be_number bytes (length * 256 + b)

pub u64_number : (n : ℕ) → n < 2 ^ 64 → be_number (u64_bytes n) 0 ≡ n
u64_number n h = omega arith
