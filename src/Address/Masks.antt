-- ===== src/Address/Masks.antt =====
-- `AddressMask` and `NetLocationMask` of `src/address.rs`.
use shoes_on_shuttle.Common.{
  ℕ, ◌+◌, ◌-◌, ◌*◌, ◌/◌, ◌%◌, ◌^◌, Bytes, ◌==◌, ltb, Option, none, some, if◌then◌else◌,
}
use shoes_on_shuttle.Net.Parse.{parse_uint}
use shoes_on_shuttle.Stream.{Result, success, failure, other}
use shoes_on_shuttle.Address.Types.{Address, ipv4, ipv6, hostname, unspecified_address}
use shoes_on_shuttle.Address.Text.{address_from, split_at_first, split_at_last, ◌>>=◌}

pub record AddressMask : Type 0 where
  pub address : Address
  pub netmask : ℕ

pub record NetLocationMask : Type 0 where
  pub address_mask : AddressMask
  pub port : ℕ

abbrev pub any_address : AddressMask
any_address = record { address = unspecified_address; netmask = 0 }

abbrev pub any_location : NetLocationMask
any_location = record { address_mask = any_address; port = 0 }

abbrev pub value_or : Option ℕ → ℕ → ℕ
value_or (some n) d = n
value_or none d = d

abbrev invalid_bits : Result ℕ
invalid_bits = failure (record { kind = other; message = "Invalid number of bits" })

abbrev bits_on_hostname : Result ℕ
bits_on_hostname = failure (record {
  kind = other;
  message = "Cannot specify number of number of netmask bits for hostnames";
})

-- The `match address` of `AddressMask::from`: how many of the 128 bits count.
unfoldable pub keep_bits : Address → Option ℕ → Result ℕ
keep_bits (ipv4 i) num_bits =
    let n = value_or num_bits 32 in
    if ltb 32 n then invalid_bits else if n == 0 then success 0 else success (96 + n)
keep_bits (ipv6 i) num_bits =
    let n = value_or num_bits 128 in if ltb 128 n then invalid_bits else success n
keep_bits (hostname h) (some n) = bits_on_hostname
keep_bits (hostname h) none = success 128

-- `(u128::MAX >> clear_bits) << clear_bits`, but 0 where all the bits would be shifted away.
unfoldable pub netmask_of : ℕ → ℕ
netmask_of clear_bits =
    if clear_bits == 128 then 0 else (2 ^ 128 - 1) / 2 ^ clear_bits * 2 ^ clear_bits % 2 ^ 128

abbrev parse_bits : Bytes → Result (Option ℕ)
parse_bits text = elim (parse_uint 0xff text) [
  | some n ↦ success (some n)
  | none ↦ failure (record { kind = other; message = "Failed to parse netmask" })
]

abbrev split_bits : Bytes → Option (Bytes × Bytes) → Result (Bytes × Option ℕ)
split_bits s none = success (s, none)
split_bits s (some (front, back)) = do n ← parse_bits back; success (front, n)

-- `AddressMask::from`.
unfoldable pub address_mask_from : Bytes → Result AddressMask
unfolding address_from split_at_last parse_uint keep_bits netmask_of
address_mask_from s = do
  (address_text, num_bits) ← split_bits s (split_at_last b'/' s)
  address ← address_from address_text
  kept ← keep_bits address num_bits
  success (record { address = address; netmask = netmask_of (128 - kept) })

abbrev parse_port : Bytes → Result ℕ
parse_port text = elim (parse_uint 0xffff text) [
  | some n ↦ success n
  | none ↦ failure (record { kind = other; message = "Failed to parse port" })
]

abbrev split_mask_port : Bytes → Option (Bytes × Bytes) → Result (Bytes × ℕ)
split_mask_port s none = success (s, 0)
split_mask_port s (some (front, back)) = do n ← parse_port back; success (front, n)

-- `NetLocationMask::from`.
unfoldable pub location_mask_from : Bytes → Result NetLocationMask
unfolding address_mask_from split_at_first parse_uint
location_mask_from s = do
  (mask_text, port) ← split_mask_port s (split_at_first b':' s)
  mask ← address_mask_from mask_text
  success (record { address_mask = mask; port = port })
