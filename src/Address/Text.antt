-- ===== src/Address/Text.antt =====
-- `Address::from` and `NetLocation::from_str` of `src/address.rs`.
use shoes_on_shuttle.Common.{
  ℕ, ◌+◌, Bytes, [], ◌∷◌, Bool, true, false, ◌&&◌, ◌||◌, ◌==◌, leb, ltb, not, Option, none, some,
  if◌then◌else◌,
}
use shoes_on_shuttle.Net.Types.{Ipv4Addr, Ipv6Addr}
use shoes_on_shuttle.Net.Parse.{parse_ipv4, parse_ipv6, parse_uint}
use shoes_on_shuttle.Stream.{Result, success, failure, invalid_data, other}
use shoes_on_shuttle.Address.Types.{Address, ipv4, ipv6, hostname, NetLocation, is_ipv6}

-- The locals of the loop over the bytes.
pub record Scan : Type 0 where
  pub dots : ℕ
  pub possible_ipv4 : Bool
  pub possible_ipv6 : Bool
  pub possible_hostname : Bool

abbrev pub fresh_scan : Scan
fresh_scan = record {
  dots = 0;
  possible_ipv4 = true;
  possible_ipv6 = true;
  possible_hostname = true;
}

abbrev pub is_hex_letter : ℕ → Bool
is_hex_letter c = leb b'A' c && leb c b'F' || leb b'a' c && leb c b'f'

-- The body of the loop: the new locals, and whether it goes on.
abbrev scan_byte : ℕ → Scan → Scan × Bool
scan_byte c s =
    if c == b':'
    then (record s { possible_ipv4 = false; possible_hostname = false }, false)
    else if c == b'.'
    then (record s { possible_ipv6 = false; dots = s.dots + 1 }, not (ltb 3 (s.dots + 1)))
    else if is_hex_letter c
    then (record s { possible_ipv4 = false }, true)
    else if ltb c b'0' || ltb b'9' c
    then (record s { possible_ipv4 = false; possible_ipv6 = false }, false)
    else (s, true)

unfoldable pub scan : Bytes → Scan → Scan
scan [] s = s
scan (c ∷ cs) s = let (s', more) = scan_byte c s in elim more [ true ↦ scan cs s' | false ↦ s' ]

-- The three attempts behind the loop.
abbrev as_hostname : Scan → Bytes → Result Address
as_hostname s text =
    if s.possible_hostname
    then success (hostname text)
    else failure (record { kind = invalid_data; message = "Failed to parse address" })

abbrev as_ipv6 : Option Ipv6Addr → Result Address → Result Address
as_ipv6 (some i) otherwise = success (ipv6 i)
as_ipv6 none otherwise = otherwise

abbrev as_ipv4 : Option Ipv4Addr → Result Address → Result Address
as_ipv4 (some i) otherwise = success (ipv4 i)
as_ipv4 none otherwise = otherwise

abbrev classify : Scan → Bytes → Result Address
classify s text =
    let last = as_hostname s text in
    let second = if s.possible_ipv6 then as_ipv6 (parse_ipv6 text) last else last in
    if s.possible_ipv4 && s.dots == 3 then as_ipv4 (parse_ipv4 text) second else second

-- `Address::from`.
unfoldable pub address_from : Bytes → Result Address
unfolding scan
address_from text = classify (scan text fresh_scan) text

-- `s.find(c)`: the text before the first `c` and the text behind it.
unfoldable pub split_at_first : ℕ → Bytes → Option (Bytes × Bytes)
split_at_first c [] = none
split_at_first c (x ∷ xs) =
    let later = split_at_first c xs in
    if x == c
    then some ([], xs)
    else elim later [ none ↦ none | some (front, back) ↦ some (x ∷ front, back) ]

-- `s.rfind(c)`: the text before the last `c` and the text behind it.
unfoldable pub split_at_last : ℕ → Bytes → Option (Bytes × Bytes)
split_at_last c [] = none
split_at_last c (x ∷ xs) = elim (split_at_last c xs) [
  | some (front, back) ↦ some (x ∷ front, back)
  | none ↦ if x == c then some ([], xs) else none
]

abbrev simple_error : {A : Type 0} → Result A
simple_error = failure (record { kind = other; message = "Invalid location" })

abbrev no_port : {A : Type 0} → Result A
no_port = failure (record { kind = other; message = "No port" })

-- `?` on a `Result`.
infixl 5 ◌>>=◌
abbrev pub ◌>>=◌ {ℓ κ} : {A : Type ℓ} {B : Type κ} → Result A → (A → Result B) → Result B
success a >>= f = f a
failure e >>= f = failure e

abbrev require_port : Option ℕ → Result ℕ
require_port (some p) = success p
require_port none = no_port

-- What `from_str` does once the text is split into address, port and `expect_ipv6`.
abbrev location_of : Bytes → Option ℕ → Bool → Result NetLocation
location_of address_text port expect_ipv6 = do
  address ← address_from address_text
  checked ← if expect_ipv6 && not (is_ipv6 address) then simple_error else success address
  p ← require_port port
  success (record { address = checked; port = p })

-- The part behind the last `:` is a port, or else the `:` belongs to an IPv6 address.
abbrev split_port : Bytes → Option ℕ → Option (Bytes × Bytes) → Bytes × Option ℕ × Bool
split_port s default_port none = (s, default_port, false)
split_port s default_port (some (front, back)) = elim (parse_uint 0xffff back) [
  | some port ↦ (front, some port, false)
  | none ↦ (s, default_port, true)
]

-- `NetLocation::from_str`.
unfoldable pub location_from_str : Bytes → Option ℕ → Result NetLocation
unfolding split_at_last parse_uint address_from
location_from_str s default_port =
    let (address_text, port, expect_ipv6) = split_port s default_port (split_at_last b':' s) in
    location_of address_text port expect_ipv6
