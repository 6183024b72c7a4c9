-- ===== src/Net/Parse.antt =====
-- Reading numbers and addresses from text, as `str::parse` of the standard library does.
use shoes_on_shuttle.Common.{
  ℕ, zero, suc, ◌+◌, ◌-◌, ◌*◌, Bytes, List, [], ◌∷◌, ◌++◌, Option, none, some, Bool, true, false,
  ◌&&◌, ◌||◌, not, ◌==◌, ltb, leb, if◌then◌else◌, length, replicate, get_or,
}
use shoes_on_shuttle.Net.Types.{Ipv4Addr, Ipv6Addr}

infixl 5 ◌>>=◌
abbrev ◌>>=◌ {ℓ κ} : {A : Type ℓ} {B : Type κ} → Option A → (A → Option B) → Option B
none >>= f = none
some a >>= f = f a

-- `char::to_digit`.
unfoldable pub to_digit : ℕ → ℕ → Option ℕ
to_digit radix c =
    if leb b'0' c && leb c b'9' && ltb (c - b'0') radix
    then some (c - b'0')
    else if leb b'a' c && leb c b'z' && ltb (c - b'a' + 10) radix
    then some (c - b'a' + 10)
    else if leb b'A' c && leb c b'Z' && ltb (c - b'A' + 10) radix
    then some (c - b'A' + 10)
    else none

-- The digits at the front, and what follows them.
unfoldable pub span_digits : ℕ → Bytes → List ℕ × Bytes
unfolding to_digit
span_digits radix [] = ([], [])
span_digits radix (c ∷ cs) = elim (to_digit radix c) [
  | none ↦ ([], c ∷ cs)
  | some d ↦ let (ds, rest) = span_digits radix cs in (d ∷ ds, rest)
]

abbrev pub number_of : ℕ → ℕ → List ℕ → ℕ
number_of radix acc [] = acc
number_of radix acc (d ∷ ds) = number_of radix (acc * radix + d) ds

abbrev all_digits : ℕ → ℕ → List ℕ × Bytes → Option ℕ
all_digits radix bound (d ∷ ds, []) =
    let n = number_of radix 0 (d ∷ ds) in if leb n bound then some n else none
all_digits radix bound _ = none

-- `parse::<u8>` and `parse::<u16>` by their greatest value: decimal digits behind at most one `+`.
unfoldable pub parse_uint : ℕ → Bytes → Option ℕ
unfolding span_digits
parse_uint bound [] = none
parse_uint bound (c ∷ cs) = all_digits 10 bound (span_digits 10 (if c == b'+' then cs else c ∷ cs))

abbrev leading_zero : List ℕ → Bool
leading_zero (d ∷ e ∷ ds) = d == 0
leading_zero _ = false

-- `Parser::read_number` with a limit on the digits.
unfoldable pub read_number : ℕ → ℕ → Bool → ℕ → Bytes → Option (ℕ × Bytes)
unfolding span_digits
read_number radix max_digits zero_prefix bound cs =
    let (ds, rest) = span_digits radix cs in
    let n = number_of radix 0 ds in
    if length ds == 0
      || ltb max_digits (length ds)
      || not zero_prefix && leading_zero ds
      || ltb bound n
    then none
    else some (n, rest)

-- `Parser::read_given_char`.
abbrev given : ℕ → Bytes → Option Bytes
given c [] = none
given c (x ∷ xs) = if x == c then some xs else none

abbrev octet : Bytes → Option (ℕ × Bytes)
octet = read_number 10 3 false 255

-- `Parser::read_ipv4_addr`.
unfoldable pub read_ipv4 : Bytes → Option (Ipv4Addr × Bytes)
unfolding read_number
read_ipv4 cs = do
  (a, r0) ← octet cs
  (b, r1) ← octet (← given b'.' r0)
  (c, r2) ← octet (← given b'.' r1)
  (d, r3) ← octet (← given b'.' r2)
  some (record { a = a; b = b; c = c; d = d }, r3)

abbrev whole {ℓ} : {A : Type ℓ} → Option (A × Bytes) → Option A
whole none = none
whole (some (a, [])) = some a
whole (some (a, c ∷ cs)) = none

-- `parse::<Ipv4Addr>`; no address in text is longer than 15 bytes.
unfoldable pub parse_ipv4 : Bytes → Option Ipv4Addr
unfolding read_ipv4
parse_ipv4 cs = if ltb 15 (length cs) then none else whole (read_ipv4 cs)

-- `Parser::read_separator`: the separator stands before every group but the first.
abbrev separated : Bool → Bytes → Option Bytes
separated first cs = if first then some cs else given b':' cs

abbrev group_at : Bool → Bytes → Option (ℕ × Bytes)
group_at first cs = do r ← separated first cs; read_number 16 4 true 0xffff r

-- An IPv4 address stands for two groups, so it needs room for two.
abbrev ipv4_at : ℕ → Bool → Bytes → Option (Ipv4Addr × Bytes)
ipv4_at zero first cs = none
ipv4_at (suc spare) first cs = do r ← separated first cs; read_ipv4 r

-- `read_groups` with room for so many more groups. The flag says that it ended in an IPv4 address.
read_groups : ℕ → Bool → Bytes → List ℕ × Bool × Bytes
unfolding read_ipv4
read_groups zero first cs = ([], false, cs)
read_groups (suc limit) first cs = elim (ipv4_at limit first cs) [
  | some (i, r) ↦ ((i.a * 256 + i.b) ∷ (i.c * 256 + i.d) ∷ [], true, r)
  | none ↦ elim (group_at first cs) [
    | none ↦ ([], false, cs)
    | some (g, r) ↦ let (gs, v4, r') = read_groups limit false r in (g ∷ gs, v4, r')
  ]
]

abbrev of_groups : List ℕ → Ipv6Addr
of_groups gs = record {
  s0 = get_or gs 0 0;
  s1 = get_or gs 1 0;
  s2 = get_or gs 2 0;
  s3 = get_or gs 3 0;
  s4 = get_or gs 4 0;
  s5 = get_or gs 5 0;
  s6 = get_or gs 6 0;
  s7 = get_or gs 7 0;
}

-- `::` and the groups behind it, after the groups `head`.
shortened : List ℕ → Bytes → Option (Ipv6Addr × Bytes)
unfolding read_groups
shortened head r = do
  r1 ← given b':' r
  r2 ← given b':' r1
  let (tail, v, r3) = read_groups (7 - length head) true r2
  some (of_groups (head ++ (replicate (8 - length head - length tail) 0 ++ tail)), r3)

-- `Parser::read_ipv6_addr`: eight groups, or fewer with `::` for the zeros between two runs of them.
unfoldable pub read_ipv6 : Bytes → Option (Ipv6Addr × Bytes)
unfolding read_groups shortened
read_ipv6 cs =
    let (head, v4, r) = read_groups 8 true cs in
    if length head == 8 then some (of_groups head, r) else if v4 then none else shortened head r

-- `parse::<Ipv6Addr>`.
unfoldable pub parse_ipv6 : Bytes → Option Ipv6Addr
unfolding read_ipv6
parse_ipv6 cs = whole (read_ipv6 cs)
