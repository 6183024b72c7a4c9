-- ===== src/Selector/Netmask.antt =====
-- The masks of `AddressMask::from` of `src/address.rs` under the test of `match_mask` of
-- `src/client_proxy_selector.rs`.
use shoes_on_shuttle.Stream.{success}
use Prim.Native.Nat.{bit_and}
use shoes_on_shuttle.Common.{
  some, ℕ, ◌+◌, ◌-◌, ◌*◌, ◌/◌, ◌^◌, ◌≤◌, ◌<◌, ◌≡◌, refl, sym, ap, ◌∙◌, arith, true, ◌==◌, ==→eq,
  ==_refl,
}
use native.Mathlib.Nat.{mul-div_cancel, one-le-pow, mul_assoc, mul-add-div_right}
use mathlib.Core.Logic.{◌↔◌}
use shoes_on_shuttle.Common.Bits.{holds_below, holds_below_sound, bit_and_leading}
use shoes_on_shuttle.Net.Types.{Ipv4Addr, Ipv6Addr, IsIpv4, IsIpv6, ipv6_number}
use shoes_on_shuttle.Address.{ipv6, ipv4, keep_bits, netmask_of}
use shoes_on_shuttle.Selector.Mask.{ipv4_to_u128}

-- The 32 bits of an IPv4 address.
abbrev pub ipv4_bits : Ipv4Addr → ℕ
ipv4_bits i = ((i.a * 256 + i.b) * 256 + i.c) * 256 + i.d

ipv6_number-lt : (i : Ipv6Addr) → IsIpv6 i → ipv6_number i < 2 ^ 128
ipv6_number-lt i h = omega arith

ipv4_to_u128-lt : (i : Ipv4Addr) → IsIpv4 i → ipv4_to_u128 i < 2 ^ 128
ipv4_to_u128-lt i h = omega arith

-- The masks there are, as leading ones; and how they divide the 128 bits. Checked at each length.
netmask_table : holds_below (λ c. netmask_of c == (2 ^ (128 - c) - 1) * 2 ^ c) 129 ≡ true
unfolding holds_below netmask_of
netmask_table = refl

width_table : holds_below (λ c. 2 ^ (128 - c) * 2 ^ c == 2 ^ 128) 129 ≡ true
unfolding holds_below
width_table = refl

-- The mask that leaves out `c` bits keeps what is above them.
pub bit_and-netmask_of :
    (c a : ℕ) → c ≤ 128 → a < 2 ^ 128 → bit_and a (netmask_of c) ≡ a / 2 ^ c * 2 ^ c
bit_and-netmask_of c a hc ha =
    let shape = ==→eq _ _ (
      holds_below_sound (λ c. netmask_of c == (2 ^ (128 - c) - 1) * 2 ^ c) 129 c (omega arith)
        netmask_table) in
    let width =
      ==→eq _ _ (
        holds_below_sound (λ c. 2 ^ (128 - c) * 2 ^ c == 2 ^ 128) 129 c (omega arith)
          width_table) in
    ap (bit_and a) shape ∙ bit_and_leading c (128 - c) a (omega (arith, width))

multiple_inj : (c a b : ℕ) → a * 2 ^ c ≡ b * 2 ^ c → a ≡ b
multiple_inj c a b e =
    sym (mul-div_cancel a (one-le-pow c 2 (omega arith)))
    ∙ ap (λ (t : ℕ). t / 2 ^ c) e
    ∙ mul-div_cancel b (one-le-pow c 2 (omega arith))

-- Two addresses, as numbers of 128 bits, agree under the mask that leaves out `c` bits exactly when
-- they agree in what stands above those bits.
pub netmask_of_iff :
    (c a b : ℕ)
    → c ≤ 128
    → a < 2 ^ 128
    → b < 2 ^ 128
    → ((bit_and a (netmask_of c) == bit_and b (netmask_of c)) ≡ true) ↔ (a / 2 ^ c ≡ b / 2 ^ c)
netmask_of_iff c a b hc ha hb =
    let ea = bit_and-netmask_of c a hc ha in
    let eb = bit_and-netmask_of c b hc hb in
    (λ h. multiple_inj c _ _ (sym ea ∙ ==→eq _ _ h ∙ eb), λ h. rw (ea, eb, h) (==_refl _))

ipv4_width_table : holds_below (λ c. 2 ^ (32 - c) * 2 ^ c == 2 ^ 32) 33 ≡ true
unfolding holds_below
ipv4_width_table = refl

-- Above the lowest `c` bits, the mapped address is the marker `ffff` and the bits of the address.
ipv4_to_u128-div :
    (i : Ipv4Addr) (c : ℕ)
    → c ≤ 32
    → ipv4_to_u128 i / 2 ^ c ≡ 0xffff * 2 ^ (32 - c) + ipv4_bits i / 2 ^ c
ipv4_to_u128-div i c hc =
    let width = ==→eq _ _ (
      holds_below_sound (λ c. 2 ^ (32 - c) * 2 ^ c == 2 ^ 32) 33 c (omega arith)
        ipv4_width_table) in
    let shape : ipv4_to_u128 i ≡ 0xffff * 2 ^ (32 - c) * 2 ^ c + ipv4_bits i =
      omega (arith, width, mul_assoc 0xffff (2 ^ (32 - c)) (2 ^ c)) in
    rw shape
      (mul-add-div_right (one-le-pow c 2 (omega arith)) (0xffff * 2 ^ (32 - c)) (ipv4_bits i))

ipv4_kept :
    (i : Ipv4Addr) (n k : ℕ)
    → 0 < n
    → keep_bits (ipv4 i) (some n) ≡ success k
    → (n ≤ 32) × (k ≡ 96 + n)
unfolding keep_bits
ipv4_kept i n k h e = ground arith

-- Two IPv4 addresses match under the mask of `/n`, for `n` from 1 on as `AddressMask::from` accepts
-- it, exactly when their first `n` bits agree.
pub ipv4_mask_iff :
    (i j : Ipv4Addr) (n k : ℕ)
    → IsIpv4 i
    → IsIpv4 j
    → 0 < n
    → keep_bits (ipv4 i) (some n) ≡ success k
    → ((bit_and (ipv4_to_u128 i) (netmask_of (128 - k))
          == bit_and (ipv4_to_u128 j) (netmask_of (128 - k)))
        ≡ true)
      ↔ (ipv4_bits i / 2 ^ (32 - n) ≡ ipv4_bits j / 2 ^ (32 - n))
ipv4_mask_iff i j n k hi hj hn e =
    let (small, kept) = ipv4_kept i n k hn e in
    let same : 128 - k ≡ 32 - n = omega arith in
    let both =
      netmask_of_iff (32 - n) (ipv4_to_u128 i) (ipv4_to_u128 j) (omega arith) (ipv4_to_u128-lt i hi)
        (ipv4_to_u128-lt j hj) in
    let di = ipv4_to_u128-div i (32 - n) (omega arith) in
    let dj = ipv4_to_u128-div j (32 - n) (omega arith) in
    rw same (λ h. omega (arith, both.0 h, di, dj), λ h. both.1 (omega (arith, h, di, dj)))

-- The same of IPv6 addresses and `/n`, for every `n` that is accepted.
pub ipv6_mask_iff :
    (i j : Ipv6Addr) (n k : ℕ)
    → IsIpv6 i
    → IsIpv6 j
    → keep_bits (ipv6 i) (some n) ≡ success k
    → ((bit_and (ipv6_number i) (netmask_of (128 - k))
          == bit_and (ipv6_number j) (netmask_of (128 - k)))
        ≡ true)
      ↔ (ipv6_number i / 2 ^ (128 - n) ≡ ipv6_number j / 2 ^ (128 - n))
unfolding keep_bits
ipv6_mask_iff i j n k hi hj e =
    let same : k ≡ n = ground arith in
    rw same (
      netmask_of_iff (128 - n) (ipv6_number i) (ipv6_number j) (omega arith) (ipv6_number-lt i hi)
        (ipv6_number-lt j hj))
