-- ===== src/Hex.antt =====
-- Hexadecimal text: what `format!("{:02x}")` writes for the hash of `src/trojan_handler.rs`, what
-- `parse_hex` of `src/vless_handler.rs` reads, and the comparison by `zip` that both handlers make.
use shoes_on_shuttle.Common.{
  ℕ, ◌+◌, ◌-◌, ◌*◌, ◌/◌, ◌%◌, ◌<◌, ◌≡◌, refl, arith, Bytes, [], ◌∷◌, Bool, true, ◌&&◌, leb, ltb,
  ◌==◌, Option, none, some, if◌then◌else◌, length, All, IsByte,
}

abbrev pub hex_digit : ℕ → ℕ
hex_digit d = if ltb d 10 then b'0' + d else b'a' + (d - 10)

-- `format!("{:02x}", b)` for each byte.
unfoldable pub hex_of : Bytes → Bytes
hex_of [] = []
hex_of (b ∷ bs) = hex_digit (b / 16) ∷ hex_digit (b % 16) ∷ hex_of bs

-- The digit that a character stands for.
abbrev pub hex_value : ℕ → Option ℕ
hex_value c =
    if leb b'0' c && leb c b'9'
    then some (c - b'0')
    else if leb b'a' c && leb c b'f'
    then some (c - b'a' + 10)
    else if leb b'A' c && leb c b'F'
    then some (c - b'A' + 10)
    else none

-- The `filter_map` of `parse_hex`.
unfoldable pub hex_values : Bytes → Bytes
hex_values [] = []
hex_values (c ∷ cs) = elim (hex_value c) [ some d ↦ d ∷ hex_values cs | none ↦ hex_values cs ]

-- `h << 4 | l`, two by two; a last one alone is dropped.
unfoldable pub pair_up : Bytes → Bytes
pair_up (h ∷ l ∷ rest) = (h * 16 + l) ∷ pair_up rest
pair_up _ = []

unfoldable pub parse_hex : Bytes → Bytes
unfolding hex_values pair_up
parse_hex text = pair_up (hex_values text)

-- `for (b1, b2) in xs.iter().zip(ys.iter()) { if b1 != b2 { return Err(…) } }`
abbrev pub zip_eq : Bytes → Bytes → Bool
zip_eq (x ∷ xs) (y ∷ ys) = x == y && zip_eq xs ys
zip_eq _ _ = true

pub length-hex_of : (bs : Bytes) → length (hex_of bs) ≡ 2 * length bs
unfolding hex_of
length-hex_of [] = refl
length-hex_of (b ∷ bs) = omega (arith, length-hex_of bs)

hex_value-hex_digit : (d : ℕ) → d < 16 → hex_value (hex_digit d) ≡ some d
hex_value-hex_digit d h = ground arith

hex_values-hex_of :
    (b : ℕ) (bs : Bytes)
    → b < 256
    → hex_values (hex_of (b ∷ bs)) ≡ (b / 16) ∷ (b % 16) ∷ hex_values (hex_of bs)
unfolding hex_values hex_of
hex_values-hex_of b bs h =
    ground (arith, hex_value-hex_digit (b / 16), hex_value-hex_digit (b % 16))

-- `parse_hex` reads back the two digits that are written for each byte.
pub parse_hex-hex_of : (bs : Bytes) → All IsByte bs → parse_hex (hex_of bs) ≡ bs
unfolding parse_hex
parse_hex-hex_of [] h = unfold hex_of in refl
parse_hex-hex_of (b ∷ bs) (hb, hbs) =
    ground (arith, hex_values-hex_of b bs hb, parse_hex-hex_of bs hbs)

pub zip_eq_refl : (xs : Bytes) → zip_eq xs xs ≡ true
zip_eq_refl [] = refl
zip_eq_refl (x ∷ xs) = ground (arith, zip_eq_refl xs)

-- On as many bytes the comparison is equality.
pub zip_eq→eq : (xs ys : Bytes) → length xs ≡ length ys → zip_eq xs ys ≡ true → xs ≡ ys
zip_eq→eq [] [] l e = refl
zip_eq→eq [] (y ∷ ys) l e = absurd (omega arith)
zip_eq→eq (x ∷ xs) [] l e = absurd (omega arith)
zip_eq→eq (x ∷ xs) (y ∷ ys) l e = ground (arith, zip_eq→eq xs ys)
