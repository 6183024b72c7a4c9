-- ===== src/Net/Utf8.antt =====
-- `std::str::from_utf8`: which byte strings are UTF-8.
use shoes_on_shuttle.Common.{
  ℕ, Bytes, List, [], ◌∷◌, Option, none, some, Bool, true, false, ◌&&◌, ◌==◌, ltb, leb,
  if◌then◌else◌, ◌<◌, ◌≡◌, refl, arith, All,
}

-- The ranges of the continuation bytes that a first byte calls for.
abbrev Ranges : Type 0
Ranges = List (ℕ × ℕ)

abbrev tail_byte : ℕ × ℕ
tail_byte = (0x80, 0xbf)

unfoldable pub first_byte : ℕ → Option Ranges
first_byte b =
    if ltb b 0x80
    then some []
    else if ltb b 0xc2
    then none
    else if ltb b 0xe0
    then some (tail_byte ∷ [])
    else if b == 0xe0
    then some ((0xa0, 0xbf) ∷ tail_byte ∷ [])
    else if b == 0xed
    then some ((0x80, 0x9f) ∷ tail_byte ∷ [])
    else if ltb b 0xf0
    then some (tail_byte ∷ tail_byte ∷ [])
    else if b == 0xf0
    then some ((0x90, 0xbf) ∷ tail_byte ∷ tail_byte ∷ [])
    else if ltb b 0xf4
    then some (tail_byte ∷ tail_byte ∷ tail_byte ∷ [])
    else if b == 0xf4
    then some ((0x80, 0x8f) ∷ tail_byte ∷ tail_byte ∷ [])
    else none

unfoldable pub utf8_from : Ranges → Bytes → Bool
unfolding first_byte
utf8_from [] [] = true
utf8_from (r ∷ rs) [] = false
utf8_from ((lo, hi) ∷ rs) (b ∷ bs) = leb lo b && leb b hi && utf8_from rs bs
utf8_from [] (b ∷ bs) = elim (first_byte b) [ none ↦ false | some rs ↦ utf8_from rs bs ]

unfoldable pub is_utf8 : Bytes → Bool
unfolding utf8_from
is_utf8 = utf8_from []

-- Plain ASCII is UTF-8.
pub is_utf8_ascii : (bs : Bytes) → All (λ b. b < 0x80) bs → is_utf8 bs ≡ true
unfolding is_utf8
is_utf8_ascii [] h = refl
is_utf8_ascii (b ∷ bs) h = ground (arith, is_utf8_ascii bs h.1)
