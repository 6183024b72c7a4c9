-- ===== src/Http/Boundary.antt =====
-- Where `line[27..]` of `src/http_handler.rs` does not panic: behind the prefix of a header.
use shoes_on_shuttle.Common.{
  both, ℕ, zero, suc, Bool, true, some, none, Bytes, [], ◌∷◌, ◌∙◌, sym, ap, refl, arith, drop, take,
  length, ◌≡◌, ◌+◌, ◌&&◌, ◌||◌, if◌then◌else◌, ltb, leb,
}
use shoes_on_shuttle.Common.Splice.{get_or-drop}
use shoes_on_shuttle.Common.Text.{to_ascii_lowercase, is_char_boundary}
use shoes_on_shuttle.Net.Utf8.{is_utf8, first_byte}
use shoes_on_shuttle.Http.Server.{proxy_auth_header_prefix, from_27}

abbrev are_ascii : Bytes → Bool
are_ascii [] = true
are_ascii (b ∷ bs) = ltb b 0x80 && are_ascii bs

-- Behind a byte of ASCII the text goes on.
behind_ascii :
    (b : ℕ) (bs : Bytes) → ltb b 0x80 ≡ true → is_utf8 (b ∷ bs) ≡ true → is_utf8 bs ≡ true
unfolding is_utf8 first_byte
behind_ascii b bs small e = ground (arith, small, e)

ascii_lowercase :
    (b : ℕ) → ltb (if leb b'A' b && leb b b'Z' then b + 32 else b) 0x80 ≡ true → ltb b 0x80 ≡ true
ascii_lowercase b h = ground (arith, h)

-- What stands behind letters of ASCII, whose lower case is of ASCII too, is UTF-8 again.
drop-is_utf8 :
    (n : ℕ) (text : Bytes)
    → is_utf8 text ≡ true
    → are_ascii (take n (to_ascii_lowercase text)) ≡ true
    → is_utf8 (drop n text) ≡ true
unfolding to_ascii_lowercase
drop-is_utf8 zero text e h = e
drop-is_utf8 (suc n) [] e h = e
drop-is_utf8 (suc n) (b ∷ bs) e h =
    let (here, later) =
      both (ltb (if leb b'A' b && leb b b'Z' then b + 32 else b) 0x80)
        (are_ascii (take n (to_ascii_lowercase bs))) h in
    drop-is_utf8 n bs (behind_ascii b bs (ascii_lowercase b here) e) later

-- A text starts at a boundary.
start-boundary : (text : Bytes) → is_utf8 text ≡ true → is_char_boundary 0 text ≡ true
unfolding is_utf8 first_byte
start-boundary [] e = refl
start-boundary (b ∷ bs) e = ground (arith, e)

pub from_27-some :
    (line : Bytes)
    → is_utf8 line ≡ true
    → take 27 (to_ascii_lowercase line) ≡ proxy_auth_header_prefix
    → leb 27 (length line) ≡ true
    → from_27 line ≡ some (drop 27 line)
from_27-some line text header long =
    let rest = drop-is_utf8 27 line text (ap are_ascii header) in
    let boundary : is_char_boundary 27 line ≡ true =
      ap (λ (b : ℕ). ltb b 0x80 || leb 0xc0 b) (sym (get_or-drop 27 27 0 line refl))
      ∙ start-boundary (drop 27 line) rest in
    ap (λ (x : Bool). if x && is_char_boundary 27 line then some (drop 27 line) else none) long
    ∙ ap (λ (x : Bool). if x then some (drop 27 line) else none) boundary
