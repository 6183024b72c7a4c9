-- ===== src/Common/Text.antt =====
-- Text as its bytes in UTF-8, and the functions of `str` that the handlers call.
use shoes_on_shuttle.Common.{
  ℕ, Bool, Bytes, [], ◌∷◌, drop, take, length, ◌+◌, ◌-◌, ◌&&◌, if◌then◌else◌, ltb, leb, get_or,
  bytes_eq, ◌||◌,
}
use Prim.Native.String.{String}
use Prim.Native.Char.{code}

abbrev pub bytes_of : String → Bytes
bytes_of String.[] = []
bytes_of (String.◌∷◌ c s) = code c ∷ bytes_of s

abbrev pub crlf : Bytes
crlf = 13 ∷ 10 ∷ []

-- `text.starts_with(prefix)`.
unfoldable pub starts_with : Bytes → Bytes → Bool
starts_with prefix text =
    leb (length prefix) (length text) && bytes_eq (take (length prefix) text) prefix

-- `text.ends_with(suffix)`.
unfoldable pub ends_with : Bytes → Bytes → Bool
ends_with suffix text =
    leb (length suffix) (length text) && bytes_eq (drop (length text - length suffix) text) suffix

-- `to_ascii_lowercase`.
unfoldable pub to_ascii_lowercase : Bytes → Bytes
to_ascii_lowercase [] = []
to_ascii_lowercase (c ∷ cs) =
    (if leb b'A' c && leb c b'Z' then c + 32 else c) ∷ to_ascii_lowercase cs

-- `is_char_boundary`, for a place in the text.
abbrev pub is_char_boundary : ℕ → Bytes → Bool
is_char_boundary i text = let b = get_or text i 0 in ltb b 0x80 || leb 0xc0 b
