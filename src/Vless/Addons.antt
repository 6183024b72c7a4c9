-- ===== src/Vless/Addons.antt =====
-- `read_varint` and `read_addons` of `src/vless_handler.rs`.
use shoes_on_shuttle.Common.{
  ℕ, ◌+◌, ◌-◌, ◌*◌, ◌%◌, ◌^◌, Bytes, [], ◌∷◌, ◌||◌, ◌==◌, ltb, leb, Option, none, some,
  if◌then◌else◌, length, take, drop,
}
use shoes_on_shuttle.Stream.{Io, Outcome, pure, fail, ensure, expect, read_exact, ◌>>=◌, other}

-- `(length << 8) | byte`, on a `u64`.
abbrev pub shift_in : ℕ → ℕ → ℕ
shift_in len byte = len * 256 % 2 ^ 64 + byte

-- The loop of `read_varint`, on what is left of the data from the cursor on. Reading behind the data
-- panics.
unfoldable pub read_varint_from : Bytes → ℕ → ℕ → ℕ → Io (ℕ × ℕ)
read_varint_from [] cursor len size = λ s. Outcome.panic
read_varint_from (byte ∷ rest) cursor len size =
    let more = read_varint_from rest (cursor + 1) (shift_in len (byte - 128)) size in
    if ltb byte 128
    then pure (shift_in len byte, cursor + 1)
    else if cursor == 7 || cursor == size
    then fail other "Varint is too long"
    else more

-- The value, and the number of bytes it took.
unfoldable pub read_varint : Bytes → Io (ℕ × ℕ)
unfolding read_varint_from
read_varint bytes = read_varint_from bytes 0 0 (length bytes)

-- `&bytes[from..from + len]`.
abbrev slice : Bytes → ℕ → ℕ → Option Bytes
slice bytes from len =
    if leb (from + len) (length bytes) then some (take len (drop from bytes)) else none

-- What `read_addons` makes of the bytes that it has read.
unfoldable pub parse_addons : Bytes → ℕ → Io (Unit {0})
unfolding read_varint
parse_addons addon_bytes addon_length = do
  (flow_length, flow_used) ← read_varint addon_bytes
  flow_bytes ← expect (slice addon_bytes flow_used flow_length)
  let seed_at = flow_used + flow_length
  (seed_length, seed_used) ← read_varint (drop seed_at addon_bytes)
  seed_bytes ← expect (slice addon_bytes (seed_at + seed_used) seed_length)
  let addon_cursor = seed_at + seed_used + seed_length
  ensure (addon_cursor % 256 == addon_length) other "Did not consume all addon bytes"

unfoldable pub read_addons : ℕ → Io (Unit {0})
unfolding parse_addons
read_addons addon_length = do
  addon_bytes ← read_exact addon_length
  parse_addons addon_bytes addon_length
