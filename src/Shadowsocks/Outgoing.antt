-- ===== src/Shadowsocks/Outgoing.antt =====
-- What `ShadowsocksStream` of `src/shadowsocks/shadowsocks_stream.rs` still has to write, as bytes.
use shoes_on_shuttle.Common.{
  append_assoc, append-nil, ℕ, Bool, true, false, List, Bytes, [], ◌∷◌, ◌++◌, ◌∙◌, sym, ap, refl,
  arith, drop, take, length, ◌≡◌, ◌+◌, ◌≤◌, ◌==◌, if◌then◌else◌, inl, inr, Bool-cases,
}
use mathlib.Core.Path.{subst}
use shoes_on_shuttle.Common.Holds.{Holds, Holds-drop, Holds-length, drop-all, take-drop}
use shoes_on_shuttle.Stream.{ErrorKind, IoError, Result, success, failure}
use shoes_on_shuttle.Poll.{Poll, ready, pending, Peer, poll_write, WriteAnswer}
use shoes_on_shuttle.Poll.Sends.{written_by, Sends, answer_write-Sends}
use shoes_on_shuttle.Shadowsocks.Types.{BoundKey, ShadowsocksStream, metadata_size, max_payload_len}
use shoes_on_shuttle.Shadowsocks.Encrypt.{
  cached, cache_written, on_written, write_loop, do_write_cache,
}

-- The write cache has its size, the next key is `k`, and what was sent with what waits in the cache is
-- `total`.
pub record Outgoing (s : ShadowsocksStream) (k : BoundKey) (total : Bytes) : Type 0 where
  pub size : length s.write_cache ≡ max_payload_len s.stream_type + metadata_size
  pub key : s.sealing_key ≡ k
  pub rest : Bytes
  pub waiting : Holds s.write_cache s.write_cache_start_offset s.write_cache_end_offset rest
  pub total_is : s.stream.sent ++ rest ≡ total

cache_written-Holds :
    (n : ℕ) (s : ShadowsocksStream) (bytes : Bytes)
    → Holds s.write_cache s.write_cache_start_offset s.write_cache_end_offset bytes
    → n ≤ length bytes
    → Holds s.write_cache
        (cache_written n s).write_cache_start_offset
        (cache_written n s).write_cache_end_offset
        (drop n bytes)
unfolding cache_written
cache_written-Holds n s bytes h l =
    let start = s.write_cache_start_offset in
    let end = s.write_cache_end_offset in
    let size = Holds-length s.write_cache start end bytes h in
    let Goal = λ (b : Bool).
      Holds s.write_cache (if b then 0 else start + n) (if b then 0 else end) (drop n bytes) in
    elim (Bool-cases (start + n == end)) [
      | inl all ↦ subst Goal (sym all) (record {
        ordered = omega arith;
        in_buf = omega arith;
        same = sym (drop-all n bytes (ground (arith, size, all)));
      })
      | inr some_left ↦ subst Goal (sym some_left) (Holds-drop s.write_cache start end bytes h n l)
    ]

nothing_sent :
    (s : ShadowsocksStream) (answer : Result (Poll ℕ) × Peer) (k : BoundKey) (total : Bytes)
    (o : Outgoing s k total)
    → Sends o.rest s.stream answer
    → written_by answer.0 ≡ 0
    → Outgoing (record s { stream = answer.1 }) k total
nothing_sent s answer k total o sends no_byte = record {
  size = o.size;
  key = o.key;
  rest = o.rest;
  waiting = o.waiting;
  total_is =
      ap (λ (b : Bytes). b ++ o.rest)
        (sends.sent_now
          ∙ ap (λ (n : ℕ). s.stream.sent ++ take n o.rest) no_byte
          ∙ append-nil s.stream.sent)
      ∙ o.total_is;
}

-- `do_write_cache` sends nothing else and keeps the order; where it reports that all was written, the
-- cache is empty and its offsets are 0.
abbrev pub Writes : BoundKey → Bytes → Result Bool × ShadowsocksStream → Type 0
Writes k total (success true, s) =
    Outgoing s k total × (s.write_cache_start_offset ≡ 0) × (s.write_cache_end_offset ≡ 0)
Writes k total (success false, s) = Outgoing s k total
Writes k total (failure e, s) = Outgoing s k total

on_written-Writes :
    (again : ShadowsocksStream → Result Bool × ShadowsocksStream) (s : ShadowsocksStream)
    (answer : Result (Poll ℕ) × Peer) (k : BoundKey) (total : Bytes) (o : Outgoing s k total)
    → ((t : ShadowsocksStream) → Outgoing t k total → Writes k total (again t))
    → Sends o.rest s.stream answer
    → Writes k total (on_written again answer.0 (record s { stream = answer.1 }))
unfolding on_written cache_written
on_written-Writes again s (success (ready n), peer) k total o h sends =
    let s' : ShadowsocksStream = record s { stream = peer } in
    let t : ShadowsocksStream = cache_written n s' in
    let at_end = s.write_cache_start_offset + n == s.write_cache_end_offset in
    let moved : Outgoing t k total = record {
      size = o.size;
      key = o.key;
      rest = drop n o.rest;
      waiting = cache_written-Holds n s' o.rest o.waiting sends.some_of;
      total_is =
          ap (λ (b : Bytes). b ++ drop n o.rest) sends.sent_now
          ∙ append_assoc s.stream.sent (take n o.rest) (drop n o.rest)
          ∙ ap (◌++◌ s.stream.sent) (take-drop n o.rest)
          ∙ o.total_is;
    } in
    let Goal = λ (b : Bool). Writes k total (if b then (success true, t) else again t) in
    let after : Goal at_end = elim (Bool-cases at_end) [
      | inl whole ↦ subst Goal (sym whole) (
        moved,
        ap (λ (b : Bool). if b then 0 else s.write_cache_start_offset + n) whole,
        ap (λ (b : Bool). if b then 0 else s.write_cache_end_offset) whole,
      )
      | inr part ↦ subst Goal (sym part) (h t moved)
    ] in
    let eof : IoError = record {
      kind = ErrorKind.unexpected_eof;
      message = "EOF while writing cached encrypted data";
    } in
    let Fails = λ (b : Bool).
      Writes k total
        (if b then (failure eof, s') else if at_end then (success true, t) else again t) in
    elim (Bool-cases (n == 0)) [
      | inl stopped ↦
          subst Fails (sym stopped)
            (nothing_sent s (success (ready n), peer) k total o sends (ground (arith, stopped)))
      | inr some_bytes ↦ subst Fails (sym some_bytes) after
    ]
on_written-Writes again s (success pending, peer) k total o h sends =
    nothing_sent s (success pending, peer) k total o sends refl
on_written-Writes again s (failure e, peer) k total o h sends =
    nothing_sent s (failure e, peer) k total o sends refl

write_loop-Writes :
    (answers : List WriteAnswer) (s : ShadowsocksStream) (k : BoundKey) (total : Bytes)
    → Outgoing s k total
    → Writes k total (write_loop answers s)
unfolding write_loop
write_loop-Writes [] s k total o = o
write_loop-Writes (answer ∷ later) s k total o =
    let result = poll_write (cached s) s.stream in
    let sends : Sends o.rest s.stream result =
      subst (λ (b : Bytes). Sends b s.stream result) o.waiting.same
        (answer_write-Sends s.stream.accepting (cached s) s.stream) in
    on_written-Writes (write_loop later) s result k total o (λ t. write_loop-Writes later t k total)
      sends

pub do_write_cache-Writes :
    (s : ShadowsocksStream) (k : BoundKey) (total : Bytes)
    → Outgoing s k total
    → Writes k total (do_write_cache s)
unfolding do_write_cache
do_write_cache-Writes s k total o = write_loop-Writes s.stream.accepting s k total o
