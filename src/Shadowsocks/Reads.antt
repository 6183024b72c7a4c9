-- ===== src/Shadowsocks/Reads.antt =====
-- What `poll_read_inner` of `src/shadowsocks/shadowsocks_stream.rs` hands over, and the room it makes.
use shoes_on_shuttle.Common.{
  length-drop, length-take, ◌⊎◌, ℕ, Bool, true, Option, none, some, Bytes, ◌∙◌, sym, refl, arith,
  drop, take, length, ◌≡◌, ◌+◌, ◌-◌, ◌≤◌, ◌<◌, ◌==◌, ◌&&◌, if◌then◌else◌, ltb, min, inl, inr,
  Bool-cases, splice,
}
use mathlib.Core.Path.{subst}
use shoes_on_shuttle.Common.Splice.{length-splice}
use shoes_on_shuttle.Stream.{success, failure}
use shoes_on_shuttle.Poll.{ready, pending}
use shoes_on_shuttle.Shadowsocks.Types.{ShadowsocksStream, available_len, metadata_size}
use shoes_on_shuttle.Shadowsocks.Decrypt.{read_processed, reset_unprocessed_buf_offset}
use shoes_on_shuttle.Shadowsocks.Fits.{IsValid, SameSide, max_of}
use shoes_on_shuttle.Shadowsocks.Read.{
  PolledRead, returned, panic, out_of_fuel, after_reset, make_room, hand_over,
}

-- A read has returned, and neither panicked nor run out of its fuel: with an error, or with a stream in
-- order. Where it is ready, it has filled some of the room of the caller, or the stream has ended.
abbrev pub Reads : ℕ → PolledRead → Type 0
Reads room (returned (success (ready bytes)) s) =
    IsValid s × (length bytes ≤ room) × ((0 < length bytes) ⊎ (s.is_eof ≡ true))
Reads room (returned (success pending) s) = IsValid s
Reads room (returned (failure e) s) = Unit
Reads room panic = ⊥
Reads room out_of_fuel = ⊥

abbrev pub Roomy : ShadowsocksStream → Option ShadowsocksStream → Type 0
Roomy s none = ⊥
Roomy s (some t) = IsValid t × SameSide s t × (t.unprocessed_end_offset < length t.unprocessed_buf)

pub make_room-Roomy :
    (s : ShadowsocksStream)
    → IsValid s
    → available_len s < max_of s + metadata_size
    → Roomy s (make_room s)
unfolding make_room reset_unprocessed_buf_offset
make_room-Roomy s v more =
    let o = v.in_order in
    let full = s.unprocessed_end_offset == length s.unprocessed_buf in
    let reset = reset_unprocessed_buf_offset s in
    let Goal = λ (b : Bool). Roomy s (if b then after_reset reset else some s) in
    let bytes : Bytes =
      take (available_len s) (drop s.unprocessed_start_offset s.unprocessed_buf) in
    let buf = splice s.unprocessed_buf 0 bytes in
    let u : ShadowsocksStream = record s {
      unprocessed_buf = buf;
      unprocessed_start_offset = 0;
      unprocessed_end_offset = available_len s;
    } in
    let size : length bytes ≡ available_len s = omega (
      arith,
      length-take (available_len s) (drop s.unprocessed_start_offset s.unprocessed_buf),
      length-drop s.unprocessed_start_offset s.unprocessed_buf,
      o.unprocessed_in,
    ) in
    let left = length-splice s.unprocessed_buf bytes 0 (omega (arith, size, o.unprocessed_in)) in
    let valid : IsValid u = record {
      in_order = record {
        header_read = o.header_read;
        keyed = o.keyed;
        unprocessed_size = left ∙ o.unprocessed_size;
        processed_size = o.processed_size;
        unprocessed_in = omega (arith, left, o.unprocessed_in);
        unprocessed_none = omega arith;
        processed_none = o.processed_none;
        processed_in = o.processed_in;
        processed_some = o.processed_some;
        pending_in = o.pending_in;
        room = λ p. let before = o.room p in omega (arith, before);
      };
      unprocessed_some = λ p. p;
    } in
    let inside : available_len s < length buf = omega (arith, left, more, o.unprocessed_size) in
    elim (Bool-cases full) [
      | inl whole ↦
          let end : s.unprocessed_end_offset ≡ length s.unprocessed_buf = ground (arith, whole) in
          let moved : 0 < s.unprocessed_start_offset =
            omega (arith, end, more, o.unprocessed_size) in
          let less = v.unprocessed_some (omega (arith, end, o.unprocessed_size)) in
          let asserted : (ltb 0 s.unprocessed_start_offset
                && ltb s.unprocessed_start_offset s.unprocessed_end_offset)
              ≡ true =
            ground (arith, moved, less) in
          let below : ltb (available_len s) (length buf) ≡ true = ground (arith, inside) in
          subst Goal (sym whole) (
            subst (λ (b : Bool). Roomy s (after_reset (if b then some u else none))) (sym asserted)
              (subst (λ (b : Bool). Roomy s (if b then some u else none)) (sym below)
                (valid, (refl, refl, refl), inside)))
      | inr part ↦
          subst Goal (sym part) (v, (refl, refl, refl), ground (arith, part, o.unprocessed_in))
    ]

module _ (room : ℕ) (some_room : 0 < room) where
  pub hand_over-Reads :
      (s : ShadowsocksStream)
      → IsValid s
      → 0 < s.processed_end_offset
      → Reads room (hand_over (read_processed room s))
  unfolding read_processed
  hand_over-Reads s v p =
      let o = v.in_order in
      let start = s.processed_start_offset in
      let amount = min room (s.processed_end_offset - start) in
      let less = o.processed_some p in
      let asserted : (ltb 0 s.processed_end_offset && ltb 0 amount) ≡ true =
        ground (arith, p, less, some_room) in
      let at_end = start + amount == s.processed_end_offset in
      let bytes : Bytes = take amount (drop start s.processed_buf) in
      let at = λ (b : Bool). record s {
        processed_start_offset = if b then 0 else start + amount;
        processed_end_offset = if b then 0 else s.processed_end_offset;
      } in
      let size : length bytes ≡ amount = omega (
        arith,
        length-take amount (drop start s.processed_buf),
        length-drop start s.processed_buf,
        o.processed_in,
      ) in
      let sized : (length bytes ≤ room) × (0 < length bytes) =
        omega (arith, size, some_room, less) in
      let valid : IsValid (at at_end) = elim (Bool-cases at_end) [
        | inl ends ↦
            subst (λ (b : Bool). IsValid (at b)) (sym ends)
              (record {
                in_order = record {
                  header_read = o.header_read;
                  keyed = o.keyed;
                  unprocessed_size = o.unprocessed_size;
                  processed_size = o.processed_size;
                  unprocessed_in = o.unprocessed_in;
                  unprocessed_none = o.unprocessed_none;
                  processed_none = omega arith;
                  processed_in = omega arith;
                  processed_some = λ q. q;
                  pending_in = o.pending_in;
                  room = λ q. absurd (omega (arith, q));
                };
                unprocessed_some = v.unprocessed_some;
              })
        | inr goes_on ↦
            subst (λ (b : Bool). IsValid (at b)) (sym goes_on)
              (record {
                in_order = record {
                  header_read = o.header_read;
                  keyed = o.keyed;
                  unprocessed_size = o.unprocessed_size;
                  processed_size = o.processed_size;
                  unprocessed_in = o.unprocessed_in;
                  unprocessed_none = o.unprocessed_none;
                  processed_none = omega (arith, less);
                  processed_in = o.processed_in;
                  processed_some = λ q. ground (arith, goes_on, less);
                  pending_in = o.pending_in;
                  room = o.room;
                };
                unprocessed_some = v.unprocessed_some;
              })
      ] in
      subst (λ (b : Bool). Reads room (hand_over (if b then some (bytes, at at_end) else none)))
        (sym asserted) (valid, sized.0, inl sized.1)
