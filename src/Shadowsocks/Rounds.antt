-- ===== src/Shadowsocks/Rounds.antt =====
-- The loop of `poll_read_inner` of `src/shadowsocks/shadowsocks_stream.rs`, round by round.
use shoes_on_shuttle.Shadowsocks.Drains.{drain-Drains, Drains}
use shoes_on_shuttle.Shadowsocks.Reads.{make_room-Roomy, hand_over-Reads, Roomy, Reads}
use shoes_on_shuttle.Common.{
  [], leb, ◌∷◌, List, length-drop, length-take, ℕ, zero, suc, Bool, true, Option, none, some, Bytes,
  ◌∙◌, sym, arith, drop, take, length, ◌≡◌, ◌+◌, ◌-◌, ◌≤◌, ◌<◌, if◌then◌else◌, ltb, inl, inr,
  Bool-cases, splice,
}
use mathlib.Core.Path.{subst}
use shoes_on_shuttle.Common.Splice.{length-splice}
use shoes_on_shuttle.Stream.{Result, success, failure}
use shoes_on_shuttle.Poll.{arrived, poll_read, answer_read, ReadAnswer, Poll, Peer, ready, pending}
use shoes_on_shuttle.Shadowsocks.Types.{Cipher, ShadowsocksStream}
use shoes_on_shuttle.Shadowsocks.Decrypt.{read_processed}
use shoes_on_shuttle.Shadowsocks.Fits.{Opens, IsValid}
use shoes_on_shuttle.Shadowsocks.Read.{
  on_read, after_drain, read_more, after_room, to_come, read_loop, read_packets, PolledRead,
  returned, Drained, drained, failed, make_room, hand_over, drain,
}

-- An answer takes at most the room, and is used up or gives a byte.
abbrev pub Answers : ℕ → ℕ → Result (Poll Bytes) × Peer → Type 0
Answers room before (success (ready bytes), p) =
    (length bytes ≤ room) × (to_come p.arriving < before)
Answers room before (success pending, p) = Unit
Answers room before (failure e, p) = Unit

pub answer_read-Answers :
    (answers : List ReadAnswer) (room : ℕ) (p : Peer)
    → 0 < room
    → Answers room (to_come answers) (answer_read answers room p)
answer_read-Answers [] room p l = tt
answer_read-Answers (arrived bytes ∷ later) room p l =
    let whole : Result (Poll Bytes) × Peer =
      (success (ready bytes), record p { arriving = later }) in
    let part : Result (Poll Bytes) × Peer = (
      success (ready (take room bytes)),
      record p { arriving = arrived (drop room bytes) ∷ later },
    ) in
    let before = to_come (arrived bytes ∷ later) in
    let Goal = λ (b : Bool). Answers room before (if b then whole else part) in
    elim (Bool-cases (leb (length bytes) room)) [
      | inl fits ↦ subst Goal (sym fits) (ground (arith, fits), omega arith)
      | inr more ↦
          subst Goal (sym more)
            (omega (arith, length-take room bytes), ground (arith, length-drop room bytes, more, l))
    ]
answer_read-Answers (ReadAnswer.not_yet ∷ later) room p l = tt
answer_read-Answers (ReadAnswer.failed e ∷ later) room p l = tt

-- Nothing is processed, and the buffer has room.
record Empty (s : ShadowsocksStream) : Type 0 where
  valid : IsValid s
  nothing : s.processed_end_offset ≡ 0
  inside : s.unprocessed_end_offset < length s.unprocessed_buf

with_peer : (s : ShadowsocksStream) (p : Peer) → IsValid s → IsValid (record s { stream = p })
with_peer s p v = record {
  in_order = record {
    header_read = v.in_order.header_read;
    keyed = v.in_order.keyed;
    unprocessed_size = v.in_order.unprocessed_size;
    processed_size = v.in_order.processed_size;
    unprocessed_in = v.in_order.unprocessed_in;
    unprocessed_none = v.in_order.unprocessed_none;
    processed_none = v.in_order.processed_none;
    processed_in = v.in_order.processed_in;
    processed_some = v.in_order.processed_some;
    pending_in = v.in_order.pending_in;
    room = v.in_order.room;
  };
  unprocessed_some = v.unprocessed_some;
}

pub at_end :
    (s : ShadowsocksStream) (p : Peer)
    → IsValid s
    → IsValid (record s { stream = p; is_eof = true })
at_end s p v = record {
  in_order = record {
    header_read = v.in_order.header_read;
    keyed = v.in_order.keyed;
    unprocessed_size = v.in_order.unprocessed_size;
    processed_size = v.in_order.processed_size;
    unprocessed_in = v.in_order.unprocessed_in;
    unprocessed_none = v.in_order.unprocessed_none;
    processed_none = v.in_order.processed_none;
    processed_in = v.in_order.processed_in;
    processed_some = v.in_order.processed_some;
    pending_in = v.in_order.pending_in;
    room = v.in_order.room;
  };
  unprocessed_some = v.unprocessed_some;
}

arrived-IsValid :
    (s : ShadowsocksStream) (p : Peer) (x : ℕ) (bytes : Bytes)
    → Empty s
    → length (x ∷ bytes) ≤ length s.unprocessed_buf - s.unprocessed_end_offset
    → IsValid (record s {
      stream = p;
      unprocessed_buf = splice s.unprocessed_buf s.unprocessed_end_offset (x ∷ bytes);
      unprocessed_end_offset = s.unprocessed_end_offset + length (x ∷ bytes);
    })
arrived-IsValid s p x bytes e fits =
    let o = e.valid.in_order in
    let left =
      length-splice s.unprocessed_buf (x ∷ bytes) s.unprocessed_end_offset
        (omega (arith, fits, e.inside)) in
    record {
      in_order = record {
        header_read = o.header_read;
        keyed = o.keyed;
        unprocessed_size = left ∙ o.unprocessed_size;
        processed_size = o.processed_size;
        unprocessed_in = omega (arith, left, fits, e.inside);
        unprocessed_none = omega (arith, o.unprocessed_none);
        processed_none = o.processed_none;
        processed_in = o.processed_in;
        processed_some = o.processed_some;
        pending_in = o.pending_in;
        room = λ q. absurd (omega (arith, q, e.nothing));
      };
      unprocessed_some = λ q. omega (arith, o.unprocessed_none);
    }

module _ (room : ℕ) (again : ShadowsocksStream → PolledRead) (s : ShadowsocksStream) (e : Empty s)
    (goes_on : (t : ShadowsocksStream)
      → IsValid t
      → to_come t.stream.arriving < to_come s.stream.arriving
      → Reads room (again t)) where
  on_read-Reads :
      (answer : Result (Poll Bytes) × Peer)
      → Answers
          (length s.unprocessed_buf - s.unprocessed_end_offset)
          (to_come s.stream.arriving)
          answer
      → Reads room (on_read again again answer.0 (record s { stream = answer.1 }))
  on_read-Reads (success pending, p) a = with_peer s p e.valid
  on_read-Reads (failure x, p) a = tt
  on_read-Reads (success (ready []), p) (fits, less) =
      goes_on (record s { stream = p; is_eof = true }) (at_end s p e.valid) less
  on_read-Reads (success (ready (x ∷ bytes)), p) (fits, less) =
      goes_on _ (arrived-IsValid s p x bytes e fits) less

  read_more-Reads : Reads room (read_more again again s)
  read_more-Reads =
      let space = length s.unprocessed_buf - s.unprocessed_end_offset in
      on_read-Reads (poll_read space s.stream)
        (answer_read-Answers s.stream.arriving space s.stream (omega (arith, e.inside)))

module _ (fill_buffer : Bool) (c : Cipher) (opens : Opens c) (room : ℕ) (some_room : 0 < room) where
  after_room-Reads :
      (again : ShadowsocksStream → PolledRead) (s : ShadowsocksStream)
      (o : Option ShadowsocksStream)
      → Roomy s o
      → ((t : ShadowsocksStream)
          → IsValid t
          → to_come t.stream.arriving < to_come s.stream.arriving
          → Reads room (again t))
      → Reads room (after_room again room o)
  after_room-Reads again s none r goes_on = absurd r
  after_room-Reads again s (some t) (v, (same, _, _), inside) goes_on =
      let ended : PolledRead = returned (success (ready [])) t in
      let more = read_more again again t in
      let handed = hand_over (read_processed room t) in
      let Goal =
        λ (b : Bool). Reads room (if b then handed else if t.is_eof then ended else more) in
      let Ends = λ (b : Bool). Reads room (if b then ended else more) in
      elim (Bool-cases (ltb 0 t.processed_end_offset)) [
        | inl processed ↦
            subst Goal (sym processed)
              (hand_over-Reads room some_room t v (ground (arith, processed)))
        | inr nothing ↦ subst Goal (sym nothing) (elim (Bool-cases t.is_eof) [
          | inl eof ↦ subst Ends (sym eof) (v, omega arith, inr eof)
          | inr open_still ↦ subst Ends (sym open_still) (
              read_more-Reads room again t
                (record { valid = v; nothing = ground (arith, nothing); inside = inside })
                (λ u v' less.
                  goes_on u v' (
                    subst (λ (p : Peer). to_come u.stream.arriving < to_come p.arriving) same
                      less)))
        ])
      ]

  read_loop-Reads :
      (fuel : ℕ) (s : ShadowsocksStream)
      → IsValid s
      → to_come s.stream.arriving < fuel
      → Reads room (read_loop fill_buffer c room fuel s)
  unfolding read_loop
  read_loop-Reads zero s v l = absurd (omega arith)
  read_loop-Reads (suc fuel) s v l =
      one_round (drain fill_buffer c s) (drain-Drains fill_buffer c opens s v)
        (λ t v' less. read_loop-Reads fuel t v' (omega (arith, less, l)))
    where
      again : ShadowsocksStream → PolledRead
      again = read_loop fill_buffer c room fuel

      one_round :
          (d : Drained)
          → Drains s d
          → ((t : ShadowsocksStream)
              → IsValid t
              → to_come t.stream.arriving < to_come s.stream.arriving
              → Reads room (again t))
          → Reads room (after_drain again room d)
      one_round (drained t) (v', (same, _, _), more) goes_on =
          after_room-Reads again t (make_room t) (make_room-Roomy t v' more) (λ u w less.
            goes_on u w
              (subst (λ (p : Peer). to_come u.stream.arriving < to_come p.arriving) same less))
      one_round (failed e t) d goes_on = tt
      one_round Drained.panic d goes_on = absurd d
      one_round Drained.out_of_fuel d goes_on = absurd d

  pub read_packets-Reads :
      (s : ShadowsocksStream) → IsValid s → Reads room (read_packets fill_buffer c room s)
  read_packets-Reads s v = read_loop-Reads (suc (suc (to_come s.stream.arriving))) s v (omega arith)
