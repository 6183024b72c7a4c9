-- ===== src/WebSocket/Accepting.antt =====
-- `poll_write` of `src/websocket/websocket_stream.rs` as a whole.
use shoes_on_shuttle.WebSocket.Encode.{
  pack_write_pong_frame, append_frame, available_space, pack_write_frame, do_write_frame,
}
use shoes_on_shuttle.WebSocket.Write.{
  not_pending, retry_pong, Polled, returned, out_of_fuel, panic, write_input, total_written,
  after_write, poll_write,
}
use shoes_on_shuttle.WebSocket.Roundtrip.{packed}
use shoes_on_shuttle.Common.{
  append-nil, length-drop, ℕ, zero, suc, Bool, true, false, Bytes, [], ◌++◌, sym, refl, arith, drop,
  take, length, ◌≡◌, ◌+◌, ◌-◌, ◌<◌, if◌then◌else◌, ltb, leb, min, inl, inr, Bool-cases, lt-or-le,
}
use mathlib.Core.Path.{subst}
use shoes_on_shuttle.Stream.{Result, success, failure}
use shoes_on_shuttle.Poll.{ready, pending}
use shoes_on_shuttle.WebSocket.Types.{WebsocketStream}
use shoes_on_shuttle.WebSocket.Outbox.{Outgoing, do_write_frame-Outgoing}
use shoes_on_shuttle.WebSocket.Accept.{Accepted, packed_more}

-- `poll_write` has returned, and says how much of `buf` is accepted. Of an error, it does not.
abbrev pub Accepts : Bytes → Bytes → Polled ℕ → Type 0
Accepts buf total (returned (success (ready n)) s) = Accepted buf total n s
Accepts buf total (returned (success pending) s) = Accepted buf total 0 s
Accepts buf total (returned (failure e) s) = (n : ℕ) × Accepted buf total n s
Accepts buf total panic = ⊥
Accepts buf total out_of_fuel = ⊥

total_written-Accepts :
    (buf total : Bytes) (written : ℕ) (s : WebsocketStream)
    → Accepted buf total written s
    → Accepts buf total (total_written written s)
total_written-Accepts buf total zero s a = a
total_written-Accepts buf total (suc written) s a =
    let some_written : ltb 0 (suc written) ≡ true = ground arith in
    subst
      (λ (b : Bool).
        Accepts buf total (returned (success (if b then ready (suc written) else pending)) s))
      (sym some_written) a

flushed-Accepted :
    (buf total : Bytes) (written : ℕ) (s : WebsocketStream)
    → Accepted buf total written s
    → Accepted buf total written (do_write_frame s).1
flushed-Accepted buf total written s a = record {
  frames = a.frames;
  are_frames = a.are_frames;
  taken = a.taken;
  some_of = a.some_of;
  outgoing = do_write_frame-Outgoing s (total ++ packed a.frames) a.outgoing;
}

after_write-Accepts :
    (again : WebsocketStream → Polled ℕ) (buf total : Bytes) (written : ℕ)
    (r : Result (Unit {0}) × WebsocketStream)
    → Accepted buf total written r.1
    → (r.1.write_frame_end_offset ≡ 0 → Accepts buf total (again r.1))
    → Accepts buf total (after_write again written r)
after_write-Accepts again buf total written (failure e, s) a h = (written, a)
after_write-Accepts again buf total written (success _, s) a h =
    let Goal = λ (b : Bool). Accepts buf total (if b then total_written written s else again s) in
    elim (Bool-cases (ltb 0 s.write_frame_end_offset)) [
      | inl left ↦ subst Goal (sym left) (total_written-Accepts buf total written s a)
      | inr empty ↦ subst Goal (sym empty) (h (ground arith))
    ]

module _ (rng : ℕ → Bytes) (draws : (n : ℕ) → length (rng n) ≡ 4) (buf total : Bytes) where
  write_input-Accepts :
      (fuel written : ℕ) (s : WebsocketStream)
      → Accepted buf total written s
      → length buf - written + (if ltb (available_space s) 40 then 1 else 0) < fuel
      → Accepts buf total (write_input rng buf fuel written s)
  unfolding write_input pack_write_frame
  write_input-Accepts zero written s a enough = absurd (omega arith)
  write_input-Accepts (suc fuel) written s a enough =
      let input : Bytes = drop written buf in
      let again = λ (n : ℕ) (t : WebsocketStream). write_input rng buf fuel (written + n) t in
      let step =
        λ (p : ℕ × WebsocketStream). after_write (again p.0) (written + p.0) (do_write_frame p.1) in
      let Goal = λ (b : Bool).
        Accepts buf total
          (if b then total_written written s else step (pack_write_frame rng input s)) in
      let amount = min (length input) (available_space s - 14) in
      let Packed = λ (b : Bool).
        Accepts buf total
          (step (if b then (0, s) else (amount, append_frame rng 0x02 (take amount input) s))) in
      let round : (n : ℕ) (s' : WebsocketStream)
          → Accepted buf total (written + n) s'
          → length buf - (written + n) < fuel
          → Accepts buf total (step (n, s')) =
        λ n s' a' less.
          let r = do_write_frame s' in
          let a'' = flushed-Accepted buf total (written + n) s' a' in
          after_write-Accepts (again n) buf total (written + n) r a'' (λ empty.
            let space = a''.outgoing.size in
            let no_more : ◌≡◌ {A = ℕ} (if ltb (available_space r.1) 40 then 1 else 0) 0 =
              ground (arith, space, empty) in
            write_input-Accepts fuel (written + n) r.1 a'' (omega (arith, no_more, less))) in
      elim (Bool-cases (leb (length buf) written)) [
        | inl all ↦ subst Goal (sym all) (total_written-Accepts buf total written s a)
        | inr some_left ↦ subst Goal (sym some_left) (elim (lt-or-le (available_space s) 40) [
          | inl full ↦
              let no_space : ltb (available_space s) 40 ≡ true = ground arith in
              let same : written ≡ written + 0 = omega arith in
              subst Packed (sym no_space) (
                round 0 s (subst (λ (k : ℕ). Accepted buf total k s) same a)
                  (ground (arith, enough, no_space)))
          | inr space ↦
              let some_space : ltb (available_space s) 40 ≡ false = ground arith in
              subst Packed (sym some_space) (
                round amount (append_frame rng 2 (take amount input) s)
                  (packed_more rng draws buf total written s a space)
                  (ground (arith, enough, some_space, some_left, length-drop written buf)))
        ])
      ]

  -- `poll_write`, when no pong is pending, returns, and what it reports as written is packed, in order
  -- and nothing else, into data frames behind all that was outgoing, of which `poll_write` loses and
  -- reorders nothing: what was sent with what waits in the frame buffer is what was outgoing before and
  -- then these frames. This holds for an error too, with some number of bytes, and where `poll_write`
  -- is pending no byte is packed. Conditions: the masks are of four bytes, and the frame buffer has its
  -- 32768 bytes and its offsets in order.
  pub poll_write-Accepts :
      (s : WebsocketStream)
      → s.pending_write_pong ≡ false
      → Outgoing s total
      → Accepts buf total (poll_write rng buf s)
  unfolding poll_write
  poll_write-Accepts s no_pong o =
      let start : Accepted buf total 0 s = record {
        frames = [];
        are_frames = tt;
        taken = refl;
        some_of = omega arith;
        outgoing = subst (λ (b : Bytes). Outgoing s b) (sym (append-nil total)) o;
      } in
      let write = write_input rng buf (suc (suc (length buf))) 0 in
      let pong = pack_write_pong_frame rng s in
      let Goal = λ (b : Bool). Accepts buf total (
        if b
        then if pong.0
          then write (not_pending pong.1)
          else retry_pong rng write (do_write_frame pong.1)
        else write s) in
      subst Goal (sym no_pong)
        (write_input-Accepts (suc (suc (length buf))) 0 s start (ground arith))
