-- ===== src/WebSocket/Fuel.antt =====
-- The fuel of `step_init` of `src/websocket/websocket_stream.rs`: every frame takes two bytes of what
-- is unprocessed.
use shoes_on_shuttle.Net.Types.{be_number}
use shoes_on_shuttle.Common.{
  zero, suc, lt-or-le, inl, inr, ◌%◌, leb, ◌<◌, ◌+◌, ◌++◌, splice, ℕ, Bool, true, false, refl,
  arith, length, ◌≡◌, ◌-◌, ◌≤◌, min,
}
use shoes_on_shuttle.WebSocket.Types.{
  op_code_from, skip_content, read_ping_content, OpCode, ReadState, init, unprocessed_len, advance,
  WebsocketStream,
}
use shoes_on_shuttle.WebSocket.Decode.{
  after_length, check_other, step_init, step_read_mask, step_read_length, check_pong, start_frame,
  check_data, check_ping, start_length, check_content, step_check_content,
}
use shoes_on_shuttle.WebSocket.Content.{
  byte_ahead, bytes_ahead, unmask_in_place, unmasked_content, enter, with_ws, Reading, Pull, Pulled,
  out_of_fuel, step_skip_content, step_read_ping_content, step_read_binary_content,
}

abbrev pub has_ended : Pulled → Bool
has_ended out_of_fuel = false
has_ended _ = true

-- `again` ends wherever at most `n` bytes are unprocessed.
abbrev pub EndsBelow : Pull → ℕ → Type 0
EndsBelow again n = (r : Reading) → unprocessed_len r.ws ≤ n → has_ended (again r) ≡ true

unprocessed_len-advance :
    (n : ℕ) (s : WebsocketStream) → unprocessed_len (advance n s) ≤ unprocessed_len s - n
unfolding advance
unprocessed_len-advance n s = ground arith

module _ (again : Pull) (n : ℕ) (h : EndsBelow again n) where
  kept :
      (r r' : Reading)
      → unprocessed_len r.ws ≤ n
      → unprocessed_len r'.ws ≡ unprocessed_len r.ws
      → has_ended (again r') ≡ true
  kept r r' le e = h r' (omega (arith, e, le))

  fewer :
      (k : ℕ) (r r' : Reading)
      → unprocessed_len r.ws ≤ n
      → unprocessed_len r'.ws ≡ unprocessed_len (advance k r.ws)
      → has_ended (again r') ≡ true
  fewer k r r' le e = h r' (omega (arith, e, le, unprocessed_len-advance k r.ws))

  skip_ends :
      (r : Reading) → unprocessed_len r.ws ≤ n → has_ended (step_skip_content again r) ≡ true
  unfolding step_skip_content advance
  skip_ends r le =
      let k = min (unprocessed_len r.ws) r.ws.read_frame_length in
      let left = r.ws.read_frame_length - k in
      let skipped =
        with_ws (λ s. record (advance k s) { read_frame_length = left; read_state = init }) r in
      let f = fewer k r skipped le refl in
      let g = kept r (with_ws (enter init) r) le refl in ground (arith, f, g)

  ping_ends :
      (r : Reading) → unprocessed_len r.ws ≤ n → has_ended (step_read_ping_content again r) ≡ true
  unfolding step_read_ping_content
  ping_ends r le =
      let k = min (unprocessed_len r.ws) r.ws.read_frame_length in
      let copied =
        with_ws
          (λ s. record (unmask_in_place k s) {
            ping_data = splice s.ping_data s.ping_data_size (unmasked_content r.ws k);
            ping_data_size = s.ping_data_size + k;
            read_frame_length = s.read_frame_length - k;
            read_frame_mask_offset = 0;
            read_state = init;
            pending_write_pong = true;
          })
          r in
      let f = kept r copied le refl in ground (arith, f)

  binary_ends :
      (r : Reading) → unprocessed_len r.ws ≤ n → has_ended (step_read_binary_content again r) ≡ true
  unfolding step_read_binary_content advance
  binary_ends r le =
      let k =
        min (min (unprocessed_len r.ws) r.ws.read_frame_length) (r.capacity - length r.filled) in
      let taken : Reading = record r {
        filled = r.filled ++ unmasked_content r.ws k;
        ws = record (advance k (unmask_in_place k r.ws)) {
          read_frame_length = r.ws.read_frame_length - k;
          read_frame_mask_offset = 0;
          read_state = init;
        };
      } in
      let f = fewer k r taken le refl in ground (arith, f)

  module _ (r : Reading) (le : unprocessed_len r.ws ≤ n) where
    entered : (state : ReadState) → has_ended (again (with_ws (enter state) r)) ≡ true
    entered state = kept r (with_ws (enter state) r) le refl

    data_ends : has_ended (check_data again r) ≡ true
    unfolding check_data
    data_ends =
        let f = entered init in
        let g = binary_ends (with_ws (enter ReadState.read_binary_content) r) le in
        ground (arith, f, g)

    check_ping_ends : has_ended (check_ping again r) ≡ true
    unfolding check_ping
    check_ping_ends =
        let reset = with_ws (λ s. record s { ping_data_size = 0 }) r in
        let answered =
          with_ws (λ s. record s { read_state = init; pending_write_pong = true }) reset in
        let read =
          with_ws (λ s. record s { read_state = read_ping_content; pending_write_pong = false })
            reset in
        let f = kept r answered le refl in let g = ping_ends read le in ground (arith, f, g)

    pong_ends : has_ended (check_pong again r) ≡ true
    unfolding check_pong
    pong_ends = let f = entered init in ground (arith, f)

    other_ends : has_ended (check_other again r) ≡ true
    unfolding check_other
    other_ends =
        let f = entered init in
        let g = skip_ends (with_ws (enter skip_content) r) le in ground (arith, f, g)

    case_ends : (code : OpCode) → has_ended (check_content code again r) ≡ true
    case_ends OpCode.binary = data_ends
    case_ends OpCode.continue = data_ends
    case_ends OpCode.ping = check_ping_ends
    case_ends OpCode.pong = pong_ends
    case_ends OpCode.text = other_ends
    case_ends OpCode.close = other_ends
    case_ends (OpCode.unknown code) = other_ends

    pub content_ends : has_ended (step_check_content again r) ≡ true
    unfolding step_check_content
    content_ends = case_ends r.ws.read_frame_opcode

  pub mask_ends :
      (r : Reading) → unprocessed_len r.ws ≤ n → has_ended (step_read_mask again r) ≡ true
  unfolding step_read_mask advance
  mask_ends r le =
      let read = with_ws (λ s. record (advance 4 s) { read_frame_mask = bytes_ahead s 4 }) r in
      let f = content_ends read (omega (arith, unprocessed_len-advance 4 r.ws, le)) in
      ground (arith, f)

  after_length_ends :
      (r : Reading) → unprocessed_len r.ws ≤ n → has_ended (after_length again r) ≡ true
  unfolding after_length
  after_length_ends r le =
      let f = mask_ends (with_ws (enter ReadState.read_mask) r) le in
      let g = content_ends r le in ground (arith, f, g)

  pub length_ends :
      (k : ℕ) (r : Reading)
      → unprocessed_len r.ws ≤ n
      → has_ended (step_read_length again k r) ≡ true
  unfolding step_read_length advance
  length_ends k r le =
      let read =
        with_ws (λ s. record (advance k s) { read_frame_length = be_number (bytes_ahead r.ws k) 0 })
          r in
      let f = after_length_ends read (omega (arith, unprocessed_len-advance k r.ws, le)) in
      ground (arith, f)

  start_length_ends :
      (length : ℕ) (r : Reading)
      → unprocessed_len r.ws ≤ n
      → has_ended (start_length again length r) ≡ true
  unfolding start_length
  start_length_ends length r le =
      let f = length_ends 2 (with_ws (enter (ReadState.read_length 2)) r) le in
      let g = length_ends 8 (with_ws (enter (ReadState.read_length 8)) r) le in
      let short = after_length_ends (with_ws (λ s. record s { read_frame_length = length }) r) le in
      ground (arith, f, g, short)

  frame_ends :
      (first second : ℕ) (r : Reading)
      → unprocessed_len r.ws ≤ n
      → has_ended (start_frame again first second r) ≡ true
  unfolding start_frame
  frame_ends first second r le =
      let started =
        with_ws
          (λ s. record s {
            read_frame_masked = leb 128 second;
            read_frame_opcode = op_code_from (first % 16);
          })
          r in
      let f = start_length_ends (second % 128) started le in ground (arith, f)

-- `step_init` comes to an end, without using up the fuel, if the fuel is above the number of
-- unprocessed bytes.
pub step_init-ends :
    (fuel : ℕ) (r : Reading) → unprocessed_len r.ws < fuel → has_ended (step_init fuel r) ≡ true
unfolding step_init
step_init-ends zero r enough = absurd (omega arith)
step_init-ends (suc fuel) r enough = elim (lt-or-le (unprocessed_len r.ws) 2) [
  | inl few ↦ ground arith
  | inr two ↦
      let below : EndsBelow (step_init fuel) (unprocessed_len r.ws - 2) =
        λ r' le. step_init-ends fuel r' (omega arith) in
      let opened =
        frame_ends (step_init fuel) (unprocessed_len r.ws - 2) below (byte_ahead r.ws 0)
          (byte_ahead r.ws 1) (with_ws (advance 2) r) (unprocessed_len-advance 2 r.ws) in
      ground (arith, opened)
]
