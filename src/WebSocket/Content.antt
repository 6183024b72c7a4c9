-- ===== src/WebSocket/Content.antt =====
-- The steps by which `WebsocketStream` of `src/websocket/websocket_stream.rs` takes the content of
-- frames. They may end by calling `step_init`, which is their argument `again`.
use Prim.Native.String.{String}
use shoes_on_shuttle.Common.{
  Bytes, drop, ◌%◌, ltb, true, ◌==◌, ◌+◌, take, if◌then◌else◌, get_or, splice, length, min, ℕ, ◌-◌,
  ◌++◌,
}
use shoes_on_shuttle.WebSocket.Frame.{apply_mask}
use shoes_on_shuttle.WebSocket.Types.{init, advance, ReadState, unprocessed_len, WebsocketStream}

-- The stream and the `ReadBuf` of the caller.
pub record Reading : Type 0 where
  pub ws : WebsocketStream
  pub filled : Bytes
  pub capacity : ℕ

pub data Pulled : Type 0 where
  done : Reading → Pulled
  failed : String → Reading → Pulled
  panic : Pulled
  out_of_fuel : Pulled

abbrev pub Pull : Type 0
Pull = Reading → Pulled

abbrev pub with_ws : (WebsocketStream → WebsocketStream) → Reading → Reading
with_ws f r = record r { ws = f r.ws }

abbrev pub enter : ReadState → WebsocketStream → WebsocketStream
enter state s = record s { read_state = state }

-- `unprocessed_buf[unprocessed_start_offset + i]`.
abbrev pub byte_ahead : WebsocketStream → ℕ → ℕ
byte_ahead s i = get_or s.unprocessed_buf (s.unprocessed_start_offset + i) 0

abbrev pub bytes_ahead : WebsocketStream → ℕ → Bytes
bytes_ahead s n = take n (drop s.unprocessed_start_offset s.unprocessed_buf)

unfoldable pub step_skip_content : Pull → Pull
unfolding advance
step_skip_content again r =
    let skip_amount = min (unprocessed_len r.ws) r.ws.read_frame_length in
    let left = r.ws.read_frame_length - skip_amount in
    let skipped = with_ws (λ s. record (advance skip_amount s) { read_frame_length = left }) r in
    if ltb 0 r.ws.read_frame_length
    then if ltb 0 left then done skipped else again (with_ws (enter init) skipped)
    else again (with_ws (enter init) r)

-- The content where it stands, unmasked if the frame is masked, and the offset in the mask after it.
abbrev pub unmasked_content : WebsocketStream → ℕ → Bytes
unmasked_content s n =
    if s.read_frame_masked
    then apply_mask s.read_frame_mask s.read_frame_mask_offset (bytes_ahead s n)
    else bytes_ahead s n

abbrev pub unmask_in_place : ℕ → WebsocketStream → WebsocketStream
unmask_in_place n s = record s {
  unprocessed_buf = splice s.unprocessed_buf s.unprocessed_start_offset (unmasked_content s n);
  read_frame_mask_offset =
      if s.read_frame_masked then (s.read_frame_mask_offset + n) % 4 else s.read_frame_mask_offset;
}

-- The offset of the unprocessed data is left as it is.
unfoldable pub step_read_ping_content : Pull → Pull
unfolding advance apply_mask
step_read_ping_content again r =
    let n = min (unprocessed_len r.ws) r.ws.read_frame_length in
    let content = unmasked_content r.ws n in
    let copied =
      with_ws
        (λ s. record (unmask_in_place n s) {
          ping_data = splice s.ping_data s.ping_data_size content;
          ping_data_size = s.ping_data_size + n;
          read_frame_length = s.read_frame_length - n;
        })
        r in
    let whole =
      with_ws
        (λ s. record s { read_frame_mask_offset = 0; read_state = init; pending_write_pong = true })
        copied in
    if n == 0
    then done r
    else if ltb (length r.ws.ping_data) (r.ws.ping_data_size + n)
    then panic
    else if r.ws.read_frame_length - n == 0
    then again whole
    else done copied

unfoldable pub step_read_binary_content : Pull → Pull
unfolding advance apply_mask
step_read_binary_content again r =
    let available_space = r.capacity - length r.filled in
    let n = min (min (unprocessed_len r.ws) r.ws.read_frame_length) available_space in
    let left = r.ws.read_frame_length - n in
    let taken : Reading = record r {
      filled = r.filled ++ unmasked_content r.ws n;
      ws = record (advance n (unmask_in_place n r.ws)) { read_frame_length = left };
    } in
    let whole = with_ws (λ s. record s { read_frame_mask_offset = 0; read_state = init }) taken in
    if available_space == 0
    then done r
    else if n == 0
    then done r
    else if left == 0
    then again whole
    else done taken
