-- ===== src/WebSocket/Types.antt =====
-- The state of `WebsocketStream` of `src/websocket/websocket_stream.rs`. The generator of random masks
-- is a parameter where frames are packed; `draws` counts the masks drawn from it.
use shoes_on_shuttle.Common.{
  ◌∷◌, ℕ, ◌-◌, ◌+◌, Bytes, [], ◌==◌, ltb, Bool, false, if◌then◌else◌, length, take, drop, splice,
  Option, none, some, leb,
}
use shoes_on_shuttle.Poll.{Peer}

pub data ReadState : Type 0 where
  init : ReadState
  read_length : (length_bytes_len : ℕ) → ReadState
  read_mask read_binary_content read_ping_content skip_content : ReadState

pub data OpCode : Type 0 where
  continue text binary close ping pong : OpCode
  unknown : ℕ → OpCode

-- `OpCode::from`.
abbrev pub op_code_from : ℕ → OpCode
op_code_from code =
    if code == 0
    then continue
    else if code == 1
    then text
    else if code == 2
    then binary
    else if code == 8
    then close
    else if code == 9
    then ping
    else if code == 10
    then pong
    else unknown code

-- `WebsocketPingType` of `src/config.rs`.
pub data WebsocketPingType : Type 0 where
  disabled ping_frame empty_frame : WebsocketPingType

pub record WebsocketStream : Type 0 where
  pub stream : Peer
  pub is_client : Bool
  pub ping_type : WebsocketPingType
  pub pending_initial_data : Bool
  pub read_state : ReadState
  pub read_frame_masked : Bool
  pub read_frame_opcode : OpCode
  pub read_frame_length : ℕ
  pub read_frame_mask : Bytes
  pub read_frame_mask_offset : ℕ
  pub unprocessed_buf : Bytes
  pub unprocessed_start_offset : ℕ
  pub unprocessed_end_offset : ℕ
  pub write_frame : Bytes
  pub write_frame_start_offset : ℕ
  pub write_frame_end_offset : ℕ
  pub ping_data : Bytes
  pub ping_data_size : ℕ
  pub pending_write_pong : Bool
  pub draws : ℕ

-- The buffers as `allocate_vec` gives them, of 16384, 32768 and 80 bytes.
pub record Buffers : Type 0 where
  pub unprocessed : Bytes
  pub write : Bytes
  pub ping : Bytes

-- `Self { … }` of `WebsocketStream::new`.
unfoldable pub started : Buffers → Peer → Bool → WebsocketPingType → Bytes → WebsocketStream
started buffers stream is_client ping_type unprocessed_data = record {
  stream = stream;
  is_client = is_client;
  ping_type = ping_type;
  pending_initial_data = ltb 0 (length unprocessed_data);
  read_state = init;
  read_frame_masked = false;
  read_frame_opcode = unknown 99;
  read_frame_length = 0;
  read_frame_mask = 0 ∷ 0 ∷ 0 ∷ 0 ∷ [];
  read_frame_mask_offset = 0;
  unprocessed_buf = splice buffers.unprocessed 0 unprocessed_data;
  unprocessed_start_offset = 0;
  unprocessed_end_offset = length unprocessed_data;
  write_frame = buffers.write;
  write_frame_start_offset = 0;
  write_frame_end_offset = 0;
  ping_data = buffers.ping;
  ping_data_size = 0;
  pending_write_pong = false;
  draws = 0;
}

-- More unprocessed data than the buffer holds panics.
unfoldable pub new : Buffers → Peer → Bool → WebsocketPingType → Bytes → Option WebsocketStream
unfolding started
new buffers stream is_client ping_type unprocessed_data =
    if leb (length unprocessed_data) (length buffers.unprocessed)
    then some (started buffers stream is_client ping_type unprocessed_data)
    else none

abbrev pub unprocessed_len : WebsocketStream → ℕ
unprocessed_len s = s.unprocessed_end_offset - s.unprocessed_start_offset

-- `unprocessed_buf[start..end]`.
abbrev pub unprocessed : WebsocketStream → Bytes
unprocessed s = take (unprocessed_len s) (drop s.unprocessed_start_offset s.unprocessed_buf)

-- `unprocessed_start_offset += n`, and both offsets back to 0 at the end.
unfoldable pub advance : ℕ → WebsocketStream → WebsocketStream
advance n s =
    let start = s.unprocessed_start_offset + n in
    let at_end = start == s.unprocessed_end_offset in
    record s {
      unprocessed_start_offset = if at_end then 0 else start;
      unprocessed_end_offset = if at_end then 0 else s.unprocessed_end_offset;
    }
