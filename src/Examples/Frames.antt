-- ===== src/Examples/Frames.antt =====
-- The theorems on what `src/websocket/websocket_stream.rs` reads, at two frames of three bytes.
use shoes_on_shuttle.WebSocket.Arrive.{poll_frames-arrived}
use shoes_on_shuttle.Common.{true, false, none, some, [], ◌∷◌, refl, arith, length, ◌≡◌, ◌≤◌, ◌<◌}
use shoes_on_shuttle.Poll.{Peer, arrived}
use shoes_on_shuttle.WebSocket.Types.{WebsocketStream, Buffers, started, disabled, unprocessed_len}
use shoes_on_shuttle.WebSocket.Frame.{pack_frame}
use shoes_on_shuttle.WebSocket.Content.{Reading, done, step_read_ping_content}
use shoes_on_shuttle.WebSocket.Decode.{step_init}
use shoes_on_shuttle.WebSocket.Fuel.{has_ended, step_init-ends}
use shoes_on_shuttle.WebSocket.Taken.{Between, GoesOn, Headed}
use shoes_on_shuttle.WebSocket.Roundtrip.{Frames, AreFrames, packed, step_init-packed}
use shoes_on_shuttle.WebSocket.Read.{poll_frames}
use shoes_on_shuttle.WebSocket.Deliver.{Delivers, Fresh, started-Fresh, poll_frames-initial}
use shoes_on_shuttle.WebSocket.Pings.{Pinged, step_read_ping_content-all}

abbrev two_frames : Frames
two_frames = (some (1 ∷ 2 ∷ 3 ∷ 4 ∷ []), 72 ∷ 105 ∷ []) ∷ (none, 33 ∷ []) ∷ []

two_frames-AreFrames : AreFrames two_frames
two_frames-AreFrames = (refl, omega arith, (tt, omega arith, tt))

two_frames_size : length (packed two_frames) ≡ 11
unfolding pack_frame
two_frames_size = refl

abbrev buffers : Buffers
buffers = record {
  unprocessed = 0 ∷ 0 ∷ 0 ∷ 0 ∷ 0 ∷ 0 ∷ 0 ∷ 0 ∷ 0 ∷ 0 ∷ 0 ∷ 0 ∷ [];
  write = 0 ∷ 0 ∷ [];
  ping = 0 ∷ 0 ∷ 0 ∷ 0 ∷ [];
}

abbrev peer : Peer
peer = record {
  arriving = arrived (packed two_frames) ∷ [];
  accepting = [];
  flushing = [];
  sent = [];
}

abbrev server : WebsocketStream
server = started buffers peer false disabled (packed two_frames)

server-Fresh : Fresh server (packed two_frames) true
unfolding pack_frame
server-Fresh = started-Fresh buffers peer false disabled (packed two_frames) (omega arith)

abbrev reading : Reading
reading = record { ws = server; filled = []; capacity = 10 }

reading-Between : Between reading (packed two_frames) [] 10
reading-Between = record {
  ahead = server-Fresh.ahead;
  offset = server-Fresh.offset;
  filled_so_far = refl;
  same_capacity = refl;
}

step_init-packed_example : GoesOn done (step_init 3 reading) [] (72 ∷ 105 ∷ 33 ∷ []) 10
step_init-packed_example =
    step_init-packed two_frames 3 reading [] 10 two_frames-AreFrames (omega arith) (omega arith)
      reading-Between

reading_size : unprocessed_len reading.ws < 12
unfolding started pack_frame
reading_size = omega arith

step_init-ends_example : has_ended (step_init 12 reading) ≡ true
step_init-ends_example = step_init-ends 12 reading reading_size

poll_frames-initial_example : Delivers (poll_frames 1 reading) [] (72 ∷ 105 ∷ 33 ∷ []) 10
poll_frames-initial_example =
    poll_frames-initial two_frames server 10 0 two_frames-AreFrames (omega arith) (omega arith)
      server-Fresh

-- A stream that the frames have not reached yet.
abbrev waiting : WebsocketStream
waiting = started buffers peer false disabled []

waiting-Fresh : Fresh waiting [] false
waiting-Fresh = started-Fresh buffers peer false disabled [] (omega arith)

waiting_arriving : waiting.stream.arriving ≡ arrived (packed two_frames) ∷ []
unfolding started
waiting_arriving = refl

waiting_room : length (packed two_frames) ≤ length waiting.unprocessed_buf
unfolding started pack_frame
waiting_room = omega arith

poll_frames-arrived_example :
    Delivers
      (poll_frames 1 (record { ws = waiting; filled = []; capacity = 10 }))
      []
      (72 ∷ 105 ∷ 33 ∷ [])
      10
poll_frames-arrived_example =
    poll_frames-arrived two_frames waiting [] 10 0 two_frames-AreFrames (omega arith) (omega arith)
      waiting-Fresh waiting_arriving waiting_room

-- A ping whose two bytes of content are the first that is unprocessed.
abbrev pinged : Reading
pinged = record {
  ws = record (started buffers peer false disabled (5 ∷ 6 ∷ 7 ∷ [])) { read_frame_length = 2 };
  filled = [];
  capacity = 10;
}

pinged-Headed : Headed pinged false (0 ∷ 0 ∷ 0 ∷ 0 ∷ []) (5 ∷ 6 ∷ []) (7 ∷ [])
unfolding started
pinged-Headed = record {
  is_masked = refl;
  key_is = refl;
  offset = refl;
  whole_length = refl;
  ahead = record { ordered = omega arith; in_buf = omega arith; same = refl };
  fits = omega arith;
}

pinged_room : (pinged.ws.ping_data_size ≡ 0) × (2 ≤ length pinged.ws.ping_data)
unfolding started
pinged_room = (refl, omega arith)

step_read_ping_content-all_example :
    Pinged (step_init 1) (step_read_ping_content (step_init 1) pinged) (5 ∷ 6 ∷ []) (5 ∷ 6 ∷ 7 ∷ [])
step_read_ping_content-all_example =
    step_read_ping_content-all (step_init 1) pinged false (0 ∷ 0 ∷ 0 ∷ 0 ∷ []) (5 ∷ 6 ∷ []) (7 ∷ [])
      pinged-Headed (omega arith) pinged_room.0 pinged_room.1
