-- ===== src/Examples/Sending.antt =====
-- The theorems on what `src/websocket/websocket_stream.rs` writes, at a client with an empty buffer.
use shoes_on_shuttle.Stream.{success}
use shoes_on_shuttle.Poll.{ready, flushed, Peer, accepted}
use shoes_on_shuttle.WebSocket.Write.{flush_frame, poll_write, poll_write_ping}
use shoes_on_shuttle.WebSocket.Flush.{flush_frame_sent}
use shoes_on_shuttle.Common.{
  ◌≡◌, replicate, ℕ, true, false, some, Bytes, [], ◌∷◌, refl, arith, take, length, ◌+◌, ◌≤◌,
  length-replicate,
}
use shoes_on_shuttle.WebSocket.Types.{WebsocketStream, Buffers, started, ping_frame}
use shoes_on_shuttle.WebSocket.Frame.{pack_frame}
use shoes_on_shuttle.WebSocket.Encode.{drawn_mask, available_space}
use shoes_on_shuttle.WebSocket.Outbox.{Outgoing}
use shoes_on_shuttle.WebSocket.Accept.{length-pack_frame}
use shoes_on_shuttle.WebSocket.Accepting.{Accepts, poll_write-Accepts}
use shoes_on_shuttle.WebSocket.Pings.{Packs, poll_write_ping-pong}

length-pack_frame_example :
    (length (pack_frame 2 (some (1 ∷ 2 ∷ 3 ∷ 4 ∷ [])) (7 ∷ [])) ≤ 15)
    × (length (pack_frame 2 (some (1 ∷ 2 ∷ 3 ∷ 4 ∷ [])) []) ≤ 6)
length-pack_frame_example = length-pack_frame 2 (some (1 ∷ 2 ∷ 3 ∷ 4 ∷ [])) (7 ∷ []) refl

abbrev masks : ℕ → Bytes
masks n = 1 ∷ 2 ∷ 3 ∷ n ∷ []

size_32768 : length (replicate {A = ℕ} 32768 0) ≡ 32768
size_32768 = length-replicate {A = ℕ} 32768 0

abbrev write_buffers : Buffers
write_buffers = record { unprocessed = 0 ∷ []; write = replicate 32768 0; ping = 8 ∷ 9 ∷ [] }

abbrev slow_peer : Peer
slow_peer = record { arriving = []; accepting = accepted 3 ∷ []; flushing = []; sent = [] }

abbrev client : WebsocketStream
client = started write_buffers slow_peer true ping_frame []

client-Outgoing : Outgoing client []
unfolding started
client-Outgoing = record {
  size = size_32768;
  rest = [];
  waiting = record { ordered = omega arith; in_buf = omega arith; same = refl };
  total_is = refl;
}

no_pong : client.pending_write_pong ≡ false
unfolding started
no_pong = refl

poll_write-Accepts_example : Accepts (7 ∷ 8 ∷ []) [] (poll_write masks (7 ∷ 8 ∷ []) client)
poll_write-Accepts_example =
    poll_write-Accepts masks (λ n. refl) (7 ∷ 8 ∷ []) [] client no_pong client-Outgoing

-- A client that has read a ping of one byte.
abbrev answering : WebsocketStream
answering = record client { pending_write_pong = true; ping_data_size = 1 }

answering-Outgoing : Outgoing answering []
answering-Outgoing = record {
  size = client-Outgoing.size;
  rest = client-Outgoing.rest;
  waiting = client-Outgoing.waiting;
  total_is = client-Outgoing.total_is;
}

answering_room : answering.ping_data_size + 14 ≤ available_space answering
unfolding started
answering_room = omega (arith, size_32768)

poll_write_ping-pong_example :
    Packs
      (poll_write_ping masks answering)
      (pack_frame 0x0a (drawn_mask masks answering) (take 1 answering.ping_data))
poll_write_ping-pong_example =
    poll_write_ping-pong masks (λ n. refl) answering [] answering-Outgoing refl answering_room

-- A client whose frame of three bytes waits to be sent, to a stream that takes it.
abbrev flushing : WebsocketStream
flushing =
    record (started (record { unprocessed = []; write = 7 ∷ 8 ∷ 9 ∷ replicate 32765 0; ping = [] })
      (record {
        arriving = [];
        accepting = accepted 3 ∷ [];
        flushing = flushed ∷ [];
        sent = 6 ∷ [];
      })
      true ping_frame []) { write_frame_end_offset = 3 }

flushing-Outgoing : Outgoing flushing (6 ∷ 7 ∷ 8 ∷ 9 ∷ [])
unfolding started
flushing-Outgoing = record {
  size = omega (arith, length-replicate {A = ℕ} 32765 0);
  rest = 7 ∷ 8 ∷ 9 ∷ [];
  waiting = record {
    ordered = omega arith;
    in_buf = omega (arith, length-replicate {A = ℕ} 32765 0);
    same = refl;
  };
  total_is = refl;
}

abbrev emptied : WebsocketStream
emptied = record flushing {
  stream = record { arriving = []; accepting = []; flushing = []; sent = 6 ∷ 7 ∷ 8 ∷ 9 ∷ [] };
  write_frame_end_offset = 0;
}

flushing_done : flush_frame flushing ≡ (success (ready tt), emptied)
unfolding flush_frame started
flushing_done = refl

flush_frame_sent_example : emptied.stream.sent ≡ 6 ∷ 7 ∷ 8 ∷ 9 ∷ []
flush_frame_sent_example =
    flush_frame_sent flushing emptied (6 ∷ 7 ∷ 8 ∷ 9 ∷ []) flushing-Outgoing flushing_done
