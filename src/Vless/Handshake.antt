-- ===== src/Vless/Handshake.antt =====
-- The two handlers of `src/vless_handler.rs` facing one another.
use shoes_on_shuttle.Hex.{zip_eq_refl}
use shoes_on_shuttle.OptionUtil.{NoneOrOne}
use shoes_on_shuttle.TcpHandler.{tcp_forward}
use shoes_on_shuttle.Common.{
  none, some, true, get_or-append, ◌%◌, take_front, length-append, split_exact_front, append_assoc,
  arith, ◌≡◌, ◌++◌, ◌∷◌, length, ℕ, Bytes, [],
}
use shoes_on_shuttle.Address.{hostname, ipv6, NetLocation, ipv4, Address}
use shoes_on_shuttle.Stream.{write_all, ok, Stream}
use shoes_on_shuttle.Vless.Client.{write_target, read_response, send_request, setup_client_stream}
use shoes_on_shuttle.Vless.Server.{
  server_response_header, VlessTcpHandler, check_user, read_target, setup_server_stream,
}
use shoes_on_shuttle.Net.Types.{octets, octets6, high_byte, low_byte, IsU16}
use shoes_on_shuttle.Socks.Location.RoundTrip.{IsWire, IsWireAddress, be_bytes}

-- What stands for an address in a request: its type and its bytes.
abbrev target_vec : Address → Bytes
target_vec (ipv4 i) = 1 ∷ octets i
target_vec (ipv6 i) = 3 ∷ octets6 i
target_vec (hostname h) = 2 ∷ (length h % 256) ∷ h

-- What the client sends.
abbrev pub request : Bytes → NetLocation → Bytes
request id l = 0 ∷ (id ++ (0 ∷ 1 ∷ high_byte l.port ∷ low_byte l.port ∷ target_vec l.address))

write_target-vec :
    (id : Bytes) (p : ℕ) (a : Address) (s : Stream)
    → IsWireAddress a
    → write_target id p a s ≡ write_all (request id (record { address = a; port = p })) s
write_target-vec id p (ipv4 i) s h = simp append_assoc
write_target-vec id p (ipv6 i) s h = simp append_assoc
write_target-vec id p (hostname h) s (fits, text, name) =
    let head : Bytes = 0 ∷ (id ++ (0 ∷ 1 ∷ high_byte p ∷ low_byte p ∷ 2 ∷ [])) in
    let size : Bytes = (length h % 256) ∷ [] in
    ground (
      arith,
      append_assoc (s.written ++ head) size h,
      append_assoc s.written head (size ++ h),
      append_assoc id (0 ∷ 1 ∷ high_byte p ∷ low_byte p ∷ 2 ∷ []) (size ++ h),
    )

-- With a user id of 16 bytes, and a location in range whose hostname has at most 255 bytes, the
-- client writes the request after what was written before and flushes it. It then accepts the two
-- bytes that the server answers, and leaves what the server relays behind them.
pub setup_client_stream-vless_request :
    (handler : VlessTcpHandler) (l : NetLocation) (s : Stream) (rest : Bytes)
    → length handler.user_id ≡ 16
    → IsWire l
    → setup_client_stream handler l (record s { incoming = server_response_header ++ rest })
      ≡ ok tt (record s {
        incoming = rest;
        written = s.written ++ request handler.user_id l;
        flushed = length (s.written ++ request handler.user_id l);
      })
unfolding setup_client_stream send_request read_response
setup_client_stream-vless_request handler l s rest h hl =
    let answers = server_response_header ++ rest in
    ground (
      arith,
      write_target-vec handler.user_id l.port l.address (record s { incoming = answers })
          hl.address_ok,
    )

module _ (s : Stream) (rest : Bytes) where
  check_user-sent :
      (handler : VlessTcpHandler)
      → length handler.user_id ≡ 16
      → check_user handler (record s { incoming = 0 ∷ (handler.user_id ++ (0 ∷ rest)) })
        ≡ ok tt (record s { incoming = rest })
  unfolding check_user
  check_user-sent handler h =
      let id = handler.user_id in
      ground (
        arith,
        append_assoc id (0 ∷ []) rest,
        split_exact_front 17 (id ++ (0 ∷ [])) rest (omega (arith, length-append id (0 ∷ []))),
        take_front 16 id (0 ∷ []) (omega arith),
        get_or-append 16 16 0 id (0 ∷ []) 0 (omega arith) (omega arith),
        zip_eq_refl id,
      )

  read_target-sent :
      (a : Address) (p : ℕ)
      → IsWireAddress a
      → IsU16 p
      → read_target (record s { incoming = 1 ∷ high_byte p ∷ low_byte p ∷ (target_vec a ++ rest) })
        ≡ ok (record { address = a; port = p }) (record s { incoming = rest })
  unfolding read_target
  read_target-sent (ipv4 i) p h hp = rw (be_bytes p hp)
  read_target-sent (ipv6 i) p hi hp = rw (
    be_bytes p hp,
    be_bytes i.s0 hi.u0,
    be_bytes i.s1 hi.u1,
    be_bytes i.s2 hi.u2,
    be_bytes i.s3 hi.u3,
    be_bytes i.s4 hi.u4,
    be_bytes i.s5 hi.u5,
    be_bytes i.s6 hi.u6,
    be_bytes i.s7 hi.u7,
  )
  read_target-sent (hostname h) p (fits, text, name) hp =
      ground (arith, split_exact_front (length h % 256) h rest (omega arith), be_bytes p hp)

-- The server forwards to the location that a client with the same user id asks for: it consumes
-- exactly the request, and it writes nothing yet, the answer being left to the setup result.
pub setup_server_stream-vless_request :
    (handler : VlessTcpHandler) (l : NetLocation) (s : Stream) (rest : Bytes)
    → length handler.user_id ≡ 16
    → IsWire l
    → setup_server_stream handler (record s { incoming = request handler.user_id l ++ rest })
      ≡ ok
          (tcp_forward l true (some server_response_header) none NoneOrOne.unspecified)
          (record s { incoming = rest })
unfolding setup_server_stream
setup_server_stream-vless_request handler l s rest h hl =
    let target = target_vec l.address in
    let head : Bytes = 1 ∷ high_byte l.port ∷ low_byte l.port ∷ [] in
    ground (
      arith,
      append_assoc handler.user_id (0 ∷ (head ++ target)) rest,
      check_user-sent s (head ++ (target ++ rest)) handler h,
      read_target-sent s rest l.address l.port hl.address_ok hl.port_ok,
    )
