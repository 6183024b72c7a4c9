-- ===== src/Trojan/Handshake.antt =====
-- The server and the client of `src/trojan_handler.rs` facing one another.
use shoes_on_shuttle.Common.{
  false, sym, ◌∙◌, ◌≡◌, refl, arith, Bytes, [], ◌∷◌, ◌++◌, none, some, length, split_exact_front,
  split_exact-cases, inl, inr, append_assoc,
}
use shoes_on_shuttle.Hex.{zip_eq_refl, zip_eq→eq, hex_of, length-hex_of}
use shoes_on_shuttle.Address.{NetLocation}
use shoes_on_shuttle.Stream.{Stream, Outcome, ok, err}
use shoes_on_shuttle.OptionUtil.{NoneOrOne}
use shoes_on_shuttle.TcpHandler.{TcpServerSetupResult, tcp_forward}
use shoes_on_shuttle.Socks.Constants.{cmd_connect}
use shoes_on_shuttle.Socks.Location.{write_location_to_vec}
use shoes_on_shuttle.Socks.Location.RoundTrip.{
  IsWire, read_location-write_location_to_vec, write_location-eq-vec,
}
use shoes_on_shuttle.Trojan.{
  TrojanTcpHandler, crlf_bytes, check_password, check_command, check_suffix, setup_server_stream,
  setup_client_stream, create_password_hash,
}

-- What the client sends.
abbrev pub request : TrojanTcpHandler → NetLocation → Bytes
request handler l =
    handler.password_hash ++ (crlf_bytes ++ (cmd_connect ∷ (write_location_to_vec l ++ crlf_bytes)))

-- The client writes the request after what was written before, and flushes it all.
pub setup_client_stream-trojan_request :
    (handler : TrojanTcpHandler) (l : NetLocation) (s : Stream)
    → setup_client_stream handler l s
      ≡ ok tt (record s {
        written = s.written ++ request handler l;
        flushed = length (s.written ++ request handler l);
      })
unfolding setup_client_stream
setup_client_stream-trojan_request handler l s =
    let location = write_location_to_vec l in
    let head = crlf_bytes ++ (cmd_connect ∷ []) in
    let sent = ((s.written ++ handler.password_hash) ++ crlf_bytes) ++ (cmd_connect ∷ []) in
    ground (
      arith,
      write_location-eq-vec l (record s { written = sent }),
      append_assoc s.written handler.password_hash crlf_bytes,
      append_assoc s.written (handler.password_hash ++ crlf_bytes) (cmd_connect ∷ []),
      append_assoc handler.password_hash crlf_bytes (cmd_connect ∷ []),
      append_assoc s.written (handler.password_hash ++ head) location,
      append_assoc handler.password_hash head location,
      append_assoc s.written (handler.password_hash ++ (head ++ location)) crlf_bytes,
      append_assoc handler.password_hash (head ++ location) crlf_bytes,
      append_assoc head location crlf_bytes,
    )

module _ (s : Stream) (rest : Bytes) where
  check_password-sent :
      (handler : TrojanTcpHandler)
      → length handler.password_hash ≡ 56
      → check_password handler (record s { incoming = handler.password_hash ++ rest })
        ≡ ok tt (record s { incoming = rest })
  unfolding check_password
  check_password-sent handler h =
      ground
        (arith, split_exact_front 56 handler.password_hash rest, zip_eq_refl handler.password_hash)

  check_command-sent :
      check_command (record s { incoming = crlf_bytes ++ (cmd_connect ∷ rest) })
      ≡ ok tt (record s { incoming = rest })
  unfolding check_command
  check_command-sent = refl

  check_suffix-sent :
      check_suffix (record s { incoming = crlf_bytes ++ rest })
      ≡ ok tt (record s { incoming = rest })
  unfolding check_suffix
  check_suffix-sent = refl

-- The server forwards to the location that a client with the same password asks for. It consumes
-- exactly the request and writes nothing.
pub setup_server_stream-trojan_request :
    (handler : TrojanTcpHandler) (l : NetLocation) (s : Stream) (rest : Bytes)
    → length handler.password_hash ≡ 56
    → IsWire l
    → setup_server_stream handler (record s { incoming = request handler l ++ rest })
      ≡ ok (tcp_forward l false none none NoneOrOne.unspecified) (record s { incoming = rest })
unfolding setup_server_stream
setup_server_stream-trojan_request handler l s rest h hl =
    let location = write_location_to_vec l in
    let tail = crlf_bytes ++ (cmd_connect ∷ (location ++ crlf_bytes)) in
    ground (
      arith,
      append_assoc handler.password_hash tail rest,
      append_assoc location crlf_bytes rest,
      check_password-sent s (tail ++ rest) handler h,
      check_command-sent s (location ++ (crlf_bytes ++ rest)),
      read_location-write_location_to_vec l s (crlf_bytes ++ rest) hl,
      check_suffix-sent s rest,
    )

check_password-eq-ok :
    (handler : TrojanTcpHandler) (s s' : Stream) (x : Unit {0})
    → length handler.password_hash ≡ 56
    → check_password handler s ≡ ok x s'
    → s.incoming ≡ handler.password_hash ++ s'.incoming
unfolding check_password
check_password-eq-ok handler s s' x h e = elim (split_exact-cases 56 s.incoming) [
  | inl no_more ↦ ground arith
  | inr (received, rest, found, parts, size) ↦
      ground (arith, zip_eq→eq handler.password_hash received (h ∙ sym size))
]

-- Only a client that sends the hash of the password is served: whenever the server returns with
-- success, the first 56 bytes of what it received were the hash that it holds.
pub setup_server_stream-password :
    (handler : TrojanTcpHandler) (s s' : Stream) (r : TcpServerSetupResult)
    → length handler.password_hash ≡ 56
    → setup_server_stream handler s ≡ ok r s'
    → (rest : Bytes) × (s.incoming ≡ handler.password_hash ++ rest)
unfolding setup_server_stream
setup_server_stream-password handler s s' r h e = by_check (check_password handler s) refl
  where
    by_check :
        (o : Outcome (Unit {0}))
        → check_password handler s ≡ o
        → (rest : Bytes) × (s.incoming ≡ handler.password_hash ++ rest)
    by_check (ok x t) k = (t.incoming, check_password-eq-ok handler s t x h k)
    by_check (err x t) k = ground arith
    by_check Outcome.panic k = ground arith

-- The hash of a password never panics, and has the 56 bytes of its digest in hexadecimal, where
-- SHA-224 gives 28 bytes.
pub create_password_hash_total :
    (sha224 : Bytes → Bytes) (password : Bytes)
    → length (sha224 password) ≡ 28
    → (create_password_hash sha224 password ≡ some (hex_of (sha224 password)))
      × (length (hex_of (sha224 password)) ≡ 56)
unfolding create_password_hash
create_password_hash_total sha224 password h =
    let size : length (hex_of (sha224 password)) ≡ 56 =
      omega (arith, length-hex_of (sha224 password)) in
    (ground (arith, size), size)
