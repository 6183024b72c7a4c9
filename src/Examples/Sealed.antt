-- ===== src/Examples/Sealed.antt =====
-- The theorems on `src/shadowsocks` at small streams, with a cipher that only adds a tag.
use shoes_on_shuttle.SaltChecker
use shoes_on_shuttle.SaltChecker.{insert_and_check, expire}
use shoes_on_shuttle.Stream.{success}
use shoes_on_shuttle.Common.{
  length-replicate, IsByte, replicate, All, ◌≢◌, ℕ, zero, suc, Bool, true, false, none, some, List,
  Bytes, [], ◌∷◌, ◌++◌, ◌∙◌, ap, refl, arith, take, length, ◌≡◌, ◌<◌, ◌==◌, if◌then◌else◌, inl,
  get_or, ◌%◌,
}
use shoes_on_shuttle.Poll.{ready, arrived, accepted, Peer}
use shoes_on_shuttle.Shadowsocks.Sequence.{first_nonce, nth_nonce, nth_nonce-distinct}
use shoes_on_shuttle.Shadowsocks.Types.{
  Cipher, BoundKey, ShadowsocksStream, ShadowsocksStreamType, aead, aead2022_server, Step, ok,
}
use shoes_on_shuttle.Shadowsocks.Header.{Clock, process_read_header}
use shoes_on_shuttle.Shadowsocks.Fits.{Opens}
use shoes_on_shuttle.Shadowsocks.Heads.{Keys}
use shoes_on_shuttle.Shadowsocks.Packets.{Aead}
use shoes_on_shuttle.Shadowsocks.Read.{returned, poll_read_inner}
use shoes_on_shuttle.Shadowsocks.Contract.{Waits, Returns, poll_read_inner-Returns}
use shoes_on_shuttle.Shadowsocks.Batch.{packets, key_after}
use shoes_on_shuttle.Shadowsocks.Delivery.{Idle, poll_read_inner-packets}
use shoes_on_shuttle.Shadowsocks.Outgoing.{Outgoing}
use shoes_on_shuttle.Shadowsocks.Write.{poll_write}
use shoes_on_shuttle.Shadowsocks.Sending.{Sends, poll_write-Sends}
use shoes_on_shuttle.Shadowsocks.Accepted.{Accepted, process_read_header-Accepted}

nth_nonce-distinct_example : nth_nonce 0 ≢ nth_nonce 256
nth_nonce-distinct_example = nth_nonce-distinct 0 256 (omega arith) (omega arith)

abbrev as_bytes : Bytes → Bytes
as_bytes [] = []
as_bytes (x ∷ xs) = x % 256 ∷ as_bytes xs

abbrev tagging : Cipher
tagging = record {
  key_len = 16;
  create_session_key = λ salt. some salt;
  seal = λ k n m. (some (replicate 16 7), m);
  open_bytes = λ k n b. (true, as_bytes b);
}

length-as_bytes : (b : Bytes) → length (as_bytes b) ≡ length b
length-as_bytes [] = refl
length-as_bytes (x ∷ b) = omega (arith, length-as_bytes b)

as_bytes_below : (b : Bytes) (i : ℕ) → get_or (as_bytes b) i 0 < 256
as_bytes_below [] i = omega arith
as_bytes_below (x ∷ b) zero = omega arith
as_bytes_below (x ∷ b) (suc i) = as_bytes_below b i

as_bytes_front : (m tag : Bytes) → All IsByte m → take (length m) (as_bytes (m ++ tag)) ≡ m
as_bytes_front [] tag h = refl
as_bytes_front (x ∷ m) tag (b, h) =
    let same : x % 256 ≡ x = omega arith in
    ap (λ (y : ℕ). y ∷ take (length m) (as_bytes (m ++ tag))) same
    ∙ ap (◌∷◌ x) (as_bytes_front m tag h)

tagging-Opens : Opens tagging
tagging-Opens = record {
  same_length = λ k n b. length-as_bytes b;
  bytes = λ k n b i. as_bytes_below b i;
}

tagging-Aead : Aead tagging
tagging-Aead = record {
  keeps_length = λ k n b. length-as_bytes b;
  seals = λ k n m small. record {
    tag = replicate 16 7;
    succeeds = refl;
    tag_size = refl;
    text_size = refl;
  };
  opens = λ k n m tag bytes e. (refl, as_bytes_front m tag bytes);
}

tagging-Keys : Keys tagging 16
tagging-Keys salt e =
    let k : BoundKey = record { key = salt; nonce = first_nonce } in
    let fits : (length salt == 16) ≡ true = ground (arith, e) in
    (k, ap (λ (b : Bool). if b then some k else none) fits)

abbrev salt : Bytes
salt = replicate 16 1

abbrev key : BoundKey
key = record { key = salt; nonce = first_nonce }

abbrev peer : Bytes → Peer
peer bytes = record {
  arriving = arrived bytes ∷ [];
  accepting = accepted 3 ∷ [];
  flushing = [];
  sent = [];
}

-- A stream as it is made, to which the bytes come.
abbrev stream_of : ShadowsocksStreamType → Bytes → Bytes → ShadowsocksStream
stream_of type bytes buf = record {
  stream = peer bytes;
  stream_type = type;
  salt_len = 16;
  salt_checker = none;
  encrypt_iv = salt;
  decrypt_iv = none;
  sealing_key = key;
  opening_key = none;
  unprocessed_buf = buf;
  unprocessed_start_offset = 0;
  unprocessed_end_offset = 0;
  unprocessed_pending_len = none;
  processed_buf = replicate 16383 0;
  processed_start_offset = 0;
  processed_end_offset = 0;
  write_cache = replicate 16417 0;
  write_cache_start_offset = 0;
  write_cache_end_offset = 0;
  is_initial_read = true;
  is_initial_write = true;
  is_eof = false;
}

abbrev two_packets : List Bytes
two_packets = (9 ∷ 8 ∷ []) ∷ (7 ∷ []) ∷ []

abbrev coming : Bytes
coming = packets tagging key two_packets

size_16417 : length (replicate {A = ℕ} 16417 0) ≡ 16417
size_16417 = length-replicate {A = ℕ} 16417 0

size_16383 : length (replicate {A = ℕ} 16383 0) ≡ 16383
size_16383 = length-replicate {A = ℕ} 16383 0

abbrev waiting : ShadowsocksStream
waiting = stream_of aead (salt ++ coming) (replicate 16417 0)

waiting-Waits : Waits aead 16 waiting
waiting-Waits = (
  (refl, refl, size_16417, size_16383, omega arith, omega arith, (refl, refl, refl, refl)),
  refl,
  refl,
  omega arith,
)

abbrev clock : Clock
clock = record { unix_secs = 100; instant = 5 }

poll_read_inner-Returns_example : Returns aead 16 2 (poll_read_inner true tagging clock 2 waiting)
poll_read_inner-Returns_example =
    poll_read_inner-Returns true tagging tagging-Opens clock aead 16 tagging-Keys (omega arith) 2
      (omega arith) waiting (inl waiting-Waits)

abbrev idle : ShadowsocksStream
idle = record (stream_of aead coming (replicate 16417 0)) {
  opening_key = some key;
  is_initial_read = false;
}

idle-Idle : Idle idle key
idle-Idle = record {
  header_read = refl;
  not_eof = refl;
  has_key = refl;
  no_pending = refl;
  unprocessed_start = refl;
  unprocessed_end = refl;
  processed_start = refl;
  processed_end = refl;
}

poll_read_inner-packets_example :
    (t : ShadowsocksStream) × (poll_read_inner true tagging clock 10 idle
      ≡ returned (success (ready (9 ∷ 8 ∷ 7 ∷ []))) t)
    × Idle t (key_after key two_packets)
    × (t.stream.arriving ≡ [])
poll_read_inner-packets_example =
    poll_read_inner-packets tagging tagging-Aead 10 clock idle key two_packets [] idle-Idle refl
      (omega arith) (omega (arith, size_16417)) (omega (arith, size_16383)) (omega arith)
      (omega arith)

abbrev sending : ShadowsocksStream
sending = record idle { is_initial_write = false }

sending-Outgoing : Outgoing sending key []
sending-Outgoing = record {
  size = size_16417;
  key = refl;
  rest = [];
  waiting = record { ordered = omega arith; in_buf = omega arith; same = refl };
  total_is = refl;
}

poll_write-Sends_example :
    Sends tagging key [] (7 ∷ 8 ∷ []) (poll_write tagging clock (7 ∷ 8 ∷ []) sending)
poll_write-Sends_example =
    poll_write-Sends tagging tagging-Aead (7 ∷ 8 ∷ []) (omega arith) key [] clock sending refl
      sending-Outgoing

-- A request whose header says 98 seconds.
abbrev request : Bytes
request = salt ++ (0 ∷ 0 ∷ 0 ∷ 0 ∷ 0 ∷ 0 ∷ 0 ∷ 0 ∷ 98 ∷ 0 ∷ 5 ∷ replicate 16 7)

abbrev requested : ShadowsocksStream
requested = record (stream_of aead2022_server [] request) {
  unprocessed_end_offset = 43;
  salt_checker = some (SaltChecker.new 60);
}

abbrev stream_after : Step → ShadowsocksStream
stream_after (ok s) = s
stream_after (Step.failed e s) = s
stream_after Step.panic = requested

abbrev served : ShadowsocksStream
served = stream_after (process_read_header tagging clock requested)

served_lem : process_read_header tagging clock requested ≡ ok served
unfolding process_read_header insert_and_check expire
served_lem = refl

process_read_header-Accepted_example : Accepted tagging clock requested served
process_read_header-Accepted_example =
    process_read_header-Accepted tagging clock requested served refl served_lem
