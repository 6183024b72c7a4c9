-- ===== src/Examples/Forwarding.antt =====
-- The theorems on the port forwarding, Snell and the VMess nonces at concrete inputs.
use shoes_on_shuttle.Common.{
  ℕ, Bytes, List, [], ◌∷◌, ◌≡◌, ◌≢◌, ◌⊎◌, refl, arith, some, map, true, false, replicate,
}
use shoes_on_shuttle.Address.{NetLocation, hostname, unspecified, address_from}
use shoes_on_shuttle.Stream.{Stream, receiving, success}
use shoes_on_shuttle.TcpHandler.{multidirectional_udp_forward}
use shoes_on_shuttle.Net.Utf8.{is_utf8}
use shoes_on_shuttle.Common.Text.{bytes_of}
use shoes_on_shuttle.PortForward.{PortForwardServerHandler}
use shoes_on_shuttle.PortForward.Rotation.{forward, forward_many, forward_many-round}
use shoes_on_shuttle.Snell.{udp_ready_response}
use shoes_on_shuttle.Snell.Requests.{setup_server_stream-udp, setup_server_stream-commands}
use shoes_on_shuttle.Vmess.Nonce.{VmessNonceSequence, SingleUseNonce, advance, new, single_use}
use shoes_on_shuttle.Vmess.Nonce.Unique.{after, advance_distinct}

abbrev other_target : NetLocation
other_target = record { address = hostname (bytes_of "example.com"); port = 80 }

abbrev targets : List NetLocation
targets = unspecified ∷ other_target ∷ []

abbrev handler : PortForwardServerHandler
handler = record { targets = targets; next_target_index = 4 }

abbrev idle : Stream
idle = receiving []

forward_many-round_example : forward_many (idle ∷ idle ∷ []) handler ≡ some (map forward targets, 6)
forward_many-round_example =
    forward_many-round (idle ∷ idle ∷ []) 2 targets (omega arith) refl (omega arith)

is_text : is_utf8 (bytes_of "example.com") ≡ true
unfolding is_utf8
is_text = refl

is_name : address_from (bytes_of "example.com") ≡ success (hostname (bytes_of "example.com"))
unfolding address_from
is_name = refl

setup_server_stream-commands_example :
    (command : ℕ) × (rest : Bytes) × (1 ∷ 6 ∷ 0 ∷ 7 ∷ [] ≡ 1 ∷ command ∷ rest)
    × ((command ≡ 1) ⊎ ((command ≡ 5) ⊎ (command ≡ 6)))
setup_server_stream-commands_example =
    setup_server_stream-commands (receiving (1 ∷ 6 ∷ 0 ∷ 7 ∷ []))
      (record { incoming = 7 ∷ []; written = udp_ready_response; flushed = 0 })
      (multidirectional_udp_forward true) (setup_server_stream-udp [] (7 ∷ []) idle)

abbrev packets : VmessNonceSequence
packets = record { count = 0; nonce = 0 ∷ 0 ∷ replicate 10 5 }

packets-new : new (replicate 12 5) ≡ some packets
unfolding new
packets-new = refl

advance_distinct_example : (advance (after 3 packets)).0 ≢ (advance (after 5 packets)).0
advance_distinct_example =
    advance_distinct 3 5 (replicate 12 5) packets packets-new (omega arith) (omega arith)

abbrev single : SingleUseNonce
single = record { nonce = replicate 12 5; used = false }

single-new : single_use (replicate 12 5) ≡ some single
unfolding single_use
single-new = refl
