-- ===== src/Shadowsocks/Batch.antt =====
-- The inner loop of `poll_read_inner` of `src/shadowsocks/shadowsocks_stream.rs` on packets.
use shoes_on_shuttle.Net.Types.{to_be_bytes}
use shoes_on_shuttle.Common.{
  append_assoc, IsByte, length-append, All, append-nil, ℕ, zero, suc, Bool, true, Option, List,
  Bytes, [], ◌∷◌, ◌++◌, ◌∙◌, sym, ap, refl, arith, length, ◌≡◌, ◌+◌, ◌≤◌, ◌<◌, if◌then◌else◌, ltb,
}
use mathlib.Core.Path.{subst}
use shoes_on_shuttle.Common.Holds.{Holds-length}
use shoes_on_shuttle.Shadowsocks.Types.{
  Cipher, BoundKey, ShadowsocksStream, available_len, max_payload_len,
}
use shoes_on_shuttle.Shadowsocks.Decrypt.{
  advanced, need_data, on_length, open_in_place, try_decrypt, decrypt_pending, data_length_len,
}
use shoes_on_shuttle.Shadowsocks.Read.{drained, on_decrypted, decrypt_loop}
use shoes_on_shuttle.Shadowsocks.Packets.{Aead, packet, behind, sealed, length-sealed}
use shoes_on_shuttle.Shadowsocks.Roundtrip.{Between, Kept, try_decrypt-packet}

-- Packets, one behind the other, sealed with the nonces of the key in their order.
abbrev pub packets : Cipher → BoundKey → List Bytes → Bytes
packets c k [] = []
packets c k (m ∷ ms) = packet c k m ++ packets c (behind k) ms

abbrev pub key_after : BoundKey → List Bytes → BoundKey
key_after k [] = k
key_after k (m ∷ ms) = key_after (behind k) ms

abbrev pub payloads : List Bytes → Bytes
payloads [] = []
payloads (m ∷ ms) = m ++ payloads ms

-- Payloads that a packet can hold.
abbrev pub ArePayloads : ℕ → List Bytes → Type 0
ArePayloads max [] = Unit
ArePayloads max (m ∷ ms) = All IsByte m × (length m ≤ max) × ArePayloads max ms

abbrev Rewound : ShadowsocksStream → Type 0
Rewound s = available_len s ≡ 0 → s.unprocessed_end_offset ≡ 0

module _ (c : Cipher) (lawful : Aead c) where
  pub decrypt_loop-packets :
      (fuel : ℕ) (k : BoundKey) (ms : List Bytes) (out : Bytes) (s : ShadowsocksStream)
      → ArePayloads (max_payload_len s.stream_type) ms
      → s.processed_end_offset + length (payloads ms) ≤ length s.processed_buf
      → length ms < fuel
      → Rewound s
      → Between s k (packets c k ms) out
      → (t : ShadowsocksStream) × (decrypt_loop true c fuel s ≡ drained t)
        × Between t (key_after k ms) [] (out ++ payloads ms)
        × Kept (length (payloads ms)) s t
  unfolding decrypt_loop try_decrypt
  decrypt_loop-packets zero k ms out s valid space l rest b = absurd (omega arith)
  decrypt_loop-packets (suc fuel) k [] out s valid space l rest b =
      let h = b.unprocessed in
      let left =
        Holds-length s.unprocessed_buf s.unprocessed_start_offset s.unprocessed_end_offset [] h in
      let missing : ltb (available_len s) data_length_len ≡ true = ground (arith, left) in
      let opening = open_in_place c s.unprocessed_start_offset data_length_len s in
      let again = decrypt_loop true c fuel in
      let empty : out ≡ out ++ [] = sym (append-nil out) in
      (
        s,
        ap (λ (o : Option ℕ). on_decrypted true again (decrypt_pending c o s)) b.no_pending
            ∙ ap
                (λ (x : Bool).
                  on_decrypted true again (if x then need_data s else on_length c opening))
                missing,
        subst (Between s k []) empty b,
        (refl, refl, refl, refl, omega arith, refl, refl, refl, rest),
      )
  decrypt_loop-packets (suc fuel) k (m ∷ ms) out s (bytes, small, valid) space l rest b =
      let (t, step, after, kept) =
        try_decrypt-packet c lawful k m (packets c (behind k) ms) out s bytes small
          (omega (arith, space, length-append m (payloads ms))) b in
      let (u, loop, end, kept') =
        decrypt_loop-packets fuel (behind k) ms (out ++ m) t
          (subst (λ y. ArePayloads (max_payload_len y) ms) (sym kept.1) valid)
          (omega (arith, kept.3, kept.4, space, length-append m (payloads ms))) (omega arith) kept.8
          after in
      (
        u,
        ap (on_decrypted true (decrypt_loop true c fuel)) step ∙ loop,
        subst (Between u (key_after k (m ∷ ms)) []) (append_assoc out m (payloads ms)) end,
        (
          kept'.0 ∙ kept.0,
          kept'.1 ∙ kept.1,
          kept'.2 ∙ kept.2,
          kept'.3 ∙ kept.3,
          omega (arith, kept'.4, kept.4, length-append m (payloads ms)),
          kept'.5 ∙ kept.5,
          kept'.6 ∙ kept.6,
          kept'.7 ∙ kept.7,
          kept'.8,
        ),
      )

  -- A packet is longer than its payload.
  pub length-packets :
      (k : BoundKey) (max : ℕ) (ms : List Bytes)
      → max ≤ 0xffff
      → ArePayloads max ms
      → length ms + length (payloads ms) ≤ length (packets c k ms)
  length-packets k max [] below valid = omega arith
  length-packets k max (m ∷ ms) below (bytes, small, valid) =
      let head = sealed c k (to_be_bytes (length m)) in
      let body = sealed c (advanced k) m in
      omega (
        arith,
        length-append (packet c k m) (packets c (behind k) ms),
        length-append head body,
        length-sealed c lawful k (to_be_bytes (length m)) (omega arith),
        length-sealed c lawful (advanced k) m (omega (arith, small, below)),
        length-append m (payloads ms),
        length-packets (behind k) max ms below valid,
      )
