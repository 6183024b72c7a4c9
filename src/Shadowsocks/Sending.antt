-- ===== src/Shadowsocks/Sending.antt =====
-- `poll_write` of `src/shadowsocks/shadowsocks_stream.rs` behind the first call.
use shoes_on_shuttle.Common.{
  length-take, ◌⊎◌, append_assoc, ℕ, Bool, true, false, Option, Bytes, ◌++◌, ◌∙◌, sym, ap, refl,
  arith, take, length, ◌≡◌, ◌+◌, ◌-◌, ◌≤◌, ◌<◌, ◌==◌, ◌&&◌, if◌then◌else◌, leb, inl, inr,
  Bool-cases, splice,
}
use mathlib.Core.Path.{subst}
use shoes_on_shuttle.Common.Holds.{Holds-append}
use shoes_on_shuttle.Common.Splice.{length-splice}
use shoes_on_shuttle.Stream.{Result, success, failure}
use shoes_on_shuttle.Poll.{Poll, ready, pending}
use shoes_on_shuttle.Net.Types.{to_be_bytes}
use shoes_on_shuttle.Shadowsocks.Types.{
  ShadowsocksStreamType, Cipher, BoundKey, ShadowsocksStream, tag_len, metadata_size,
  max_payload_len,
}
use shoes_on_shuttle.Shadowsocks.Decrypt.{advanced}
use shoes_on_shuttle.Shadowsocks.Header.{Clock}
use shoes_on_shuttle.Shadowsocks.Packets.{tag_of, Aead, sealed, packet, behind, length-sealed}
use shoes_on_shuttle.Shadowsocks.Roundtrip.{max_below}
use shoes_on_shuttle.Shadowsocks.Encrypt.{
  Sealing, done, then_seal, put_tag, seal_at, encrypt_content, encrypt_single, do_write_cache,
  Written, returned, map_err, process_write_header,
}
use shoes_on_shuttle.Shadowsocks.Outgoing.{Outgoing, Writes, do_write_cache-Writes}
use shoes_on_shuttle.Shadowsocks.Write.{
  report, packet_size, write_packet, on_room, on_first, poll_write,
}

module _ (c : Cipher) (lawful : Aead c) where
  -- Sealing puts the sealed bytes with their tag into the cache.
  pub seal_at-sealed :
      (at : ℕ) (m : Bytes) (s : ShadowsocksStream)
      → length m ≤ 0x10000
      → at + (length m + tag_len) ≤ length s.write_cache
      → seal_at c at m s
        ≡ done (record s {
          sealing_key = advanced s.sealing_key;
          write_cache = splice s.write_cache at (sealed c s.sealing_key m);
        })
  unfolding seal_at
  seal_at-sealed at m s small fits =
      let k = s.sealing_key in
      let r = lawful.seals k.key k.nonce m small in
      let text = (c.seal k.key k.nonce m).1 in
      let t : ShadowsocksStream = record s { sealing_key = advanced k } in
      let enough : leb (at + length m) (length s.write_cache) ≡ true = ground (arith, fits) in
      let tag_fits : leb (at + length text + tag_len) (length s.write_cache) ≡ true =
        ground (arith, fits, r.text_size) in
      let put = λ (b : Bytes). done (record t { write_cache = splice s.write_cache at b }) in
      ap (λ (b : Bool). if b then put_tag at text (c.seal k.key k.nonce m).0 t else Sealing.panic)
        enough
      ∙ ap (λ (o : Option Bytes). put_tag at text o t) r.succeeds
      ∙ ap (λ (b : Bool). if b then put (text ++ take tag_len r.tag) else Sealing.panic) tag_fits
      ∙ ap put (sym (ap (λ (o : Option Bytes). text ++ tag_of o) r.succeeds))

  encrypt_single-Outgoing :
      (input : Bytes) (s : ShadowsocksStream) (k : BoundKey) (total : Bytes)
      → length input ≤ 0xffff
      → s.write_cache_end_offset + (length input + metadata_size) ≤ length s.write_cache
      → Outgoing s k total
      → (t : ShadowsocksStream) × (encrypt_single c input true s ≡ done t)
        × Outgoing t (behind k) (total ++ packet c k input)
  unfolding encrypt_single
  encrypt_single-Outgoing input s k total small fits o =
      let K = s.sealing_key in
      let n = length input in
      let start = s.write_cache_start_offset in
      let end = s.write_cache_end_offset in
      let head : Bytes = sealed c K (to_be_bytes n) in
      let body : Bytes = sealed c (advanced K) input in
      let head_size : length head ≡ 18 = length-sealed c lawful K (to_be_bytes n) (omega arith) in
      let body_size : length body ≡ n + tag_len =
        length-sealed c lawful (advanced K) input (omega (arith, small)) in
      let s1 : ShadowsocksStream = record s {
        sealing_key = advanced K;
        write_cache = splice s.write_cache end head;
      } in
      let left = length-splice s.write_cache head end (omega (arith, head_size, fits)) in
      let t : ShadowsocksStream = record s1 {
        sealing_key = behind K;
        write_cache = splice s1.write_cache (end + 18) body;
        write_cache_end_offset = end + (18 + (n + tag_len));
      } in
      let left' =
        length-splice s1.write_cache body (end + 18) (omega (arith, left, body_size, fits)) in
      let first =
        Holds-append s.write_cache start end (end + 18) o.rest head (omega (arith, head_size))
          (omega (arith, fits)) o.waiting in
      let second =
        Holds-append s1.write_cache start (end + 18) (end + (18 + (n + tag_len))) (o.rest ++ head)
          body (omega (arith, body_size)) (omega (arith, left, fits)) first in
      let add = λ (x : ShadowsocksStream).
        done
          (record x { write_cache_end_offset = x.write_cache_end_offset + (18 + (n + tag_len)) }) in
      let all : s.stream.sent ++ ((o.rest ++ head) ++ body) ≡ total ++ (head ++ body) =
        ap (◌++◌ s.stream.sent) (append_assoc o.rest head body)
        ∙ sym (append_assoc s.stream.sent o.rest (head ++ body))
        ∙ ap (λ (b : Bytes). b ++ (head ++ body)) o.total_is in
      let out : Outgoing t (behind K) (total ++ packet c K input) = record {
        size = left' ∙ left ∙ o.size;
        key = refl;
        rest = (o.rest ++ head) ++ body;
        waiting = second;
        total_is = all;
      } in
      (
        t,
        ap (λ (x : Sealing). then_seal x (encrypt_content c 18 input))
              (seal_at-sealed end (to_be_bytes n) s (omega arith) (omega (arith, fits)))
            ∙ ap (λ (x : Sealing). then_seal x add)
                (seal_at-sealed (end + 18) input s1 (omega (arith, small))
                  (omega (arith, left, fits))),
        subst (λ (x : BoundKey). Outgoing t (behind x) (total ++ packet c x input)) o.key out,
      )

max_above : (type : ShadowsocksStreamType) → 0 < max_payload_len type
max_above ShadowsocksStreamType.aead = omega arith
max_above ShadowsocksStreamType.aead2022_server = omega arith
max_above ShadowsocksStreamType.aead2022_client = omega arith

-- What `poll_write` reports as written is packed into one packet with the next two nonces, behind all
-- that was outgoing; where it is pending, nothing is packed.
abbrev pub Sends : Cipher → BoundKey → Bytes → Bytes → Written (Poll ℕ) → Type 0
Sends c k total buf (returned (success (ready n)) s) =
    (0 < n) × (n ≤ length buf) × Outgoing s (behind k) (total ++ packet c k (take n buf))
Sends c k total buf (returned (success pending) s) = Outgoing s k total
Sends c k total buf (returned (failure e) s) =
    Outgoing s k total
    ⊎ ((n : ℕ) × (n ≤ length buf) × Outgoing s (behind k) (total ++ packet c k (take n buf)))
Sends c k total buf Written.panic = ⊥

module _ (c : Cipher) (lawful : Aead c) (buf : Bytes) (some_byte : 0 < length buf) (k : BoundKey)
    (total : Bytes) where
  write_packet-Sends :
      (s : ShadowsocksStream)
      → Outgoing s k total
      → metadata_size < length s.write_cache - s.write_cache_end_offset
      → Sends c k total buf (write_packet c buf s)
  unfolding write_packet
  write_packet-Sends s o space =
      let n = packet_size buf s in
      let input : Bytes = take n buf in
      let small : length input ≡ n = omega (arith, length-take n buf) in
      let positive : 0 < max_payload_len s.stream_type = max_above s.stream_type in
      let (t, packed, out) =
        encrypt_single-Outgoing c lawful input s k total
          (omega (arith, small, max_below s.stream_type)) (omega (arith, small, space)) o in
      let go =
        λ (x : Sealing). map_err "failed to encrypt packet" x (λ u. report n (do_write_cache u)) in
      subst (λ (x : Sealing). Sends c k total buf (go x)) (sym packed)
        (reported n (omega (arith, space, some_byte, positive)) (omega arith) (do_write_cache t)
          (do_write_cache-Writes t (behind k) (total ++ packet c k input) out))
    where
      reported :
          (n : ℕ)
          → 0 < n
          → n ≤ length buf
          → (r : Result Bool × ShadowsocksStream)
          → Writes (behind k) (total ++ packet c k (take n buf)) r
          → Sends c k total buf (report n r)
      reported n l l' (success true, t) (out, _, _) = (l, l', out)
      reported n l l' (success false, t) out = (l, l', out)
      reported n l l' (failure e, t) out = inr (n, l', out)

  -- `poll_write` behind the first call, for a byte at least, does not panic. What it reports as
  -- written is not empty, and is packed, as one packet sealed with the next two nonces, behind all that
  -- was outgoing, of which nothing is lost or reordered: what was sent with what waits in the cache is
  -- what was outgoing and then the packet. Where it is pending, nothing is packed; where it fails,
  -- nothing or such a packet. Conditions: the cipher is an AEAD, and the cache has its size and its
  -- offsets in order.
  pub poll_write-Sends :
      (clock : Clock) (s : ShadowsocksStream)
      → s.is_initial_write ≡ false
      → Outgoing s k total
      → Sends c k total buf (poll_write c clock buf s)
  unfolding poll_write
  poll_write-Sends clock s later o =
      let full = leb (length s.write_cache - s.write_cache_end_offset) metadata_size in
      let flushed = on_room (write_packet c buf) (do_write_cache s) in
      let packed = write_packet c buf s in
      let Goal = λ (b : Bool). Sends c k total buf (
        if b
        then on_first (process_write_header c clock buf s)
        else if full
        then flushed
        else packed) in
      let Full = λ (b : Bool). Sends c k total buf (if b then flushed else packed) in
      subst Goal (sym later) (elim (Bool-cases full) [
        | inl none_left ↦
            subst Full (sym none_left)
              (after_flush (do_write_cache s) (do_write_cache-Writes s k total o))
        | inr some_left ↦
            subst Full (sym some_left) (write_packet-Sends s o (ground (arith, some_left)))
      ])
    where
      after_flush :
          (r : Result Bool × ShadowsocksStream)
          → Writes k total r
          → Sends c k total buf (on_room (write_packet c buf) r)
      after_flush (failure e, t) out = inl out
      after_flush (success false, t) out = out
      after_flush (success true, t) (out, start, end) =
          let test : (t.write_cache_start_offset == 0 && t.write_cache_end_offset == 0) ≡ true =
            ground (arith, start, end) in
          subst
            (λ (b : Bool). Sends c k total buf (if b then write_packet c buf t else Written.panic))
            (sym test)
            (write_packet-Sends t out (omega (arith, end, out.size, max_above t.stream_type)))
