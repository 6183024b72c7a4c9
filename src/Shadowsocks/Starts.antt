-- ===== src/Shadowsocks/Starts.antt =====
-- `ShadowsocksStream::new` of `src/shadowsocks/shadowsocks_stream.rs` before the first read.
use shoes_on_shuttle.Common.{ℕ, Option, some, Bytes, refl, sym, length, ◌≡◌, ◌+◌, ◌<◌, arith}
use mathlib.Core.Path.{subst}
use shoes_on_shuttle.Poll.{Peer}
use shoes_on_shuttle.SaltChecker.{TimedSaltChecker}
use shoes_on_shuttle.Shadowsocks.Types.{
  Cipher, BoundKey, Buffers, ShadowsocksStream, ShadowsocksStreamType, metadata_size,
  max_payload_len, new, started,
}
use shoes_on_shuttle.Shadowsocks.Header.{header_len}
use shoes_on_shuttle.Shadowsocks.Heads.{Keys}
use shoes_on_shuttle.Shadowsocks.Contract.{Waits}

-- With buffers of the sizes that `new` allocates, and a salt that has a key, `new` does not panic, and
-- the stream waits for the header of the other side.
new-Waits :
    (c : Cipher) (buffers : Buffers) (stream : Peer) (type : ShadowsocksStreamType) (salt_len : ℕ)
    → (salt_checker : Option TimedSaltChecker) (encrypt_iv : Bytes) → Keys c salt_len
    → length encrypt_iv ≡ salt_len
    → length buffers.unprocessed ≡ max_payload_len type + metadata_size
    → length buffers.processed ≡ max_payload_len type
    → 0 < header_len type salt_len
    → (s : ShadowsocksStream) × (new c buffers stream type salt_len salt_checker encrypt_iv
        ≡ some s)
      × Waits type salt_len s
unfolding new
new-Waits c buffers stream type salt_len salt_checker encrypt_iv keys size unprocessed processed l =
    let (k, bound) = keys encrypt_iv size in
    subst
      (λ (o : Option BoundKey).
        (s : ShadowsocksStream) × (started buffers stream type salt_len salt_checker encrypt_iv o
          ≡ some s)
        × Waits type salt_len s)
      (sym bound)
      (
        _,
        refl,
        (
          (refl, refl, unprocessed, processed, omega arith, omega arith, (refl, refl, refl, refl)),
          refl,
          refl,
          l,
        ),
      )
