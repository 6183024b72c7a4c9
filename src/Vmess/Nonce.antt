-- ===== src/Vmess/Nonce.antt =====
-- `src/vmess/nonce.rs`: the nonces that `ring` is given.
pub mod Unique
use shoes_on_shuttle.Common.{
  drop, take, ◌∷◌, false, true, ◌/◌, ◌==◌, ◌^◌, some, ◌%◌, leb, length, none, if◌then◌else◌, Bool,
  ◌+◌, Option, Bytes, ℕ,
}

pub record VmessNonceSequence : Type 0 where
  pub count : ℕ
  pub nonce : Bytes

-- `VmessNonceSequence::new`; fewer than 12 bytes of data panic.
unfoldable pub new : Bytes → Option VmessNonceSequence
new bytes =
    if leb 12 (length bytes)
    then some (record { count = 0; nonce = 0 ∷ 0 ∷ take 10 (drop 2 bytes) })
    else none

-- `advance`: the nonce to use, and the sequence afterwards.
unfoldable pub advance : VmessNonceSequence → Bytes × VmessNonceSequence
advance q =
    let count = (q.count + 1) % 2 ^ 16 in
    (q.nonce, record { count = count; nonce = count / 256 % 256 ∷ count % 256 ∷ drop 2 q.nonce })

pub record SingleUseNonce : Type 0 where
  pub nonce : Bytes
  pub used : Bool

-- `SingleUseNonce::new`; `copy_from_slice` panics on another length.
unfoldable pub single_use : Bytes → Option SingleUseNonce
single_use bytes =
    if length bytes == 12 then some (record { nonce = bytes; used = false }) else none

-- `advance` of a `SingleUseNonce`; none is its panic.
unfoldable pub use_once : SingleUseNonce → Option (Bytes × SingleUseNonce)
use_once q = if q.used then none else some (q.nonce, record q { used = true })
