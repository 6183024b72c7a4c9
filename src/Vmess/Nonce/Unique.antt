-- ===== src/Vmess/Nonce/Unique.antt =====
-- The sequences of nonces of `src/vmess/nonce.rs`.
use shoes_on_shuttle.Common.{
  true, take, ◌∷◌, ◌/◌, arith, ◌^◌, none, ◌%◌, ◌<◌, some, ◌≡◌, ◌≢◌, suc, Bytes, ℕ, zero, drop,
}
use shoes_on_shuttle.Vmess.Nonce.{
  SingleUseNonce, use_once, new, VmessNonceSequence, single_use, advance,
}

-- The sequence after so many calls of `advance`.
unfoldable pub after : ℕ → VmessNonceSequence → VmessNonceSequence
after zero q = q
after (suc k) q = (advance (after k q)).1

after-new :
    (k : ℕ) (bytes : Bytes) (q : VmessNonceSequence)
    → new bytes ≡ some q
    → k < 2 ^ 16
    → after k q ≡ record { count = k; nonce = k / 256 % 256 ∷ k % 256 ∷ take 10 (drop 2 bytes) }
unfolding after advance new
after-new zero bytes q e h = ground arith
after-new (suc k) bytes q e h = ground (arith, after-new k bytes q e)

-- The nonces of different packets differ: those of a new sequence after `i` and after `j` calls of
-- `advance`, for `i < j < 65536`.
pub advance_distinct :
    (i j : ℕ) (bytes : Bytes) (q : VmessNonceSequence)
    → new bytes ≡ some q
    → i < j
    → j < 2 ^ 16
    → (advance (after i q)).0 ≢ (advance (after j q)).0
unfolding advance
advance_distinct i j bytes q e h hj same =
    ground (arith, after-new i bytes q e (omega arith), after-new j bytes q e hj)

-- A single-use nonce is given out once: the first `advance` gives the bytes of it, and the next one panics.
pub use_once_lem :
    (bytes : Bytes) (q : SingleUseNonce)
    → single_use bytes ≡ some q
    → (q' : SingleUseNonce) × (use_once q ≡ some (bytes, q')) × (use_once q' ≡ none)
unfolding single_use use_once
use_once_lem bytes q e = (record q { used = true }, ground arith, ground arith)
