-- ===== src/Shadowsocks/Keys.antt =====
-- The keys and the ciphers of `src/shadowsocks`: blake3_key.rs, default_key.rs and
-- shadowsocks_cipher.rs. The hashes are parameters.
use shoes_on_shuttle.Common.{
  ℕ, zero, suc, Option, none, some, Bytes, [], ◌++◌, ◌==◌, if◌then◌else◌, leb, take, length, ◌||◌,
  bytes_eq,
}
use shoes_on_shuttle.Common.Text.{bytes_of}

pub record Blake3Key : Type 0 where
  pub key_bytes : Bytes
  pub session_key_len : ℕ

-- `derive_key context material n` is the output of `n` bytes of `blake3`. `none` is the assertion.
unfoldable pub blake3_session_key : (Bytes → Bytes → ℕ → Bytes) → Blake3Key → Bytes → Option Bytes
blake3_session_key derive_key k salt =
    if length k.key_bytes == length salt
    then some (
        derive_key (bytes_of "shadowsocks 2022 session subkey") (k.key_bytes ++ salt)
          k.session_key_len)
    else none

pub record DefaultKey : Type 0 where
  pub key_bytes : Bytes
  pub key_len : ℕ

-- `hkdf salt secret info n` is the output of `n` bytes of HKDF with SHA-1.
unfoldable pub default_session_key :
    (Bytes → Bytes → Bytes → ℕ → Bytes) → DefaultKey → Bytes → Bytes
default_session_key hkdf k salt = hkdf salt k.key_bytes (bytes_of "ss-subkey") k.key_len

-- The loop of `get_key_bytes`: `context` is what the hash was given before the password, and `ret`
-- what is there so far. Each round adds a digest.
unfoldable pub key_digests : (Bytes → Bytes) → ℕ → Bytes → ℕ → Bytes → Bytes → Option Bytes
key_digests md5 cipher_key_len key zero context ret = none
key_digests md5 cipher_key_len key (suc fuel) context ret =
    let digest = md5 (context ++ key) in
    let ret' = ret ++ digest in
    let rest = key_digests md5 cipher_key_len key fuel digest ret' in
    if leb cipher_key_len (length ret') then some (take cipher_key_len ret') else rest

unfoldable pub get_key_bytes : (Bytes → Bytes) → Bytes → ℕ → Option Bytes
unfolding key_digests
get_key_bytes md5 key cipher_key_len = key_digests md5 cipher_key_len key (suc cipher_key_len) [] []

pub data Algorithm : Type 0 where
  aes_128_gcm aes_256_gcm chacha20_poly1305 : Algorithm

pub record ShadowsocksCipher : Type 0 where
  pub algorithm : Algorithm
  pub salt_len : ℕ

-- `ShadowsocksCipher::from`; `none` is the panic on an unknown name.
unfoldable pub cipher_from : Bytes → Option ShadowsocksCipher
cipher_from name =
    if bytes_eq name (bytes_of "chacha20-ietf-poly1305")
      || bytes_eq name (bytes_of "chacha20-poly1305")
    then some (record { algorithm = chacha20_poly1305; salt_len = 32 })
    else if bytes_eq name (bytes_of "aes-256-gcm")
    then some (record { algorithm = aes_256_gcm; salt_len = 32 })
    else if bytes_eq name (bytes_of "aes-128-gcm")
    then some (record { algorithm = aes_128_gcm; salt_len = 16 })
    else none
