-- ===== src/Stream.antt =====
-- The byte stream of `async_stream.rs` as the handlers use it through tokio's `AsyncReadExt` and
-- `AsyncWriteExt`: `read_exact`, `write_all` and `flush` on a `Box<dyn AsyncStream>`, and the
-- `std::io::Result` that every step returns.
pub mod Laws
pub mod Post
use Prim.Native.String.{String}
use shoes_on_shuttle.Common.{
  ℕ, Bool, true, false, Bytes, List, [], ◌∷◌, ◌++◌, Option, none, some, split_exact, length,
}

-- `std::io::ErrorKind`, as far as the program names it.
pub data ErrorKind : Type 0 where
  invalid_input invalid_data unexpected_eof connection_aborted other : ErrorKind

-- `std::io::Error::new(kind, message)`, with the fixed part of the message.
pub record IoError : Type 0 where
  pub kind : ErrorKind
  pub message : String

-- What the peer sends and has not been read yet, what was written for it, and how many of the
-- written bytes were flushed.
pub record Stream : Type 0 where
  pub incoming : Bytes
  pub written : Bytes
  pub flushed : ℕ

-- `panic` is an `unwrap`, an assertion or an index out of range.
pub data Outcome {ℓ} (A : Type ℓ) : Type ℓ where
  ok : A → Stream → Outcome A
  err : IoError → Stream → Outcome A
  panic : Outcome A

-- `std::io::Result` with no stream at hand.
pub data Result {ℓ} (A : Type ℓ) : Type ℓ where
  success : A → Result A
  failure : IoError → Result A

abbrev pub Io {ℓ} : Type ℓ → Type ℓ
Io A = Stream → Outcome A

abbrev pub pure {ℓ} : {A : Type ℓ} → A → Io A
pure a s = ok a s

abbrev pub fail {ℓ} : {A : Type ℓ} → ErrorKind → String → Io A
fail kind message s = err (record { kind = kind; message = message }) s

infixl 5 ◌>>=◌ ◌>>◌
abbrev pub ◌>>=◌ {ℓ κ} : {A : Type ℓ} {B : Type κ} → Io A → (A → Io B) → Io B
◌>>=◌ m f s = elim (m s) [ ok a s' ↦ f a s' | err e s' ↦ err e s' | panic ↦ panic ]

abbrev pub ◌>>◌ {ℓ} : {B : Type ℓ} → Io (Unit {0}) → Io B → Io B
m >> k = m >>= λ _. k

-- `if !test { return Err(…) }`
abbrev pub ensure : Bool → ErrorKind → String → Io (Unit {0})
ensure true kind message = pure tt
ensure false kind message = fail kind message

-- `e?` on a `std::io::Result`.
abbrev pub lift {ℓ} : {A : Type ℓ} → Result A → Io A
lift (success a) s = ok a s
lift (failure e) s = err e s

-- An index or a slice that panics where it is out of range.
abbrev pub expect {ℓ} : {A : Type ℓ} → Option A → Io A
expect (some a) s = ok a s
expect none s = panic

-- Fails where the peer closes the stream before `n` bytes came.
abbrev pub read_exact : ℕ → Io Bytes
read_exact n s = elim (split_exact n s.incoming) [
  | some (front, back) ↦ ok front (record s { incoming = back })
  | none ↦
      err (record { kind = unexpected_eof; message = "early eof" }) (record s { incoming = [] })
]

abbrev pub write_all : Bytes → Io (Unit {0})
write_all bytes s = ok tt (record s { written = s.written ++ bytes })

abbrev pub flush : Io (Unit {0})
flush s = ok tt (record s { flushed = length s.written })

-- A stream on which the peer sends `bytes`.
abbrev pub receiving : Bytes → Stream
receiving bytes = record { incoming = bytes; written = []; flushed = 0 }
