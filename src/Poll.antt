-- ===== src/Poll.antt =====
-- The streams below a `poll_…` function: what `poll_read`, `poll_write` and `poll_flush` of a
-- `Box<dyn AsyncStream>` of `src/async_stream.rs` answer, in the order of the calls.
pub mod Sends
use shoes_on_shuttle.Common.{
  ℕ, Bytes, List, [], ◌∷◌, ◌++◌, length, take, drop, leb, min, if◌then◌else◌,
}
use shoes_on_shuttle.Stream.{IoError, Result, success, failure}

-- `std::task::Poll`.
pub data Poll {ℓ} (A : Type ℓ) : Type ℓ where
  ready : A → Poll A
  pending : Poll A

-- Some bytes have come, none of them at the end of the stream.
pub data ReadAnswer : Type 0 where
  arrived : Bytes → ReadAnswer
  not_yet : ReadAnswer
  failed : IoError → ReadAnswer

-- The stream has room for so many bytes.
pub data WriteAnswer : Type 0 where
  accepted : ℕ → WriteAnswer
  not_yet : WriteAnswer
  failed : IoError → WriteAnswer

pub data FlushAnswer : Type 0 where
  flushed : FlushAnswer
  not_yet : FlushAnswer
  failed : IoError → FlushAnswer

-- `sent` is what the stream has taken so far.
pub record Peer : Type 0 where
  pub arriving : List ReadAnswer
  pub accepting : List WriteAnswer
  pub flushing : List FlushAnswer
  pub sent : Bytes

-- Bytes beyond the room are left for the next call. Without an answer the stream is pending.
abbrev pub answer_read : List ReadAnswer → ℕ → Peer → Result (Poll Bytes) × Peer
answer_read [] room p = (success pending, p)
answer_read (arrived bytes ∷ later) room p =
    if leb (length bytes) room then (success (ready bytes), record p { arriving = later }) else (
      success (ready (take room bytes)),
      record p { arriving = arrived (drop room bytes) ∷ later },
    )
answer_read (ReadAnswer.not_yet ∷ later) room p = (success pending, record p { arriving = later })
answer_read (ReadAnswer.failed e ∷ later) room p = (failure e, record p { arriving = later })

abbrev pub poll_read : ℕ → Peer → Result (Poll Bytes) × Peer
poll_read room p = answer_read p.arriving room p

abbrev pub answer_write : List WriteAnswer → Bytes → Peer → Result (Poll ℕ) × Peer
answer_write [] bytes p = (success pending, p)
answer_write (accepted n ∷ later) bytes p = (
  success (ready (min n (length bytes))),
  record p { accepting = later; sent = p.sent ++ take n bytes },
)
answer_write (WriteAnswer.not_yet ∷ later) bytes p =
    (success pending, record p { accepting = later })
answer_write (WriteAnswer.failed e ∷ later) bytes p = (failure e, record p { accepting = later })

abbrev pub poll_write : Bytes → Peer → Result (Poll ℕ) × Peer
poll_write bytes p = answer_write p.accepting bytes p

abbrev pub answer_flush : List FlushAnswer → Peer → Result (Poll (Unit {0})) × Peer
answer_flush [] p = (success pending, p)
answer_flush (flushed ∷ later) p = (success (ready tt), record p { flushing = later })
answer_flush (FlushAnswer.not_yet ∷ later) p = (success pending, record p { flushing = later })
answer_flush (FlushAnswer.failed e ∷ later) p = (failure e, record p { flushing = later })

abbrev pub poll_flush : Peer → Result (Poll (Unit {0})) × Peer
poll_flush p = answer_flush p.flushing p
