-- ===== src/WebSocket/Flush.antt =====
-- `poll_flush` of `src/websocket/websocket_stream.rs`.
use shoes_on_shuttle.Common.{
  append-nil, Bool, List, Bytes, [], ◌∷◌, ◌++◌, ◌∙◌, sym, ap, refl, arith, length, ◌≡◌, ◌==◌,
  if◌then◌else◌, ltb, inl, inr, Bool-cases,
}
use mathlib.Core.Path.{subst}
use shoes_on_shuttle.Stream.{Result, success, failure}
use shoes_on_shuttle.Poll.{
  Poll, ready, pending, Peer, poll_flush, answer_flush, FlushAnswer, flushed,
}
use shoes_on_shuttle.Common.Holds.{Holds-length}
use shoes_on_shuttle.WebSocket.Types.{WebsocketStream}
use shoes_on_shuttle.WebSocket.Encode.{do_write_frame}
use shoes_on_shuttle.WebSocket.Write.{below_flushed, flush_written, flush_frame}
use shoes_on_shuttle.WebSocket.Outbox.{Outgoing, do_write_frame-Outgoing}

answer_flush_sent :
    (answers : List FlushAnswer) (p : Peer) → (answer_flush answers p).1.sent ≡ p.sent
answer_flush_sent [] p = refl
answer_flush_sent (flushed ∷ later) p = refl
answer_flush_sent (FlushAnswer.not_yet ∷ later) p = refl
answer_flush_sent (FlushAnswer.failed e ∷ later) p = refl

no_bytes : (xs : Bytes) → length xs ≡ 0 → xs ≡ []
no_bytes [] h = refl
no_bytes (x ∷ xs) h = absurd (omega arith)

-- All that was outgoing was sent, if the call is ready.
abbrev AllSent : Bytes → Result (Poll (Unit {0})) × WebsocketStream → Type 0
AllSent total (success (ready _), s) = s.stream.sent ≡ total
AllSent total (success pending, s) = Unit
AllSent total (failure e, s) = Unit

any_result :
    (total : Bytes) (result : Result (Poll (Unit {0}))) (s : WebsocketStream)
    → s.stream.sent ≡ total
    → AllSent total (result, s)
any_result total (success (ready _)) s e = e
any_result total (success pending) s e = tt
any_result total (failure x) s e = tt

below_flushed-AllSent :
    (s : WebsocketStream) (total : Bytes)
    → Outgoing s total
    → s.write_frame_end_offset ≡ 0
    → AllSent total (below_flushed s)
below_flushed-AllSent s total o empty =
    let rest_empty : o.rest ≡ [] = no_bytes o.rest (
      omega (
        arith,
        Holds-length s.write_frame s.write_frame_start_offset s.write_frame_end_offset o.rest
            o.waiting,
        empty,
      )) in
    let answer = poll_flush s.stream in
    any_result total answer.0 (record s { stream = answer.1 })
      (answer_flush_sent s.stream.flushing s.stream
        ∙ sym (append-nil s.stream.sent)
        ∙ ap (◌++◌ s.stream.sent) (sym rest_empty)
        ∙ o.total_is)

flush_written-AllSent :
    (r : Result (Unit {0}) × WebsocketStream) (total : Bytes)
    → Outgoing r.1 total
    → AllSent total (flush_written r)
flush_written-AllSent (failure e, s) total o = tt
flush_written-AllSent (success _, s) total o =
    let Goal = λ (b : Bool). AllSent total (if b then (success pending, s) else below_flushed s) in
    elim (Bool-cases (ltb 0 s.write_frame_end_offset)) [
      | inl left ↦ subst Goal (sym left) tt
      | inr empty ↦ subst Goal (sym empty) (below_flushed-AllSent s total o (ground arith))
    ]

flush_frame-AllSent :
    (s : WebsocketStream) (total : Bytes) → Outgoing s total → AllSent total (flush_frame s)
unfolding flush_frame
flush_frame-AllSent s total o =
    let Goal = λ (b : Bool).
      AllSent total (if b then below_flushed s else flush_written (do_write_frame s)) in
    elim (Bool-cases (s.write_frame_end_offset == 0)) [
      | inl empty ↦ subst Goal (sym empty) (below_flushed-AllSent s total o (ground arith))
      | inr some_left ↦
          subst Goal (sym some_left)
            (flush_written-AllSent (do_write_frame s) total (do_write_frame-Outgoing s total o))
    ]

-- Whenever `poll_flush` is ready, all that was outgoing, what was sent before and what waited in the
-- frame buffer, was sent, in its order and nothing else, if the frame buffer has its 32768 bytes and
-- its offsets in order.
pub flush_frame_sent :
    (s s' : WebsocketStream) (total : Bytes)
    → Outgoing s total
    → flush_frame s ≡ (success (ready tt), s')
    → s'.stream.sent ≡ total
flush_frame_sent s s' total o e = subst (AllSent total) e (flush_frame-AllSent s total o)
