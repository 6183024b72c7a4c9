-- ===== src/Poll/Sends.antt =====
-- What a `poll_write` of a stream below has sent.
use shoes_on_shuttle.Common.Holds.{take-nil}
use shoes_on_shuttle.Common.{
  append-nil, ℕ, zero, suc, List, Bytes, [], ◌∷◌, ◌++◌, ◌∙◌, sym, ap, arith, take, length, ◌≡◌, ◌≤◌,
  min,
}
use shoes_on_shuttle.Stream.{Result, success, failure}
use shoes_on_shuttle.Poll.{Poll, ready, pending, Peer, answer_write, WriteAnswer, accepted}

abbrev pub written_by : Result (Poll ℕ) → ℕ
written_by (success (ready n)) = n
written_by (success pending) = 0
written_by (failure e) = 0

pub record Sends (bytes : Bytes) (p : Peer) (answer : Result (Poll ℕ) × Peer) : Type 0 where
  pub some_of : written_by answer.0 ≤ length bytes
  pub sent_now : answer.1.sent ≡ p.sent ++ take (written_by answer.0) bytes

take-min : (n : ℕ) (xs : Bytes) → take (min n (length xs)) xs ≡ take n xs
take-min zero xs = let none : min 0 (length xs) ≡ 0 = omega arith in ap (λ (k : ℕ). take k xs) none
take-min (suc n) [] = take-nil (min (suc n) 0)
take-min (suc n) (x ∷ xs) =
    let one : min (suc n) (suc (length xs)) ≡ suc (min n (length xs)) = omega arith in
    ap (λ (k : ℕ). take k (x ∷ xs)) one ∙ ap (◌∷◌ x) (take-min n xs)

-- A `poll_write` sends what it reports as written, and that is a part of what it is given.
pub answer_write-Sends :
    (answers : List WriteAnswer) (bytes : Bytes) (p : Peer)
    → Sends bytes p (answer_write answers bytes p)
answer_write-Sends [] bytes p = record { some_of = omega arith; sent_now = sym (append-nil p.sent) }
answer_write-Sends (accepted n ∷ later) bytes p = record {
  some_of = omega arith;
  sent_now = ap (◌++◌ p.sent) (sym (take-min n bytes));
}
answer_write-Sends (WriteAnswer.not_yet ∷ later) bytes p = record {
  some_of = omega arith;
  sent_now = sym (append-nil p.sent);
}
answer_write-Sends (WriteAnswer.failed e ∷ later) bytes p = record {
  some_of = omega arith;
  sent_now = sym (append-nil p.sent);
}
