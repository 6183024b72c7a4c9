-- ===== src/Examples/Salts.antt =====
-- The theorems on `src/timed_salt_checker.rs` at concrete inputs.
use shoes_on_shuttle.Common.{Bytes, [], ◌∷◌, ◌≡◌, refl, arith, true, false}
use shoes_on_shuttle.SaltChecker.{TimedSaltChecker, insert_and_check, new}
use shoes_on_shuttle.SaltChecker.Valid.{queued, IsValid, new-IsValid, insert_and_check-IsValid}
use shoes_on_shuttle.SaltChecker.Replay.{run, insert_and_check-replay}

abbrev start : TimedSaltChecker
start = new 60

abbrev salt : Bytes
salt = 1 ∷ 2 ∷ 3 ∷ []

accepted : (insert_and_check 0 salt start).0 ≡ true
unfolding insert_and_check
accepted = refl

insert_and_check-IsValid_example : IsValid (insert_and_check 5 salt start).1
insert_and_check-IsValid_example = insert_and_check-IsValid 5 salt start (new-IsValid 60)

-- Thirty seconds later, with another salt in between.
insert_and_check-replay_example :
    (insert_and_check 30_000_000_000 salt
      (run ((10_000_000_000, 4 ∷ []) ∷ []) (insert_and_check 0 salt start).1)).0
    ≡ false
insert_and_check-replay_example =
    insert_and_check-replay 0 salt start ((10_000_000_000, 4 ∷ []) ∷ []) 30_000_000_000
      (new-IsValid 60) accepted (omega arith, tt) (omega arith)

absent : queued (insert_and_check 5 salt start).1.last_salts (4 ∷ []) ≡ false
unfolding insert_and_check
absent = refl
