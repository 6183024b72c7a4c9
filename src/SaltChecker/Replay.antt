-- ===== src/SaltChecker/Replay.antt =====
-- `insert_and_check` of `src/timed_salt_checker.rs` over a sequence of calls.
use shoes_on_shuttle.SaltChecker.Valid.{insert_and_check-IsValid, expire-IsValid, IsValid, queued}
use shoes_on_shuttle.Common.{
  if◌then◌else◌, ℕ, ◌<◌, ◌≡◌, refl, arith, Bytes, List, [], ◌∷◌, ◌++◌, Bool, true, false, ltb, ◌⊎◌,
  inl, inr, bytes_eq_refl, Bool-cases, All,
}
use shoes_on_shuttle.SaltChecker.{
  TimeEntry, TimedSaltChecker, remove, elapsed_secs, expire, insert_and_check,
}

-- The salt stands in the queue, since the time `t`.
abbrev Stands : ℕ → Bytes → List TimeEntry → Type 0
Stands t salt [] = ⊥
Stands t salt (e ∷ es) = ((e.instant ≡ t) × (e.salt ≡ salt)) ⊎ Stands t salt es

Stands-queued :
    (t : ℕ) (salt : Bytes) (es : List TimeEntry) → Stands t salt es → queued es salt ≡ true
Stands-queued t salt [] h = absurd h
Stands-queued t salt (e ∷ es) (inl h) = ground (arith, bytes_eq_refl salt)
Stands-queued t salt (e ∷ es) (inr h) = ground (arith, Stands-queued t salt es h)

Stands-append_last :
    (t : ℕ) (salt : Bytes) (es : List TimeEntry)
    → Stands t salt (es ++ (record { instant = t; salt = salt } ∷ []))
Stands-append_last t salt [] = inl (refl, refl)
Stands-append_last t salt (e ∷ es) = inr (Stands-append_last t salt es)

Stands-append :
    (t : ℕ) (salt : Bytes) (es more : List TimeEntry)
    → Stands t salt es
    → Stands t salt (es ++ more)
Stands-append t salt [] more h = absurd h
Stands-append t salt (e ∷ es) more (inl h) = inl h
Stands-append t salt (e ∷ es) more (inr h) = inr (Stands-append t salt es more h)

-- What has not run out is not dropped.
Stands-expire :
    (t : ℕ) (salt : Bytes) (now timeout : ℕ) (es : List TimeEntry) (known : Bytes → Bool)
    → elapsed_secs now t < timeout
    → Stands t salt es
    → Stands t salt (expire now timeout es known).0
unfolding expire
Stands-expire t salt now timeout [] known h st = absurd st
Stands-expire t salt now timeout (e ∷ es) known h st =
    elim (Bool-cases (ltb (elapsed_secs now e.instant) timeout)) [
      | inl fresh ↦ rw (fresh, expire) st
      | inr old ↦
          rw (old, expire)
            (Stands-expire t salt now timeout es (remove known e.salt) h (later st old))
    ]
  where
    later :
        Stands t salt (e ∷ es) → ltb (elapsed_secs now e.instant) timeout ≡ false → Stands t salt es
    later (inl (same, _)) old = absurd (ground arith)
    later (inr there) old = there

Stands-insert_and_check :
    (t : ℕ) (salt : Bytes) (now : ℕ) (x : Bytes) (c : TimedSaltChecker)
    → elapsed_secs now t < c.timeout_secs
    → Stands t salt c.last_salts
    → Stands t salt (insert_and_check now x c).1.last_salts
unfolding insert_and_check
Stands-insert_and_check t salt now x c h st =
    let stays = Stands-expire t salt now c.timeout_secs c.last_salts c.known_salts h st in
    let (kept, known) = expire now c.timeout_secs c.last_salts c.known_salts in
    elim (Bool-cases (known x)) [
      | inl old ↦ rw (old, if◌then◌else◌) stays
      | inr fresh ↦ rw (fresh, if◌then◌else◌) (Stands-append t salt kept _ stays)
    ]

timeout-insert_and_check :
    (now : ℕ) (x : Bytes) (c : TimedSaltChecker)
    → (insert_and_check now x c).1.timeout_secs ≡ c.timeout_secs
unfolding insert_and_check
timeout-insert_and_check now x c = ground arith

-- Any calls in a row, each with its time.
unfoldable pub run : List (ℕ × Bytes) → TimedSaltChecker → TimedSaltChecker
run [] c = c
run ((now, x) ∷ calls) c = run calls (insert_and_check now x c).1

refused_now :
    (t : ℕ) (salt : Bytes) (now : ℕ) (c : TimedSaltChecker)
    → IsValid c
    → Stands t salt c.last_salts
    → elapsed_secs now t < c.timeout_secs
    → (insert_and_check now salt c).0 ≡ false
unfolding insert_and_check
refused_now t salt now c v st h =
    let (s, d) = expire-IsValid now c.timeout_secs c.last_salts c.known_salts v.synced v.distinct in
    let stays = Stands-expire t salt now c.timeout_secs c.last_salts c.known_salts h st in
    let (kept, known) = expire now c.timeout_secs c.last_salts c.known_salts in
    ground (arith, s salt, Stands-queued t salt kept stays)

refused :
    (t : ℕ) (salt : Bytes) (calls : List (ℕ × Bytes)) (now : ℕ) (c : TimedSaltChecker)
    → IsValid c
    → Stands t salt c.last_salts
    → All (λ (call : ℕ × Bytes). elapsed_secs call.0 t < c.timeout_secs) calls
    → elapsed_secs now t < c.timeout_secs
    → (insert_and_check now salt (run calls c)).0 ≡ false
unfolding run
refused t salt [] now c v st hs h = refused_now t salt now c v st h
refused t salt ((at, x) ∷ calls) now c v st (h0, hs) h =
    let same = timeout-insert_and_check at x c in
    refused t salt calls now (insert_and_check at x c).1 (insert_and_check-IsValid at x c v)
      (Stands-insert_and_check t salt at x c h0 st) (rw same hs) (rw same h)

accepted-Stands :
    (t : ℕ) (salt : Bytes) (c : TimedSaltChecker)
    → (insert_and_check t salt c).0 ≡ true
    → Stands t salt (insert_and_check t salt c).1.last_salts
unfolding insert_and_check
accepted-Stands t salt c e =
    let (kept, known) = expire t c.timeout_secs c.last_salts c.known_salts in
    elim (Bool-cases (known salt)) [
      | inl old ↦ absurd (cc (rw (old, if◌then◌else◌) at e))
      | inr fresh ↦ rw (fresh, if◌then◌else◌) (Stands-append_last t salt kept)
    ]

-- No replay: once a valid checker has accepted a salt, it refuses that salt, whatever else it is asked
-- in between, at every time that is less than the timeout after the acceptance.
pub insert_and_check-replay :
    (t : ℕ) (salt : Bytes) (c : TimedSaltChecker) (calls : List (ℕ × Bytes)) (now : ℕ)
    → IsValid c
    → (insert_and_check t salt c).0 ≡ true
    → All (λ (call : ℕ × Bytes). elapsed_secs call.0 t < c.timeout_secs) calls
    → elapsed_secs now t < c.timeout_secs
    → (insert_and_check now salt (run calls (insert_and_check t salt c).1)).0 ≡ false
insert_and_check-replay t salt c calls now v e hs h =
    let same = timeout-insert_and_check t salt c in
    refused t salt calls now (insert_and_check t salt c).1 (insert_and_check-IsValid t salt c v)
      (accepted-Stands t salt c e) (rw same hs) (rw same h)

queued-expire :
    (now timeout : ℕ) (x : Bytes) (es : List TimeEntry) (known : Bytes → Bool)
    → queued es x ≡ false
    → queued (expire now timeout es known).0 x ≡ false
unfolding expire
queued-expire now timeout x [] known h = refl
queued-expire now timeout x (e ∷ es) known h =
    ground (arith, queued-expire now timeout x es (remove known e.salt))

-- No false alarm: a valid checker accepts every salt that does not stand in its queue.
pub insert_and_check-fresh :
    (now : ℕ) (salt : Bytes) (c : TimedSaltChecker)
    → IsValid c
    → queued c.last_salts salt ≡ false
    → (insert_and_check now salt c).0 ≡ true
unfolding insert_and_check
insert_and_check-fresh now salt c v h =
    let (s, d) = expire-IsValid now c.timeout_secs c.last_salts c.known_salts v.synced v.distinct in
    let gone = queued-expire now c.timeout_secs salt c.last_salts c.known_salts h in
    ground (arith, s salt, gone)
