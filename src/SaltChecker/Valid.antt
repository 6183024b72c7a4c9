-- ===== src/SaltChecker/Valid.antt =====
-- The invariant of `TimedSaltChecker` of `src/timed_salt_checker.rs`: its set and its queue.
use shoes_on_shuttle.Common.{
  if◌then◌else◌, ℕ, ◌≡◌, refl, arith, Bytes, List, [], ◌∷◌, ◌++◌, Bool, false, ltb, ◌||◌, inl, inr,
  bytes_eq, bytes_eq→eq, Bool-cases,
}
use shoes_on_shuttle.SaltChecker.{
  TimeEntry, TimedSaltChecker, new, remove, elapsed_secs, expire, insert_and_check,
}

-- Whether a salt stands in the queue.
abbrev pub queued : List TimeEntry → Bytes → Bool
queued [] x = false
queued (e ∷ es) x = bytes_eq x e.salt || queued es x

-- No salt stands in the queue twice.
abbrev Distinct : List TimeEntry → Type 0
Distinct [] = Unit
Distinct (e ∷ es) = (queued es e.salt ≡ false) × Distinct es

-- The set holds the salts of the queue.
abbrev Synced : List TimeEntry → (Bytes → Bool) → Type 0
Synced es known = (x : Bytes) → known x ≡ queued es x

pub record IsValid (c : TimedSaltChecker) : Type 0 where
  pub synced : Synced c.last_salts c.known_salts
  pub distinct : Distinct c.last_salts

pub new-IsValid : (timeout : ℕ) → IsValid (new timeout)
new-IsValid timeout = record { synced = λ x. refl; distinct = tt }

remove-Synced :
    (e : TimeEntry) (es : List TimeEntry) (known : Bytes → Bool)
    → queued es e.salt ≡ false
    → Synced (e ∷ es) known
    → Synced es (remove known e.salt)
remove-Synced e es known d s x = elim (Bool-cases (bytes_eq x e.salt)) [
  | inl same ↦ ground (arith, bytes_eq→eq x e.salt same)
  | inr other ↦ ground (arith, s x)
]

pub expire-IsValid :
    (now timeout : ℕ) (es : List TimeEntry) (known : Bytes → Bool)
    → Synced es known
    → Distinct es
    → let (kept, left) = expire now timeout es known in Synced kept left × Distinct kept
unfolding expire
expire-IsValid now timeout [] known s d = (s, d)
expire-IsValid now timeout (e ∷ es) known s d =
    elim (Bool-cases (ltb (elapsed_secs now e.instant) timeout)) [
      | inl fresh ↦ rw (fresh, expire) (s, d)
      | inr old ↦
          rw (old, expire)
            (expire-IsValid now timeout es (remove known e.salt) (remove-Synced e es known d.0 s)
              d.1)
    ]

queued-append :
    (es : List TimeEntry) (e : TimeEntry) (x : Bytes)
    → queued (es ++ (e ∷ [])) x ≡ (bytes_eq x e.salt || queued es x)
queued-append [] e x = refl
queued-append (f ∷ es) e x = ground (arith, queued-append es e x)

bytes_eq_sym : (x y : Bytes) → bytes_eq x y ≡ bytes_eq y x
bytes_eq_sym [] [] = refl
bytes_eq_sym [] (y ∷ ys) = refl
bytes_eq_sym (x ∷ xs) [] = refl
bytes_eq_sym (x ∷ xs) (y ∷ ys) = ground (arith, bytes_eq_sym xs ys)

Distinct-append :
    (es : List TimeEntry) (e : TimeEntry)
    → Distinct es
    → queued es e.salt ≡ false
    → Distinct (es ++ (e ∷ []))
Distinct-append [] e d n = (refl, tt)
Distinct-append (f ∷ es) e d n = (
  ground (arith, queued-append es e f.salt, bytes_eq_sym f.salt e.salt),
  Distinct-append es e d.1 (ground arith),
)

-- `insert_and_check` keeps the set and the queue in step, and the queue free of repetitions.
pub insert_and_check-IsValid :
    (now : ℕ) (salt : Bytes) (c : TimedSaltChecker)
    → IsValid c
    → IsValid (insert_and_check now salt c).1
unfolding insert_and_check
insert_and_check-IsValid now salt c v =
    let (s, d) = expire-IsValid now c.timeout_secs c.last_salts c.known_salts v.synced v.distinct in
    let (kept, known) = expire now c.timeout_secs c.last_salts c.known_salts in
    elim (Bool-cases (known salt)) [
      | inl old ↦ rw (old, if◌then◌else◌) (record { synced = s; distinct = d })
      | inr fresh ↦
          rw (fresh, if◌then◌else◌)
            (record {
              synced = λ x.
                  ground (arith, queued-append kept (record { instant = now; salt = salt }) x, s x);
              distinct =
                  Distinct-append kept (record { instant = now; salt = salt }) d
                    (ground (arith, s salt));
            })
    ]
