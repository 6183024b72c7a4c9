-- ===== src/SaltChecker.antt =====
-- `src/timed_salt_checker.rs`: salts that were seen, remembered for a time. `known_salts` is a set,
-- given by its test; an `Instant` is a number of nanoseconds, and the readings of the clock in one
-- call count as one, `now`.
pub mod Valid
pub mod Replay
use shoes_on_shuttle.Common.{
  ℕ, ◌-◌, ◌/◌, Bytes, List, [], ◌∷◌, ◌++◌, Bool, true, false, ltb, if◌then◌else◌, bytes_eq,
}

pub record TimeEntry : Type 0 where
  pub instant : ℕ
  pub salt : Bytes

pub record TimedSaltChecker : Type 0 where
  pub last_salts : List TimeEntry
  pub known_salts : Bytes → Bool
  pub timeout_secs : ℕ

abbrev pub new : ℕ → TimedSaltChecker
new timeout_secs = record {
  last_salts = [];
  known_salts = λ salt. false;
  timeout_secs = timeout_secs;
}

abbrev pub remove : (Bytes → Bool) → Bytes → Bytes → Bool
remove known salt x = if bytes_eq x salt then false else known x

abbrev pub insert : (Bytes → Bool) → Bytes → Bytes → Bool
insert known salt x = if bytes_eq x salt then true else known x

-- `instant.elapsed().as_secs()`.
abbrev pub elapsed_secs : ℕ → ℕ → ℕ
elapsed_secs now instant = (now - instant) / 1_000_000_000

-- The loop over the front of `last_salts`: what is left of it and of the set.
unfoldable pub expire : ℕ → ℕ → List TimeEntry → (Bytes → Bool) → List TimeEntry × (Bytes → Bool)
expire now timeout [] known = ([], known)
expire now timeout (e ∷ es) known = elim (ltb (elapsed_secs now e.instant) timeout) [
  | true ↦ (e ∷ es, known)
  | false ↦ expire now timeout es (remove known e.salt)
]

-- `insert_and_check`: whether the salt is new, and the checker afterwards.
unfoldable pub insert_and_check : ℕ → Bytes → TimedSaltChecker → Bool × TimedSaltChecker
unfolding expire
insert_and_check now salt c =
    let (kept, known) = expire now c.timeout_secs c.last_salts c.known_salts in
    if known salt then (false, record c { last_salts = kept; known_salts = known }) else (
      true,
      record c {
        last_salts = kept ++ (record { instant = now; salt = salt } ∷ []);
        known_salts = insert known salt;
      },
    )
