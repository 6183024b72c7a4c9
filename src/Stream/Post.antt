-- ===== src/Stream/Post.antt =====
-- What holds of the result of a step on a stream, if it returns one.
use shoes_on_shuttle.Common.{refl, ◌≡◌, Bool, true, false, if◌then◌else◌}
use shoes_on_shuttle.Stream.{ensure, String, ErrorKind, Io, Outcome, Stream, ok, err, panic}

abbrev pub Post : {A : Type 0} → (A → Stream → Type 0) → Outcome A → Type 0
Post Q (ok a s) = Q a s
Post Q (err e s) = Unit
Post Q panic = Unit

module _ {A B : Type 0} (P : A → Stream → Type 0) (Q : B → Stream → Type 0) where
  pub then-Post :
      (o : Outcome A) (f : A → Io B)
      → Post P o
      → ((a : A) (s : Stream) → P a s → Post Q (f a s))
      → Post Q (elim o [ ok a s' ↦ f a s' | err e s' ↦ err e s' | panic ↦ panic ])
  then-Post (ok a s) f h k = k a s h
  then-Post (err e s) f h k = tt
  then-Post panic f h k = tt

pub if-Post :
    {B : Type 0} (Q : B → Stream → Type 0) (c : Bool) (m m' : Io B) (s : Stream)
    → (c ≡ true → Post Q (m s))
    → (c ≡ false → Post Q (m' s))
    → Post Q ((if c then m else m') s)
if-Post Q true m m' s h h' = h refl
if-Post Q false m m' s h h' = h' refl

pub any-Post : {A : Type 0} (o : Outcome A) → Post (λ a s. Unit {0}) o
any-Post (ok a s) = tt
any-Post (err e s) = tt
any-Post panic = tt

-- A test that lets a run pass holds, and changes nothing.
pub ensure-Post :
    (b : Bool) (kind : ErrorKind) (message : String) (s : Stream)
    → Post (λ _ s'. (s' ≡ s) × (b ≡ true)) (ensure b kind message s)
ensure-Post true kind message s = (refl, refl)
ensure-Post false kind message s = tt
