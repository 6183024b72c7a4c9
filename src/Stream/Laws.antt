-- ===== src/Stream/Laws.antt =====
-- How the stream operations behave on input that is known in parts.
use shoes_on_shuttle.Common.{
  arith, split_exact, ℕ, ◌≡◌, Bytes, ◌++◌, split_exact-append, length, append_assoc, Bool, true,
  false, Option-cases, inl, inr, split_exact_lem,
}
use mathlib.Core.Path.{refl}
use Prim.Native.String.{String}
use shoes_on_shuttle.Stream.{
  ◌>>◌, err, Outcome, ensure, Io, ErrorKind, Stream, ok, read_exact, write_all, ◌>>=◌,
}

-- `read_exact` takes the bytes that stand in front, and leaves what follows.
pub read_exact-append :
    (n : ℕ) (xs rest : Bytes) (w : Bytes) (f : ℕ)
    → n ≡ length xs
    → read_exact n (record { incoming = xs ++ rest; written = w; flushed = f })
      ≡ ok xs (record { incoming = rest; written = w; flushed = f })
read_exact-append n xs rest w f e = rw (e, split_exact-append xs rest, read_exact)

-- Two writes are one write of both parts.
pub write_all-write_all :
    (xs ys : Bytes) (s : Stream) → (write_all xs >>= λ _. write_all ys) s ≡ write_all (xs ++ ys) s
write_all-write_all xs ys s = rw append_assoc

-- A step that succeeds hands its value and its stream to what follows.
pub bind-ok {ℓ κ} :
    {A : Type ℓ} {B : Type κ} (m : Io A) (f : A → Io B) {s s' : Stream} {a : A}
    → m s ≡ ok a s'
    → (m >>= f) s ≡ f a s'
bind-ok m f e = rw (e, ◌>>=◌)

pub then-ok {κ} :
    {B : Type κ} (m : Io (Unit {0})) (k : Io B) {s s' : Stream} → m s ≡ ok tt s' → (m >> k) s ≡ k s'
then-ok m k e = bind-ok m (λ _. k) e

-- A chain that succeeds has a first step that did.
pub bind-eq-ok {ℓ κ} :
    {A : Type ℓ} {B : Type κ} (m : Io A) (f : A → Io B) (s s' : Stream) (b : B)
    → (m >>= f) s ≡ ok b s'
    → (a : A) × (t : Stream) × (m s ≡ ok a t) × (f a t ≡ ok b s')
bind-eq-ok {A} m f s s' b e = by_outcome (m s) refl
  where
    by_outcome :
        (o : Outcome A) → m s ≡ o → (a : A) × (t : Stream) × (m s ≡ ok a t) × (f a t ≡ ok b s')
    by_outcome (ok a t) h = (a, t, h, rw (h, ◌>>=◌) at e)
    by_outcome (err x t) h = cc (rw (h, ◌>>=◌) at e)
    by_outcome Outcome.panic h = cc (rw (h, ◌>>=◌) at e)

-- A test that lets a run pass holds, and changes nothing.
pub ensure-eq-ok :
    (b : Bool) (kind : ErrorKind) (message : String) (s s' : Stream) {u : Unit {0}}
    → ensure b kind message s ≡ ok u s'
    → (b ≡ true) × (s ≡ s')
ensure-eq-ok true kind message s s' e = ground arith
ensure-eq-ok false kind message s s' e = cc

-- What `read_exact` returned stood in front of the stream.
pub read_exact-eq-ok :
    (n : ℕ) (s s' : Stream) (xs : Bytes)
    → read_exact n s ≡ ok xs s'
    → (s.incoming ≡ xs ++ s'.incoming) × (length xs ≡ n) × (s'.written ≡ s.written)
read_exact-eq-ok n s s' xs e = elim (Option-cases (split_exact n s.incoming)) [
  | inl h ↦ cc (rw (h, read_exact) at e)
  | inr ((front, back), h) ↦
      ground (arith, rw (h, read_exact) at e, split_exact_lem n s.incoming front back h)
]
