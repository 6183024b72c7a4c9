-- ===== src/Selector/Domain.antt =====
-- `matches_domain` of `src/client_proxy_selector.rs`.
use shoes_on_shuttle.Common.{
  get_or-append_left, length-take, get_or-append, take-append-last, append_assoc, ◌==◌, Bool-cases,
  ℕ, ◌-◌, ◌≡◌, refl, arith, Bytes, [], ◌∷◌, ◌++◌, true, ◌⊎◌, inl, inr, length, drop, take,
  bytes_eq_refl, bytes_eq→eq, length-append, drop_front, take-append-drop,
}
use shoes_on_shuttle.Selector.Mask.{ends_with, matches_domain}

-- `ends_with` finds exactly the suffixes.
pub ends_with_sound :
    (text suffix : Bytes)
    → ends_with text suffix ≡ true
    → text ≡ take (length text - length suffix) text ++ suffix
ends_with_sound text suffix h = ground (
  arith,
  take-append-drop (length text - length suffix) text,
  bytes_eq→eq (drop (length text - length suffix) text) suffix,
)

pub ends_with_append : (front suffix : Bytes) → ends_with (front ++ suffix) suffix ≡ true
ends_with_append front suffix = ground (
  arith,
  length-append front suffix,
  drop_front (length (front ++ suffix) - length suffix) front suffix
      (omega (arith, length-append front suffix)),
  bytes_eq_refl suffix,
)

-- `matches_domain` covers the domain itself and what stands before it and a dot, and nothing else:
-- `example.com` covers `a.example.com`, and not `anexample.com`.
pub matches_domain_sound :
    (base name : Bytes)
    → matches_domain base name ≡ true
    → (name ≡ base) ⊎ ((front : Bytes) × (name ≡ front ++ (b'.' ∷ base)))
unfolding matches_domain
matches_domain_sound base name h = elim (Bool-cases (length name == length base)) [
  | inl same ↦ inl (ground (arith, ends_with_sound name base))
  | inr longer ↦ inr (
    take (n - 1) front,
    ground (
      arith,
      ends_with_sound name base,
      take-append-last (n - 1) front 0,
      length-take n name,
      get_or-append_left (n - 1) front base 0,
      append_assoc (take (n - 1) front) (b'.' ∷ []) base,
    ),
  )
]
  where
    n : ℕ
    n = length name - length base

    front : Bytes
    front = take n name

pub matches_domain_complete :
    (base front : Bytes)
    → (matches_domain base base ≡ true) × (matches_domain base (front ++ (b'.' ∷ base)) ≡ true)
unfolding matches_domain
matches_domain_complete base front = (
  ground (arith, bytes_eq_refl base, drop_front 0 [] base refl),
  ground (
    arith,
    ends_with_append (front ++ b'.' ∷ []) base,
    append_assoc front (b'.' ∷ []) base,
    length-append front (b'.' ∷ base),
    get_or-append (length front) (length front) 0 front (b'.' ∷ base) 0,
  ),
)
