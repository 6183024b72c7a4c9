-- ===== src/Shadowsocks/Digests.antt =====
-- `get_key_bytes` of `src/shadowsocks/default_key.rs` against the chain of digests that it stands for.
use shoes_on_shuttle.Common.{
  append_assoc, length-append, ℕ, zero, suc, Bool, false, some, Bytes, [], ◌∷◌, ◌++◌, ◌∙◌, sym, ap,
  refl, arith, take, length, ◌≡◌, ◌+◌, ◌≤◌, if◌then◌else◌, leb, inl, inr, Bool-cases,
}
use shoes_on_shuttle.Shadowsocks.Keys.{key_digests, get_key_bytes}

-- Each digest is that of the one before it and the password, as OpenSSL's `EVP_BytesToKey` has it.
abbrev digests : (Bytes → Bytes) → Bytes → ℕ → Bytes → Bytes
digests md5 key zero context = []
digests md5 key (suc n) context = md5 (context ++ key) ++ digests md5 key n (md5 (context ++ key))

take-append_front : (n : ℕ) (xs ys : Bytes) → n ≤ length xs → take n (xs ++ ys) ≡ take n xs
take-append_front zero xs ys l = refl
take-append_front (suc n) [] ys l = absurd (omega arith)
take-append_front (suc n) (x ∷ xs) ys l = ap (◌∷◌ x) (take-append_front n xs ys (omega arith))

module _ (md5 : Bytes → Bytes) (size : (b : Bytes) → length (md5 b) ≡ 16) (n : ℕ)
    (key : Bytes) where
  -- A round ends with the digests so far or, by `next`, as the rounds after it do.
  round :
      (fuel : ℕ) (context ret : Bytes)
      → (leb n (length (ret ++ md5 (context ++ key))) ≡ false
          → key_digests md5 n key fuel (md5 (context ++ key)) (ret ++ md5 (context ++ key))
            ≡ some (
                take n
                  ((ret ++ md5 (context ++ key)) ++ digests md5 key fuel (md5 (context ++ key)))))
      → key_digests md5 n key (suc fuel) context ret
        ≡ some (take n (ret ++ digests md5 key (suc fuel) context))
  unfolding key_digests
  round fuel context ret next =
      let d : Bytes = md5 (context ++ key) in
      let more : Bytes = digests md5 key fuel d in
      let enough = leb n (length (ret ++ d)) in
      let rest = key_digests md5 n key fuel d (ret ++ d) in
      let all : take n ((ret ++ d) ++ more) ≡ take n (ret ++ (d ++ more)) =
        ap (take n) (append_assoc ret d more) in
      elim (Bool-cases enough) [
        | inl there ↦
            ap (λ (b : Bool). if b then some (take n (ret ++ d)) else rest) there
            ∙ ap some (sym (take-append_front n (ret ++ d) more (ground (arith, there))) ∙ all)
        | inr missing ↦
            ap (λ (b : Bool). if b then some (take n (ret ++ d)) else rest) missing
            ∙ next missing
            ∙ ap some all
      ]

  length-grown : (context ret : Bytes) → length (ret ++ md5 (context ++ key)) ≡ length ret + 16
  length-grown context ret =
      omega (arith, length-append ret (md5 (context ++ key)), size (context ++ key))

  key_digests-digests :
      (fuel : ℕ) (context ret : Bytes)
      → n ≤ length ret + suc fuel
      → key_digests md5 n key (suc fuel) context ret
        ≡ some (take n (ret ++ digests md5 key (suc fuel) context))
  key_digests-digests zero context ret l =
      round zero context ret
        (λ missing. absurd (ground (arith, l, missing, length-grown context ret)))
  key_digests-digests (suc f) context ret l =
      let d : Bytes = md5 (context ++ key) in
      round (suc f) context ret
        (λ missing. key_digests-digests f d (ret ++ d) (omega (arith, l, length-grown context ret)))

  -- `get_key_bytes` ends, and gives the first `n` bytes of the digests, for a hash of 16 bytes.
  get_key_bytes-digests : get_key_bytes md5 key n ≡ some (take n (digests md5 key (suc n) []))
  unfolding get_key_bytes
  get_key_bytes-digests = key_digests-digests n [] [] (omega arith)
