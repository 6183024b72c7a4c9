-- ===== src/Http/Auth.antt =====
-- The token that the server of `src/http_handler.rs` asks for.
use shoes_on_shuttle.LineReader.Lines.{without_return}
use shoes_on_shuttle.LineReader.Sequence.{IsLine, joined}
use shoes_on_shuttle.Stream.Post.{if-Post, Post, then-Post}
use shoes_on_shuttle.Http.Server.{
  compare_token, on_prefix, first_27, take_token, is_connection_header, proxy_auth_header_prefix,
  Needed, check_token, connect_header, forward_header,
}
use shoes_on_shuttle.Common.{
  both, ◌<◌, All, List, not, ap, ◌∷◌, ◌+◌, leb, ltb, ◌∙◌, sym, ◌&&◌, ℕ, zero, suc, Bool, false,
  none, some, Bytes, [], ◌++◌, refl, drop, take, length, ◌≡◌, if◌then◌else◌, inl, inr, Bool-cases,
  bytes_eq, bytes_eq→eq,
}
use mathlib.Core.Path.{subst}
use shoes_on_shuttle.Common.Text.{to_ascii_lowercase, is_char_boundary, starts_with}
use shoes_on_shuttle.Stream.{Stream, pure, fail, expect, ◌>>=◌, ErrorKind}
use Prim.Native.String.{String}

-- A header that gives the token.
pub record IsAuth (token line : Bytes) : Type 0 where
  pub header : take 27 (to_ascii_lowercase line) ≡ proxy_auth_header_prefix
  pub gives : drop 27 line ≡ token

-- The bytes `pending` begin with lines, none of them blank, of which one behind the first is such a
-- header, less a carriage return at its end.
pub record Carries (token pending : Bytes) : Type 0 where
  pub before : List Bytes
  pub line : Bytes
  pub after : Bytes
  pub there : pending ≡ joined before ++ (line ++ (10 ∷ after))
  pub are_lines : All IsLine before
  pub behind_first : 0 < length before
  pub is_line : IsLine line
  pub is_auth : IsAuth token (without_return line)

-- A token that is no longer needed was given.
abbrev pub Given : Bytes → Bytes → Needed → Type 0
Given token pending none = Carries token pending
Given token pending (some t) = t ≡ token

take-to_ascii_lowercase :
    (n : ℕ) (xs : Bytes) → take n (to_ascii_lowercase xs) ≡ to_ascii_lowercase (take n xs)
unfolding to_ascii_lowercase
take-to_ascii_lowercase zero xs = refl
take-to_ascii_lowercase (suc n) [] = refl
take-to_ascii_lowercase (suc n) (x ∷ xs) =
    ap (◌∷◌ (if leb b'A' x && leb x b'Z' then x + 32 else x)) (take-to_ascii_lowercase n xs)

module _ (token pending line : Bytes) (carried : IsAuth token line → Carries token pending) where
  check_token-Given :
      (message : String) (t : Bytes) (s : Stream)
      → t ≡ token
      → take 27 (to_ascii_lowercase line) ≡ proxy_auth_header_prefix
      → Post (λ still s'. Given token pending still × (s' ≡ s)) (check_token message t line s)
  check_token-Given message t s e header =
      let Q = λ (still : Needed) (s' : Stream). Given token pending still × (s' ≡ s) in
      let rest : Bytes = drop 27 line in
      let Cut = λ (b : Bool).
        Post Q ((expect (if b then some rest else none) >>= compare_token message t) s) in
      let compared : Post Q (compare_token message t rest s) =
        if-Post Q (bytes_eq rest t) (pure none) (fail ErrorKind.invalid_input message) s
          (λ right.
            (carried (record { header = header; gives = bytes_eq→eq rest t right ∙ e }), refl))
          (λ _. tt) in
      elim (Bool-cases (leb 27 (length line) && is_char_boundary 27 line)) [
        | inl whole ↦ subst Cut (sym whole) compared
        | inr inside ↦ subst Cut (sym inside) tt
      ]

  pub connect_header-Given :
      (needed : Needed) (s : Stream)
      → Given token pending needed
      → Post (λ still s'. Given token pending still × (s' ≡ s)) (connect_header needed line s)
  unfolding connect_header
  connect_header-Given none s g = (g, refl)
  connect_header-Given (some t) s e =
      let Q = λ (still : Needed) (s' : Stream). Given token pending still × (s' ≡ s) in
      let message : String = "Incorrect HTTP CONNECT authentication" in
      let matched : Post Q (on_prefix t line (take 27 line) s) =
        if-Post Q (bytes_eq (to_ascii_lowercase (take 27 line)) proxy_auth_header_prefix)
          (check_token message t line) (pure (some t)) s
          (λ same. check_token-Given message t s e (
            take-to_ascii_lowercase 27 line
            ∙ bytes_eq→eq (to_ascii_lowercase (take 27 line)) proxy_auth_header_prefix same))
          (λ _. (e, refl)) in
      let Cut = λ (b : Bool).
        Post Q ((expect (if b then some (take 27 line) else none) >>= on_prefix t line) s) in
      let long : Cut (is_char_boundary 27 line) = elim (Bool-cases (is_char_boundary 27 line)) [
        | inl whole ↦ subst Cut (sym whole) matched
        | inr inside ↦ subst Cut (sym inside) tt
      ] in
      if-Post Q (ltb 28 (length line)) (expect (first_27 line) >>= on_prefix t line) (pure (some t))
        s (λ _. long) (λ _. (e, refl))

  take_token-Given :
      (needed : Needed) (s : Stream)
      → Given token pending needed
      → take 27 (to_ascii_lowercase line) ≡ proxy_auth_header_prefix
      → Post (λ done s'. Given token pending done.0 × (s' ≡ s)) (take_token needed line s)
  take_token-Given none s g header = (g, refl)
  take_token-Given (some t) s e header =
      let message : String = "Incorrect HTTP GET authentication" in
      then-Post (λ still s'. Given token pending still × (s' ≡ s))
        (λ done s'. Given token pending done.0 × (s' ≡ s)) (check_token message t line s)
        (λ still. pure (still, false)) (check_token-Given message t s e header) (λ still s' g. g)

  pub forward_header-Given :
      (needed : Needed) (s : Stream)
      → Given token pending needed
      → Post (λ done s'. Given token pending done.0 × (s' ≡ s)) (forward_header needed line s)
  unfolding forward_header starts_with
  forward_header-Given needed s g =
      let lower = to_ascii_lowercase line in
      if-Post (λ done s'. Given token pending done.0 × (s' ≡ s))
        (ltb 28 (length line) && starts_with proxy_auth_header_prefix lower)
        (take_token needed line) (pure (needed, not (is_connection_header lower))) s
        (λ is_auth. take_token-Given needed s g (
          bytes_eq→eq (take 27 lower) proxy_auth_header_prefix
            (both (leb 27 (length lower)) _ (both (ltb 28 (length line)) _ is_auth).1).1))
        (λ _. (g, refl))
