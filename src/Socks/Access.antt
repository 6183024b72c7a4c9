-- ===== src/Socks/Access.antt =====
-- The authentication of `setup_server_stream` of `src/socks_handler.rs`, read backwards from its success.
use shoes_on_shuttle.Common.{
  ◌≡◌, refl, arith, Bytes, ◌∷◌, ◌++◌, length, true, Option, some, bytes_eq→eq, split_exact-cases,
  inl, inr, one_byte, two_bytes, get_or,
}
use shoes_on_shuttle.TcpHandler.{TcpServerSetupResult}
use shoes_on_shuttle.Stream.{Outcome, err, Stream, ok}
use shoes_on_shuttle.Socks.Constants.{ver_socks5, method_username, ver_auth}
use shoes_on_shuttle.Socks.Server.{
  contains, supported_method, choose_method, authenticate, setup_server_stream,
}

-- Where the authentication succeeds, the client sent both credentials, each behind its length.
authenticate-eq-ok :
    (u p : Bytes) (s s' : Stream) (x : Unit {0})
    → authenticate (some (u, p)) s ≡ ok x s'
    → s.incoming ≡ ver_auth ∷ length u ∷ (u ++ (length p ∷ (p ++ s'.incoming)))
unfolding authenticate
authenticate-eq-ok u p s s' x e = elim (split_exact-cases 2 s.incoming) [
  | inl h ↦ ground arith
  | inr (h0, r0, e0, q0, n0) ↦ elim (split_exact-cases (get_or h0 1 0) r0) [
    | inl h ↦ ground arith
    | inr (h1, r1, e1, q1, n1) ↦ elim (split_exact-cases 1 r1) [
      | inl h ↦ ground arith
      | inr (h2, r2, e2, q2, n2) ↦ elim (split_exact-cases (get_or h2 0 0) r2) [
        | inl h ↦ ground arith
        | inr (h3, r3, e3, q3, n3) ↦
            ground (arith, two_bytes h0 n0, one_byte h2 n2, bytes_eq→eq u h1, bytes_eq→eq p h3)
      ]
    ]
  ]
]

choose_method-eq-ok :
    (c : Option (Bytes × Bytes)) (s s' : Stream) (x : Unit {0})
    → choose_method c s ≡ ok x s'
    → (methods : Bytes) × (s.incoming ≡ ver_socks5 ∷ length methods ∷ (methods ++ s'.incoming))
      × (contains (supported_method c) methods ≡ true)
unfolding choose_method
choose_method-eq-ok c s s' x e = elim (split_exact-cases 2 s.incoming) [
  | inl h ↦ ground arith
  | inr (h0, r0, e0, q0, n0) ↦ elim (split_exact-cases (get_or h0 1 0) r0) [
    | inl h ↦ ground arith
    | inr (h1, r1, e1, q1, n1) ↦ (h1, ground (arith, two_bytes h0 n0), ground arith)
  ]
]

-- A server that was given credentials forwards for nobody else: if it returns at all with success,
-- the client offered the username method and then sent exactly those credentials, and the request
-- came only behind them.
pub setup_server_stream-credentials :
    (u p : Bytes) (s s' : Stream) (r : TcpServerSetupResult)
    → setup_server_stream (record { auth_info = some (u, p) }) s ≡ ok r s'
    → (methods : Bytes) × (request : Bytes) × (contains method_username methods ≡ true)
      × (s.incoming
          ≡ ver_socks5
            ∷ length methods
            ∷ (methods ++ (ver_auth ∷ length u ∷ (u ++ (length p ∷ (p ++ request))))))
unfolding setup_server_stream
setup_server_stream-credentials u p s s' r e = by_choice (choose_method (some (u, p)) s) refl
  where
    Goal : Type 0
    Goal =
        (methods : Bytes) × (request : Bytes) × (contains method_username methods ≡ true)
        × (s.incoming
            ≡ ver_socks5
              ∷ length methods
              ∷ (methods ++ (ver_auth ∷ length u ∷ (u ++ (length p ∷ (p ++ request))))))

    by_auth :
        (t : Stream)
        → choose_method (some (u, p)) s ≡ ok tt t
        → (o : Outcome (Unit {0})) → authenticate (some (u, p)) t ≡ o
        → Goal
    by_auth t h (ok x t') k =
        let (methods, sent, offered) = choose_method-eq-ok (some (u, p)) s t tt h in
        (methods, t'.incoming, offered, ground (arith, authenticate-eq-ok u p t t' x k))
    by_auth t h (err x t') k = ground arith
    by_auth t h Outcome.panic k = ground arith

    by_choice : (o : Outcome (Unit {0})) → choose_method (some (u, p)) s ≡ o → Goal
    by_choice (ok tt t) h = by_auth t h (authenticate (some (u, p)) t) refl
    by_choice (err x t) h = ground arith
    by_choice Outcome.panic h = ground arith
