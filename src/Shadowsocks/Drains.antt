-- ===== src/Shadowsocks/Drains.antt =====
-- The inner loop of `poll_read_inner` of `src/shadowsocks/shadowsocks_stream.rs`.
use shoes_on_shuttle.Shadowsocks.Steps.{try_decrypt-Decrypts}
use shoes_on_shuttle.Common.{
  ℕ, zero, suc, Bool, ◌∙◌, sym, refl, arith, ◌+◌, ◌<◌, ◌&&◌, if◌then◌else◌, ltb, inl, inr,
  Bool-cases, not,
}
use mathlib.Core.Path.{subst}
use shoes_on_shuttle.Shadowsocks.Types.{Cipher, ShadowsocksStream, available_len, metadata_size}
use shoes_on_shuttle.Shadowsocks.Decrypt.{Decrypted, need_data, buffer_full, try_decrypt}
use shoes_on_shuttle.Shadowsocks.Fits.{Opens, IsValid, SameSide, Decrypts, max_of}
use shoes_on_shuttle.Shadowsocks.Read.{Drained, drained, failed, on_decrypted, decrypt_loop, drain}

-- What the inner loop leaves: there is room for more.
abbrev pub Drains : ShadowsocksStream → Drained → Type 0
Drains s (drained t) = IsValid t × SameSide s t × (available_len t < max_of t + metadata_size)
Drains s (failed e t) = Unit
Drains s Drained.panic = ⊥
Drains s Drained.out_of_fuel = ⊥

Drains-earlier : (s u : ShadowsocksStream) (d : Drained) → SameSide s u → Drains u d → Drains s d
Drains-earlier s u (drained t) (a, b, e) (v, (a', b', e'), more) =
    (v, (a' ∙ a, b' ∙ b, e' ∙ e), more)
Drains-earlier s u (failed e t) same d = tt
Drains-earlier s u Drained.panic same d = d
Drains-earlier s u Drained.out_of_fuel same d = d

module _ (fill_buffer : Bool) (c : Cipher) (opens : Opens c) where
  decrypt_loop-Drains :
      (fuel : ℕ) (s : ShadowsocksStream)
      → IsValid s
      → available_len s < fuel
      → Drains s (decrypt_loop fill_buffer c fuel s)
  unfolding decrypt_loop
  decrypt_loop-Drains zero s v l = absurd (omega arith)
  decrypt_loop-Drains (suc fuel) s v l =
      one_round (try_decrypt c s) (try_decrypt-Decrypts c opens s v)
        (λ t v' l'. decrypt_loop-Drains fuel t v' (omega (arith, l, l')))
    where
      one_round :
          (d : Decrypted)
          → Decrypts s d
          → ((t : ShadowsocksStream)
              → IsValid t
              → available_len t < available_len s
              → Drains t (decrypt_loop fill_buffer c fuel t))
          → Drains s (on_decrypted fill_buffer (decrypt_loop fill_buffer c fuel) d)
      one_round (need_data t) d again = d
      one_round (buffer_full t) d again = absurd d
      one_round (Decrypted.success t) (v, same, less, more) again =
          let rest = decrypt_loop fill_buffer c fuel t in
          elim (Bool-cases (not fill_buffer && ltb 0 t.processed_end_offset)) [
            | inl stops ↦
                subst (λ (b : Bool). Drains s (if b then drained t else rest)) (sym stops)
                  (v, same, more)
            | inr goes_on ↦
                subst (λ (b : Bool). Drains s (if b then drained t else rest)) (sym goes_on)
                  (Drains-earlier s t rest same (again t v less))
          ]
      one_round (Decrypted.failed message t) d again = tt
      one_round Decrypted.panic d again = absurd d

  pub drain-Drains : (s : ShadowsocksStream) → IsValid s → Drains s (drain fill_buffer c s)
  drain-Drains s v =
      let fuel = suc (available_len s) in
      let loop = decrypt_loop fill_buffer c fuel s in
      let Goal = λ (b : Bool). Drains s (if b then loop else drained s) in
      elim (Bool-cases (ltb 0 s.unprocessed_end_offset)) [
        | inl there ↦ subst Goal (sym there) (decrypt_loop-Drains fuel s v (omega arith))
        | inr nothing ↦ subst Goal (sym nothing) (v, (refl, refl, refl), ground (arith, nothing))
      ]
