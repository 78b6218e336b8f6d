-- ===== src/Qr/Laws.antt =====
-- The life of a QR code (backend/src/utils/qr.util.ts).
use wall_e_campus_assistant.Prelude.{
  ℕ, ◌+◌, ◌/◌, ◌<◌, ◌≡◌, ◌≢◌, ◌↔◌, some, arith, ltb, ◌++◌, inl, inr, Bool-cases, ltb→lt, sym, ◌∙◌,
}
use wall_e_campus_assistant.Text.{Text}
use wall_e_campus_assistant.Qr.{
  Jwt, accepted, token_expired, generate_qr_token, decode_qr_token_unsafe, verify_qr_token,
}

token_expired≢accepted : {id : ℕ} → token_expired ≢ accepted id
token_expired≢accepted h = cc

module _ (jwt : Jwt) (jwt_secret : Text) where
  -- A generated code names its session, and verifies against its session's secret until thirty
  -- seconds of the clock have passed, and not after that.
  pub generate_qr_token-verify :
      (id : ℕ) (qr_secret : Text) (now later : ℕ)
      → (decode_qr_token_unsafe jwt jwt_secret (generate_qr_token jwt jwt_secret id qr_secret now)
          ≡ some id)
        × ((verify_qr_token jwt jwt_secret
                (generate_qr_token jwt jwt_secret id qr_secret now)
                qr_secret
                later
              ≡ accepted id)
            ↔ (later / 1000 < now / 1000 + 30))
  unfolding generate_qr_token decode_qr_token_unsafe verify_qr_token
  generate_qr_token-verify id qr_secret now later = (
    jwt.decode-sign id (qr_secret ++ jwt_secret) 30 now,
    elim (Bool-cases (ltb (later / 1000) (now / 1000 + 30))) [
      | inl e ↦ (
        (λ _. ltb→lt (later / 1000) (now / 1000 + 30) e),
        jwt.verify-sign id (qr_secret ++ jwt_secret) 30 now later,
      )
      | inr e ↦
          let expired =
            jwt.verify-sign_expired id (qr_secret ++ jwt_secret) 30 now later (ground arith) in
          ((λ h. absurd (token_expired≢accepted (sym expired ∙ h))), λ lt. ground arith)
    ],
  )
