-- ===== src/Qr/Reference.antt =====
-- A token library with the behaviour that the model relies on.
use wall_e_campus_assistant.Prelude.{
  ℕ, ◌+◌, ◌/◌, ◌<◌, ◌≤◌, ◌≡◌, refl, some, ltb, arith, if◌then◌else◌,
}
use wall_e_campus_assistant.Text.{Text, text_eq}
use wall_e_campus_assistant.Cohort.Laws.{text_eq_iff}
use wall_e_campus_assistant.Qr.{Jwt, Verification, accepted, token_expired, invalid}

-- The payload, the secret it is signed with, and the second at which it expires.
pub record SignedToken : Type 0 where
  pub session_id : ℕ
  pub secret : Text
  pub expires : ℕ

abbrev pub verify_token : SignedToken → Text → ℕ → Verification
verify_token token secret now =
    if text_eq token.secret secret
    then (if ltb (now / 1000) token.expires then accepted token.session_id else token_expired)
    else invalid

pub verify_token_accepted :
    (id : ℕ) (secret : Text) (expires later : ℕ)
    → later / 1000 < expires
    → verify_token (record { session_id = id; secret = secret; expires = expires }) secret later
      ≡ accepted id
verify_token_accepted id secret expires later h =
    let e = (text_eq_iff secret secret).1 refl in ground arith

pub verify_token_expired :
    (id : ℕ) (secret : Text) (expires later : ℕ)
    → expires ≤ later / 1000
    → verify_token (record { session_id = id; secret = secret; expires = expires }) secret later
      ≡ token_expired
verify_token_expired id secret expires later h =
    let e = (text_eq_iff secret secret).1 refl in ground arith

abbrev pub reference_jwt : Jwt
reference_jwt = record {
  Token = SignedToken;
  sign = λ session_id secret seconds now. record {
    session_id = session_id;
    secret = secret;
    expires = now / 1000 + seconds;
  };
  decode = λ token. some token.session_id;
  verify = verify_token;
  decode-sign = λ session_id secret seconds now. refl;
  verify-sign = λ session_id secret seconds now later h.
      verify_token_accepted session_id secret (now / 1000 + seconds) later h;
  verify-sign_expired = λ session_id secret seconds now later h.
      verify_token_expired session_id secret (now / 1000 + seconds) later h;
}
