-- ===== src/Qr.antt =====
-- backend/src/utils/qr.util.ts over the library jsonwebtoken, which is not part of the repository:
-- its three calls as a record of functions, with the documented behaviour that the code relies on.
-- Instants are in milliseconds; a token counts its life in whole seconds.
pub mod Laws
pub mod Reference
use wall_e_campus_assistant.Prelude.{ℕ, ◌+◌, ◌/◌, ◌<◌, ◌≤◌, ◌≡◌, Option, some, none, ◌++◌, Bool}
use wall_e_campus_assistant.Text.{Text}

pub data Verification : Type 0 where
  accepted : ℕ → Verification
  token_expired : Verification
  invalid : Verification

-- `sign` and `verify` are given the clock; `decode` gives the payload's session id, if the token can
-- be read and has one.
pub record Jwt : Type 1 where
  pub Token : Type 0
  pub sign : (session_id : ℕ) (secret : Text) (seconds now : ℕ) → Token
  pub decode : Token → Option ℕ
  pub verify : Token → Text → ℕ → Verification
  pub decode-sign :
      (session_id : ℕ) (secret : Text) (seconds now : ℕ)
      → decode (sign session_id secret seconds now) ≡ some session_id
  pub verify-sign :
      (session_id : ℕ) (secret : Text) (seconds now later : ℕ)
      → later / 1000 < now / 1000 + seconds
      → verify (sign session_id secret seconds now) secret later ≡ accepted session_id
  pub verify-sign_expired :
      (session_id : ℕ) (secret : Text) (seconds now later : ℕ)
      → now / 1000 + seconds ≤ later / 1000
      → verify (sign session_id secret seconds now) secret later ≡ token_expired

module _ (jwt : Jwt) (jwt_secret : Text) where
  unfoldable pub generate_qr_token : ℕ → Text → ℕ → jwt.Token
  generate_qr_token session_id qr_secret now = jwt.sign session_id (qr_secret ++ jwt_secret) 30 now

  unfoldable pub decode_qr_token_unsafe : jwt.Token → Option ℕ
  decode_qr_token_unsafe token = jwt.decode token

  unfoldable pub verify_qr_token : jwt.Token → Text → ℕ → Verification
  verify_qr_token token qr_secret now = jwt.verify token (qr_secret ++ jwt_secret) now
