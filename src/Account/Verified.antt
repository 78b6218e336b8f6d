-- ===== src/Account/Verified.antt =====
-- The token behind a request (backend/src/middleware/auth.middleware.ts and
-- backend/src/lib/supabase-auth.ts).
use wall_e_campus_assistant.Prelude.{
  ℕ, ◌≡◌, ◌≢◌, refl, inl, inr, Bool, true, false, Option, none, some, sym, ap, ◌∙◌, ◌++◌, [], ◌∷◌,
  err, arith, Bool-cases, Option-cases, ok,
}
use wall_e_campus_assistant.Text.{Text, text_eq}
use wall_e_campus_assistant.Cohort.Laws.{text_eq_iff}
use wall_e_campus_assistant.Access.Roles.{}
use wall_e_campus_assistant.Database.Rows.Laws.{}
use wall_e_campus_assistant.Account.{
  Account, AuthEnv, TokenLibraries, Identity, has_identity, identify, supabase, is_auth_user,
  JosePayload, same_issuer, legacy, SupabaseIdentityClaims, issuer, legacy_identity, [], claims_of,
  by_id, Result, by_auth_user, Failure, err, trim, lower_email, looks_like_supabase_token,
  verify_supabase_identity, identity_of_token, supabase_identity, accepts_supabase, accepts_legacy,
}
use wall_e_campus_assistant.Cohort.Semester.{codes, strip_prefix}

-- What the app's own token or the provider's says of an account.
pub data IsVerified (tokens : TokenLibraries) (env : AuthEnv) (token : Text) (account : Account)
    : Type 0 where
  by_app :
      env.auth_provider ≢ supabase
      → tokens.legacy_verify token env.jwt_secret ≡ some account.id
      → IsVerified tokens env token account
  by_provider :
      (url subject : Text) (payload : JosePayload)
      → env.auth_provider ≢ legacy
      → env.supabase_url ≡ some url
      → tokens.decode_iss token ≡ some (issuer url)
      → tokens.jwt_verify token (issuer url) env.supabase_jwt_audience ≡ some payload
      → payload.sub ≡ some subject
      → subject ≢ []
      → account.auth_user_id ≡ some subject
      → IsVerified tokens env token account

-- The header of a request has the scheme Bearer and a token that was verified for an account.
abbrev pub HasToken : TokenLibraries → AuthEnv → Option Text → Account → Type 0
HasToken tokens env authorization account =
    (header : Text) × (rest : Text) × (authorization ≡ some header)
    × (header ≡ codes "Bearer " ++ rest)
    × IsVerified tokens env (trim rest) account

strip_prefix-eq-some :
    (prefix s rest : Text) → strip_prefix prefix s ≡ some rest → s ≡ prefix ++ rest
unfolding strip_prefix
strip_prefix-eq-some [] s rest h = cc
strip_prefix-eq-some (p ∷ prefix) [] rest h = cc
strip_prefix-eq-some (p ∷ prefix) (c ∷ s) rest h =
    let ih = strip_prefix-eq-some prefix s rest (ground arith) in
    let e : c ≡ p = ground arith in ap (λ z. z ∷ s) e ∙ ap (λ z. p ∷ z) ih

is_auth_user-eq-true :
    (wanted : Text) (o : Option Text) → is_auth_user wanted o ≡ true → o ≡ some wanted
is_auth_user-eq-true wanted none h = cc
is_auth_user-eq-true wanted (some t) h = ap some ((text_eq_iff t wanted).0 h)

module _ (tokens : TokenLibraries) (env : AuthEnv) (token : Text) (account : Account) where
  claims_of-eq-ok :
      (o : Option JosePayload) (claims : SupabaseIdentityClaims)
      → claims_of o ≡ ok claims
      → (payload : JosePayload) × (o ≡ some payload)
        × (payload.sub ≡ some claims.auth_user_id)
        × (claims.auth_user_id ≢ [])
  claims_of-eq-ok none claims h = cc
  claims_of-eq-ok (some payload) claims h = elim (Option-cases payload.sub) [
    | inl e ↦ let h' = rw e at h in cc
    | inr (sub, e) ↦ elim (Bool-cases (text_eq sub [])) [
      | inl empty ↦ let h' = rw (e, empty) at h in cc
      | inr filled ↦
          let h' = rw (e, filled) at h in
          let row : record { auth_user_id = sub; email = lower_email payload.email } ≡ claims =
            cc in
          let same = ap (λ (c : SupabaseIdentityClaims). c.auth_user_id) row in
          (payload, refl, e ∙ ap some same, λ z. let k = (text_eq_iff sub []).1 (same ∙ z) in cc)
    ]
  ]

  same_issuer-eq-true :
      (o : Option Text) (url : Text) → same_issuer o url ≡ true → o ≡ some (issuer url)
  same_issuer-eq-true none url h = cc
  same_issuer-eq-true (some iss) url h = ap some ((text_eq_iff iss (issuer url)).0 h)

  by_app-IsVerified :
      (o : Option ℕ) (identity : Identity)
      → env.auth_provider ≢ supabase
      → tokens.legacy_verify token env.jwt_secret ≡ o
      → legacy_identity o ≡ ok identity
      → has_identity identity account ≡ true
      → IsVerified tokens env token account
  by_app-IsVerified none identity n e h m = absurd cc
  by_app-IsVerified (some id) (by_id id') n e h m =
      let same : account.id ≡ id = ground arith in by_app n (e ∙ ap some (sym same))
  by_app-IsVerified (some id) (by_auth_user claims) n e h m = absurd (ground arith)

  by_provider-IsVerified :
      (r : Result Failure SupabaseIdentityClaims) (identity : Identity)
      → env.auth_provider ≢ legacy
      → looks_like_supabase_token tokens env token ≡ true
      → verify_supabase_identity tokens env token ≡ r
      → supabase_identity r ≡ ok identity
      → has_identity identity account ≡ true
      → IsVerified tokens env token account
  unfolding looks_like_supabase_token verify_supabase_identity
  by_provider-IsVerified (err e) identity n looks v h m = absurd (ground arith)
  by_provider-IsVerified (ok claims) (by_id id) n looks v h m = absurd (ground arith)
  by_provider-IsVerified (ok claims) (by_auth_user claims') n looks v h m =
      elim (Option-cases env.supabase_url) [
        | inl e ↦ let l = rw e at looks in absurd cc
        | inr (url, e) ↦
            let l = rw e at looks in
            let w = rw e at v in
            let (payload, verified, sub, filled) =
              claims_of-eq-ok (tokens.jwt_verify token (issuer url) env.supabase_jwt_audience)
                claims w in
            let same : claims ≡ claims' = ground arith in
            by_provider url claims.auth_user_id payload n e
              (same_issuer-eq-true (tokens.decode_iss token) url l) verified sub filled
              (is_auth_user-eq-true claims.auth_user_id account.auth_user_id (rw same m))
      ]

  identity_of_token-IsVerified :
      (looks : Bool) (identity : Identity)
      → looks_like_supabase_token tokens env token ≡ looks
      → identity_of_token tokens env token looks ≡ ok identity
      → has_identity identity account ≡ true
      → IsVerified tokens env token account
  identity_of_token-IsVerified true identity looks h m =
      elim (Bool-cases (accepts_supabase env.auth_provider)) [
        | inr e ↦ let h' = rw e at h in absurd (ground arith)
        | inl e ↦
            let h' = rw e at h in
            by_provider-IsVerified (verify_supabase_identity tokens env token) identity
              (ground arith) looks refl h' m
      ]
  identity_of_token-IsVerified false identity looks h m =
      elim (Bool-cases (accepts_legacy env.auth_provider)) [
        | inr e ↦ let h' = rw e at h in absurd (ground arith)
        | inl e ↦
            let h' = rw e at h in
            by_app-IsVerified (tokens.legacy_verify token env.jwt_secret) identity (ground arith)
              refl h' m
      ]

pub identify-HasToken :
    (tokens : TokenLibraries) (env : AuthEnv) (authorization : Option Text) (identity : Identity)
    (account : Account)
    → identify tokens env authorization ≡ ok identity
    → has_identity identity account ≡ true
    → HasToken tokens env authorization account
unfolding identify
identify-HasToken tokens env none identity account h m = absurd (ground arith)
identify-HasToken tokens env (some header) identity account h m =
    elim (Option-cases (strip_prefix (codes "Bearer ") header)) [
      | inl e ↦ let h' = rw e at h in absurd (ground arith)
      | inr (rest, e) ↦
          let h' = rw e at h in
          (
            header,
            rest,
            refl,
            strip_prefix-eq-some (codes "Bearer ") header rest e,
            identity_of_token-IsVerified tokens env (trim rest) account
                (looks_like_supabase_token tokens env (trim rest)) identity refl h' m,
          )
    ]
