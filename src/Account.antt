-- ===== src/Account.antt =====
-- Who a request is from: backend/src/middleware/auth.middleware.ts (authenticate, requireRole,
-- requireApproved), with backend/src/lib/supabase-auth.ts and backend/src/utils/client-platform.ts.
-- The libraries jose and jsonwebtoken are parameters. A request goes on with its account, or ends with
-- a failure; the accounts are the state.
pub mod Verified
pub mod Laws
use wall_e_campus_assistant.Prelude.{
  ℕ, Bool, true, false, not, ◌&&◌, ◌||◌, Option, none, some, List, [], ◌∷◌, ◌++◌, reverse, ◌==◌,
  any, Result, ok, err, ◌>>=◌, ◌>>◌, throw_if, if◌then◌else◌,
}
use wall_e_campus_assistant.Text.{Text, trim, to_lower_case, text_eq}
use wall_e_campus_assistant.Cohort.Semester.{codes, strip_prefix}
use wall_e_campus_assistant.Errors.{Failure, thrown, app_error, unauthorized, forbidden}
use wall_e_campus_assistant.Access.Roles.{
  UserRole, system_owner, university_admin, department_admin, instructor, student, is_student,
}
use wall_e_campus_assistant.Database.{Prisma}

pub data AccountStatus : Type 0 where
  pending active rejected disabled : AccountStatus

abbrev pub is_active_status : AccountStatus → Bool
is_active_status active = true
is_active_status _ = false

abbrev pub is_rejected : AccountStatus → Bool
is_rejected rejected = true
is_rejected _ = false

abbrev pub is_disabled : AccountStatus → Bool
is_disabled disabled = true
is_disabled _ = false

-- A row of User.
pub record Account : Type 0 where
  pub id : ℕ
  pub auth_user_id : Option Text
  pub email : Text
  pub role : UserRole
  pub account_status : AccountStatus
  pub is_verified : Bool
  pub is_active : Bool
  pub organization_id : ℕ
  pub department_id : Option ℕ

pub data AuthProvider : Type 0 where
  legacy dual supabase : AuthProvider

pub record AuthEnv : Type 0 where
  pub auth_provider : AuthProvider
  pub supabase_url : Option Text
  pub supabase_jwt_audience : Text
  pub jwt_secret : Text

pub record JosePayload : Type 0 where
  pub sub : Option Text
  pub email : Option Text

-- decodeJwt(token).iss and jwtVerify of jose, and verify of jsonwebtoken with the id that it decodes;
-- none is an error that they throw.
pub record TokenLibraries : Type 0 where
  pub decode_iss : Text → Option Text
  pub jwt_verify : Text → Text → Text → Option JosePayload
  pub legacy_verify : Text → Text → Option ℕ

pub record SupabaseIdentityClaims : Type 0 where
  pub auth_user_id : Text
  pub email : Option Text

-- replace(/\/$/, "")
abbrev pub without_slash : Text → Text
without_slash [] = []
without_slash (c ∷ s) = if c == b'/' then s else c ∷ s

unfoldable pub issuer : Text → Text
issuer url = reverse (without_slash (reverse url)) ++ codes "/auth/v1"

abbrev pub lower_email : Option Text → Option Text
lower_email none = none
lower_email (some email) = some (to_lower_case (trim email))

abbrev pub claims_of : Option JosePayload → Result Failure SupabaseIdentityClaims
claims_of none = err (unauthorized "Invalid or expired access token")
claims_of (some payload) = elim payload.sub [
  | none ↦ err (unauthorized "Invalid or expired access token")
  | some sub ↦
      if text_eq sub []
      then err (unauthorized "Invalid or expired access token")
      else ok (record { auth_user_id = sub; email = lower_email payload.email })
]

-- Which account is asked for, and the email that was confirmed for it.
pub data Identity : Type 0 where
  by_auth_user : SupabaseIdentityClaims → Identity
  by_id : ℕ → Identity

abbrev pub same_account_id : Account → Account → Bool
same_account_id a b = a.id == b.id

abbrev pub same_email : Account → Account → Bool
same_email a b = text_eq a.email b.email

abbrev pub is_auth_user : Text → Option Text → Bool
is_auth_user wanted none = false
is_auth_user wanted (some auth_user_id) = text_eq auth_user_id wanted

abbrev pub has_identity : Identity → Account → Bool
has_identity (by_auth_user claims) account = is_auth_user claims.auth_user_id account.auth_user_id
has_identity (by_id id) account = account.id == id

-- An email that is empty counts as none.
abbrev pub confirmed_email : Identity → Option Text
confirmed_email (by_id id) = none
confirmed_email (by_auth_user claims) = elim claims.email [
  | none ↦ none
  | some email ↦ if text_eq email [] then none else some email
]

pub data ClientPlatform : Type 0 where
  web mobile unknown : ClientPlatform

-- The header's value; of several, the first.
unfoldable pub declared_platform : Option Text → ClientPlatform
declared_platform none = unknown
declared_platform (some raw) =
    let value = to_lower_case (trim raw) in
    if text_eq value (codes "mobile")
    then mobile
    else (if text_eq value (codes "web") then web else unknown)

abbrev pub is_web_only_role : UserRole → Bool
is_web_only_role role = not (is_student role)

abbrev pub is_mobile_only_role : UserRole → Bool
is_mobile_only_role role = is_student role

unfoldable pub assert_client_allowed : UserRole → ClientPlatform → Result Failure (Unit {0})
assert_client_allowed role mobile = throw_if (is_web_only_role role) (
    thrown (
      app_error "Staff and administrator accounts are available on the web console only" 403
        "WEB_ONLY_ACCOUNT"))
assert_client_allowed role web = throw_if (is_mobile_only_role role) (
    thrown
      (app_error "Student accounts are available in the mobile app only" 403 "MOBILE_ONLY_ACCOUNT"))
assert_client_allowed role unknown = ok tt

-- What authenticate asks of the account that it has found.
unfoldable pub admitted : Account → ClientPlatform → Result Failure Account
unfolding assert_client_allowed
admitted user platform = do
  throw_if (is_rejected user.account_status) (unauthorized "This account registration was rejected")
  throw_if (not user.is_active || is_disabled user.account_status)
      (unauthorized "This account has been deactivated")
  assert_client_allowed user.role platform
  ok user

unfoldable pub require_approved : Account → Result Failure Account
require_approved user =
    if is_student user.role && (not (is_active_status user.account_status) || not user.is_verified)
    then err (
        thrown (
          app_error "Your account is waiting for approval from your university" 403
            "ACCOUNT_PENDING_APPROVAL"))
    else ok user

abbrev pub role_index : UserRole → ℕ
role_index system_owner = 0
role_index university_admin = 1
role_index department_admin = 2
role_index instructor = 3
role_index student = 4

unfoldable pub require_role : List UserRole → Account → Result Failure Account
require_role roles user =
    if not (any (λ role. role_index role == role_index user.role) roles)
    then err (forbidden "Forbidden: insufficient permissions")
    else ok user

unfoldable pub require_mobile_client : Option Text → Result Failure (Unit {0})
unfolding declared_platform
require_mobile_client header = elim (declared_platform header) [
  | mobile ↦ ok tt
  | _ ↦ err (
      thrown (
        app_error "Student registration is available in the mobile app only" 403
          "MOBILE_REGISTRATION_ONLY"))
]

abbrev pub same_issuer : Option Text → Text → Bool
same_issuer none url = false
same_issuer (some iss) url = text_eq iss (issuer url)

abbrev pub accepts_supabase : AuthProvider → Bool
accepts_supabase legacy = false
accepts_supabase _ = true

abbrev pub accepts_legacy : AuthProvider → Bool
accepts_legacy supabase = false
accepts_legacy _ = true

abbrev pub legacy_identity : Option ℕ → Result Failure Identity
legacy_identity none = err (unauthorized "Invalid or expired token")
legacy_identity (some id) = ok (by_id id)

abbrev pub supabase_identity : Result Failure SupabaseIdentityClaims → Result Failure Identity
supabase_identity (ok claims) = ok (by_auth_user claims)
supabase_identity (err e) = err e

module _ (tokens : TokenLibraries) (env : AuthEnv) where
  unfoldable pub looks_like_supabase_token : Text → Bool
  unfolding issuer
  looks_like_supabase_token token = elim env.supabase_url [
    | none ↦ false
    | some url ↦ same_issuer (tokens.decode_iss token) url
  ]

  unfoldable pub verify_supabase_identity : Text → Result Failure SupabaseIdentityClaims
  unfolding issuer
  verify_supabase_identity token = elim env.supabase_url [
    | none ↦ err (unauthorized "Supabase authentication is not configured")
    | some url ↦ claims_of (tokens.jwt_verify token (issuer url) env.supabase_jwt_audience)
  ]

  abbrev pub identity_of_token : Text → Bool → Result Failure Identity
  identity_of_token token true =
      if not (accepts_supabase env.auth_provider)
      then err (unauthorized "This deployment does not accept Supabase sessions")
      else supabase_identity (verify_supabase_identity token)
  identity_of_token token false =
      if not (accepts_legacy env.auth_provider)
      then err (unauthorized "Legacy sessions are no longer accepted")
      else legacy_identity (tokens.legacy_verify token env.jwt_secret)

  abbrev pub bearer : Option Text → Result Failure Identity
  bearer none = err (unauthorized "No token provided or invalid format")
  bearer (some rest) = identity_of_token (trim rest) (looks_like_supabase_token (trim rest))

  -- The first half of authenticate; a header that is empty has no prefix.
  unfoldable pub identify : Option Text → Result Failure Identity
  unfolding looks_like_supabase_token verify_supabase_identity
  identify none = err (unauthorized "No token provided or invalid format")
  identify (some header) = bearer (strip_prefix (codes "Bearer ") header)

abbrev pub with_email : Text → Account → Account
with_email email account = record account { email = email }

abbrev pub is_other : Account → Option Account → Bool
is_other user none = false
is_other user (some clash) = not (clash.id == user.id)

module _ (prisma : Prisma) where
  -- The email that the provider has confirmed is taken over, unless another account has it.
  unfoldable pub sync_email :
      Account → Option Text → List Account → List Account × Result Failure Account
  sync_email user none accounts = (accounts, ok user)
  sync_email user (some email) accounts =
      if text_eq email user.email
      then (accounts, ok user)
      else (if is_other user (prisma.find_unique Account (λ a. text_eq a.email email) accounts)
          then (
            accounts,
            err (unauthorized "The confirmed email is already linked to another account"),
          )
          else (
            (prisma.update_many Account (λ a. a.id == user.id) (with_email email) accounts).0,
            ok (with_email email user),
          ))

  abbrev pub then_admitted :
      ClientPlatform → List Account × Result Failure Account → List Account × Result Failure Account
  then_admitted platform (accounts, result) =
      (accounts, result >>= (λ user. admitted user platform))

  abbrev pub found_or_refused :
      Option Account
      → Identity
      → ClientPlatform
      → List Account
      → List Account × Result Failure Account
  found_or_refused none identity platform accounts = (accounts, err (unauthorized "User not found"))
  found_or_refused (some user) identity platform accounts =
      then_admitted platform (sync_email user (confirmed_email identity) accounts)

  abbrev pub authenticate_identity :
      Result Failure Identity
      → ClientPlatform
      → List Account
      → List Account × Result Failure Account
  authenticate_identity (err e) platform accounts = (accounts, err e)
  authenticate_identity (ok identity) platform accounts =
      found_or_refused (prisma.find_unique Account (has_identity identity) accounts) identity
        platform accounts

  -- The header authorization, and the one that names the client.
  unfoldable pub authenticate :
      TokenLibraries
      → AuthEnv
      → Option Text
      → Option Text
      → List Account
      → List Account × Result Failure Account
  unfolding identify sync_email admitted declared_platform
  authenticate tokens env authorization platform accounts =
      authenticate_identity (identify tokens env authorization) (declared_platform platform)
        accounts
