-- ===== src/Account/Laws.antt =====
-- What a request that goes on has behind it, and that accounts keep their emails apart
-- (backend/src/middleware/auth.middleware.ts).
use wall_e_campus_assistant.Prelude.{
  ℕ, ◌≡◌, ◌≢◌, ◌↔◌, refl, inl, inr, Bool, true, false, not, ◌&&◌, ◌||◌, Option, none, some, List,
  ◌∈◌, sym, ap, ◌∙◌, subst, arith, Bool-cases, Option-cases, Result-cases, same_truth, false≢true,
  ◌==◌, ==_refl, ok, >>=-ok, >>-ok, throw_if, if◌then◌else◌, find_sound, find-none,
}
use wall_e_campus_assistant.Text.{Text, text_eq}
use wall_e_campus_assistant.Cohort.Laws.{text_eq_iff}
use wall_e_campus_assistant.Errors.{unauthorized}
use wall_e_campus_assistant.Access.Roles.{
  UserRole, system_owner, university_admin, department_admin, instructor, student,
}
use wall_e_campus_assistant.Database.{Prisma}
use wall_e_campus_assistant.Database.Rows.{update_where}
use wall_e_campus_assistant.Database.Rows.Laws.{
  Distinct, Distinct-unique, Distinct-update_where, update_where-∈,
}
use wall_e_campus_assistant.Database.Rows.Single.{Distinct-update_sole, Distinct-weaken}
use wall_e_campus_assistant.Account.Verified.{HasToken, identify-HasToken}
use wall_e_campus_assistant.Account.{
  Account, rejected, disabled, is_rejected, is_disabled, AuthEnv, TokenLibraries, ClientPlatform,
  web, mobile, unknown, declared_platform, assert_client_allowed, admitted, confirmed_email,
  has_identity, with_email, is_other, identify, sync_email, authenticate, same_account_id,
  same_email,
}

-- An account that may send a request from a client.
pub record IsAdmitted (user : Account) (platform : ClientPlatform) : Type 0 where
  pub not_rejected : user.account_status ≢ rejected
  pub not_disabled : user.account_status ≢ disabled
  pub switched_on : user.is_active ≡ true
  pub on_mobile : platform ≡ mobile → user.role ≡ student
  pub on_web : platform ≡ web → user.role ≢ student

client_iff :
    (role : UserRole) (platform : ClientPlatform)
    → (assert_client_allowed role platform ≡ ok tt)
      ↔ ((platform ≡ mobile → role ≡ student) × (platform ≡ web → role ≢ student))
unfolding assert_client_allowed
client_iff student mobile = (λ h. (λ e. refl, λ e. cc), λ h. refl)
client_iff student web = (λ h. cc, λ (_, h). absurd (h refl refl))
client_iff student unknown = (λ h. (λ e. cc, λ e. cc), λ h. refl)
client_iff system_owner mobile = (λ h. cc, λ (h, _). let e = h refl in cc)
client_iff system_owner web = (λ h. (λ e. cc, λ e. cc), λ h. refl)
client_iff system_owner unknown = (λ h. (λ e. cc, λ e. cc), λ h. refl)
client_iff university_admin mobile = (λ h. cc, λ (h, _). let e = h refl in cc)
client_iff university_admin web = (λ h. (λ e. cc, λ e. cc), λ h. refl)
client_iff university_admin unknown = (λ h. (λ e. cc, λ e. cc), λ h. refl)
client_iff department_admin mobile = (λ h. cc, λ (h, _). let e = h refl in cc)
client_iff department_admin web = (λ h. (λ e. cc, λ e. cc), λ h. refl)
client_iff department_admin unknown = (λ h. (λ e. cc, λ e. cc), λ h. refl)
client_iff instructor mobile = (λ h. cc, λ (h, _). let e = h refl in cc)
client_iff instructor web = (λ h. (λ e. cc, λ e. cc), λ h. refl)
client_iff instructor unknown = (λ h. (λ e. cc, λ e. cc), λ h. refl)

-- The account that is let in is the one that was found.
admitted-ok :
    (user user' : Account) (platform : ClientPlatform)
    → admitted user platform ≡ ok user'
    → (user ≡ user') × IsAdmitted user platform
unfolding admitted
admitted-ok user user' platform h =
    let refused =
      throw_if (is_rejected user.account_status)
        (unauthorized "This account registration was rejected") in
    let off = not user.is_active || is_disabled user.account_status in
    let (a, h1) = >>-ok refused _ h in
    let (b, h2) = >>-ok (throw_if off (unauthorized "This account has been deactivated")) _ h1 in
    let (c, h3) = >>-ok (assert_client_allowed user.role platform) (ok user) h2 in
    let (on_mobile, on_web) = (client_iff user.role platform).0 c in
    (
      ground arith,
      record {
        not_rejected = λ e. absurd (ground arith);
        not_disabled = λ e. absurd (ground arith);
        switched_on = ground arith;
        on_mobile = on_mobile;
        on_web = on_web;
      },
    )

-- No two accounts have the same email or the same id.
abbrev pub IsApart : List Account → Type 0
IsApart accounts = Distinct same_email accounts × Distinct same_account_id accounts

module _ (prisma : Prisma) where
  found_account :
      (test : Account → Bool) (accounts : List Account) (user : Account)
      → prisma.find_unique Account test accounts ≡ some user
      → (user ∈ accounts) × (test user ≡ true)
  found_account test accounts user h =
      find_sound test accounts (sym (prisma.find_unique_lem Account test accounts) ∙ h)

  update_rows :
      (test : Account → Bool) (change : Account → Account) (accounts : List Account)
      → (prisma.update_many Account test change accounts).0 ≡ update_where test change accounts
  update_rows test change accounts =
      ap (λ (r : List Account × ℕ). r.0) (prisma.update_many_lem Account test change accounts)

  -- The account that goes on is the row as it is afterwards.
  sync_email-∈ :
      (user user' : Account) (email : Option Text) (accounts : List Account)
      → user ∈ accounts
      → (sync_email prisma user email accounts).1 ≡ ok user'
      → (user' ∈ (sync_email prisma user email accounts).0) × (user'.id ≡ user.id)
  unfolding sync_email
  sync_email-∈ user user' none accounts m h =
      let e : user ≡ user' = ground arith in
      (subst (λ z. z ∈ accounts) e m, ap (λ (z : Account). z.id) (sym e))
  sync_email-∈ user user' (some email) accounts m h = elim (Bool-cases (text_eq email user.email)) [
    | inl same ↦
        let h' = rw same at h in
        let e : user ≡ user' = ground arith in
        rw same (subst (λ z. z ∈ accounts) e m, ap (λ (z : Account). z.id) (sym e))
    | inr new ↦
        elim (Bool-cases
          (is_other user (prisma.find_unique Account (λ a. text_eq a.email email) accounts))) [
            | inl taken ↦ let h' = rw (new, taken) at h in cc
            | inr free ↦
                let h' = rw (new, free) at h in
                let e : with_email email user ≡ user' = ground arith in
                let kept =
                  subst (λ z. z ∈ update_where (λ a. a.id == user.id) (with_email email) accounts)
                    (ap (λ b. if b then with_email email user else user) (==_refl user.id))
                    (update_where-∈ (λ (a : Account). a.id == user.id) (with_email email) accounts
                      user m) in
                rw (new, free, update_rows (λ a. a.id == user.id) (with_email email) accounts)
                  (
                    subst (λ z. z ∈ update_where (λ a. a.id == user.id) (with_email email) accounts)
                        e kept,
                    ap (λ (z : Account). z.id) (sym e),
                  )
          ]
  ]

  email_symmetric : (a b : Account) → same_email a b ≡ same_email b a
  email_symmetric a b =
      let ab = text_eq_iff a.email b.email in
      let ba = text_eq_iff b.email a.email in
      same_truth _ _ (λ h. ba.1 (sym (ab.0 h))) (λ h. ab.1 (sym (ba.0 h)))

  account_symmetric : (a b : Account) → same_account_id a b ≡ same_account_id b a
  account_symmetric a b = ground arith

  -- An email that no other account has.
  nobody_else :
      (user : Account) (email : Text) (accounts : List Account)
      → Distinct same_email accounts
      → is_other user (prisma.find_unique Account (λ a. text_eq a.email email) accounts) ≡ false
      → (other : Account) → other ∈ accounts
      → (other.id == user.id) ≡ false
      → text_eq email other.email ≡ false
  nobody_else user email accounts apart free other m foreign =
      let test = λ (a : Account). text_eq a.email email in
      let iff = text_eq_iff email other.email in
      elim (Bool-cases (text_eq email other.email)) [
        | inr e ↦ e
        | inl e ↦
            let mine : test other ≡ true = (text_eq_iff other.email email).1 (sym (iff.0 e)) in
            elim (Option-cases (prisma.find_unique Account test accounts)) [
              | inl nothing ↦ absurd (
                  false≢true (
                    sym (
                      find-none test accounts
                        (sym (prisma.find_unique_lem Account test accounts) ∙ nothing) m)
                    ∙ mine))
              | inr (clash, found) ↦
                  let (k, t) = found_account test accounts clash found in
                  let alike : same_email clash other ≡ true =
                    (text_eq_iff clash.email other.email).1
                      ((text_eq_iff clash.email email).0 t ∙ iff.0 e) in
                  let same =
                    Distinct-unique same_email email_symmetric accounts clash other apart k m
                      alike in
                  let here = rw found at free in
                  let there = subst (λ (z : Account). not (z.id == user.id) ≡ false) same here in
                  absurd (ground arith)
            ]
      ]

  sync_email-IsApart :
      (user : Account) (email : Option Text) (accounts : List Account)
      → IsApart accounts
      → IsApart (sync_email prisma user email accounts).0
  unfolding sync_email
  sync_email-IsApart user none accounts apart = apart
  sync_email-IsApart user (some email) accounts (emails, ids) =
      let test = λ (a : Account). a.id == user.id in
      elim (Bool-cases (text_eq email user.email)) [
        | inl same ↦ rw same (emails, ids)
        | inr new ↦
            elim (Bool-cases
              (is_other user (prisma.find_unique Account (λ a. text_eq a.email email) accounts))) [
                | inl taken ↦ rw (new, taken) (emails, ids)
                | inr free ↦
                    rw (new, free, update_rows test (with_email email) accounts)
                      (
                        Distinct-update_sole same_email email_symmetric test (with_email email)
                            accounts
                            (Distinct-weaken same_account_id (λ a b. test a && test b)
                              (λ a b h. ground arith) accounts ids)
                            (λ x m t y k u. nobody_else user email accounts emails free y k u)
                            emails,
                        Distinct-update_where same_account_id account_symmetric test
                            (with_email email) (λ a b. refl) accounts ids,
                      )
              ]
      ]

  module _ (tokens : TokenLibraries) (env : AuthEnv) (authorization platform : Option Text)
      (accounts : List Account) where
    -- Whatever comes of a request, no two accounts have the same email or the same id afterwards, if none
    -- had before.
    pub authenticate-IsApart :
        IsApart accounts
        → IsApart (authenticate prisma tokens env authorization platform accounts).0
    unfolding authenticate
    authenticate-IsApart apart = elim (Result-cases (identify tokens env authorization)) [
      | inr (e, refused) ↦ rw refused apart
      | inl (identity, known) ↦
          elim (Option-cases (prisma.find_unique Account (has_identity identity) accounts)) [
            | inl nobody ↦ rw (known, nobody) apart
            | inr (user, found) ↦
                rw (known, found)
                  (sync_email-IsApart user (confirmed_email identity) accounts apart)
          ]
    ]

    -- A request that goes on has a header "Bearer " with a token, and the token is either one of the
    -- app's own that jsonwebtoken has verified for an account's id, where such are accepted, or one of
    -- the provider's issuer that jose has verified, for that issuer and the audience, for a subject that
    -- is the account's, where those are accepted; the account is a row, as it is after the request, is neither rejected nor disabled nor switched off, and is a student's if the
    -- client is the mobile app, and no student's if it is the web console.
    pub authenticate-IsAdmitted :
        (user : Account)
        → (authenticate prisma tokens env authorization platform accounts).1 ≡ ok user
        → (user ∈ (authenticate prisma tokens env authorization platform accounts).0)
          × IsAdmitted user (declared_platform platform)
          × ((old : Account) × (old ∈ accounts)
              × (user.id ≡ old.id)
              × HasToken tokens env authorization old)
    unfolding authenticate
    authenticate-IsAdmitted user h = elim (Result-cases (identify tokens env authorization)) [
      | inr (e, refused) ↦ let h' = rw refused at h in cc
      | inl (identity, known) ↦
          elim (Option-cases (prisma.find_unique Account (has_identity identity) accounts)) [
            | inl nobody ↦ let h' = rw (known, nobody) at h in cc
            | inr (old, found) ↦
                let h' = rw (known, found) at h in
                let (m, t) = found_account (has_identity identity) accounts old found in
                let (synced, e, through) =
                  >>=-ok (sync_email prisma old (confirmed_email identity) accounts).1 _ h' in
                let (same, fit) = admitted-ok synced user (declared_platform platform) through in
                let (k, i) = sync_email-∈ old synced (confirmed_email identity) accounts m e in
                rw (known, found)
                  (
                    subst (λ z. z ∈ (sync_email prisma old (confirmed_email identity) accounts).0)
                        same k,
                    subst (λ z. IsAdmitted z (declared_platform platform)) same fit,
                    (
                      old,
                      m,
                      ap (λ (z : Account). z.id) (sym same) ∙ i,
                      identify-HasToken tokens env authorization identity old known t,
                    ),
                  )
          ]
    ]
