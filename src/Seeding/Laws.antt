-- ===== src/Seeding/Laws.antt =====
-- Which database a permission to write the demo data names (backend/src/utils/seed-guard.ts).
use wall_e_campus_assistant.Prelude.{
  ◌≡◌, ◌≢◌, refl, ◌∙◌, ap, inl, inr, Bool, true, false, Option, none, some, [], ◌∷◌, ◌++◌, any, ok,
  ◌==◌, Bool-cases, Option-cases, arith, false≢true, subst, sym,
}
use wall_e_campus_assistant.Text.{Text, trim, to_lower_case, text_eq}
use wall_e_campus_assistant.Cohort.Laws.{text_eq_iff}
use wall_e_campus_assistant.Cohort.Semester.{codes}
use wall_e_campus_assistant.Seeding.{
  Url, UrlLibrary, SeedEnv, up_to_dot, second_part, qualified_by, is_production, is_local,
  decoded_username, database_host_of, database_target_of, assert_remote, assert_seed_allowed,
}

abbrev pub has_dot : Text → Bool
has_dot s = any (λ c. c == b'.') s

-- Nothing, or a text that starts with a dot.
abbrev pub ends_or_dotted : Text → Bool
ends_or_dotted [] = true
ends_or_dotted (c ∷ s) = c == b'.'

up_to_dot-append :
    (s rest : Text) → has_dot s ≡ false → ends_or_dotted rest ≡ true → up_to_dot (s ++ rest) ≡ s
unfolding up_to_dot
up_to_dot-append [] [] h e = refl
up_to_dot-append [] (c ∷ rest) h e = rw e refl
up_to_dot-append (c ∷ s) rest h e =
    let ih = up_to_dot-append s rest (ground arith) e in
    let q : (c == b'.') ≡ false = ground arith in rw (q, ih) refl

second_part-append :
    (user ref rest : Text)
    → has_dot user ≡ false
    → has_dot ref ≡ false
    → ends_or_dotted rest ≡ true
    → second_part (user ++ (b'.' ∷ ref ++ rest)) ≡ some ref
unfolding second_part
second_part-append [] ref rest h k e = ap some (up_to_dot-append ref rest k e)
second_part-append (c ∷ user) ref rest h k e =
    let ih = second_part-append user ref rest (ground arith) k e in
    let q : (c == b'.') ≡ false = ground arith in rw (q, ih) refl

-- What stands before the first dot, and what follows it.
up_to_dot-parts :
    (s : Text)
    → (rest : Text) × (s ≡ up_to_dot s ++ rest)
      × (has_dot (up_to_dot s) ≡ false)
      × (ends_or_dotted rest ≡ true)
unfolding up_to_dot
up_to_dot-parts [] = ([], refl, refl, refl)
up_to_dot-parts (c ∷ s) = elim (Bool-cases (c == b'.')) [
  | inl q ↦ rw q (c ∷ s, refl, refl, q)
  | inr q ↦ let (rest, e, h, d) = up_to_dot-parts s in rw q (rest, ap (λ z. c ∷ z) e, rw q h, d)
]

-- A text with a first dot and what stands around it.
pub record IsSplit (s ref : Text) : Type 0 where
  pub before : Text
  pub rest : Text
  pub whole : s ≡ before ++ (b'.' ∷ ref ++ rest)
  pub before_undotted : has_dot before ≡ false
  pub part_undotted : has_dot ref ≡ false
  pub rest_dotted : ends_or_dotted rest ≡ true

second_part-IsSplit : (s ref : Text) → second_part s ≡ some ref → IsSplit s ref
unfolding second_part
second_part-IsSplit [] ref h = cc
second_part-IsSplit (c ∷ s) ref h = elim (Bool-cases (c == b'.')) [
  | inl q ↦
      let (rest, e, k, d) = up_to_dot-parts s in
      let part : up_to_dot s ≡ ref = ground arith in
      let dot : c ≡ b'.' = ground arith in
      record {
        before = [];
        rest = rest;
        whole = rw (← part, ← e, dot) refl;
        before_undotted = refl;
        part_undotted = rw (← part) k;
        rest_dotted = d;
      }
  | inr q ↦
      let ih = second_part-IsSplit s ref (ground arith) in
      record {
        before = c ∷ ih.before;
        rest = ih.rest;
        whole = ap (λ z. c ∷ z) ih.whole;
        before_undotted = rw q ih.before_undotted;
        part_undotted = ih.part_undotted;
        rest_dotted = ih.rest_dotted;
      }
]

IsSplit-second_part : (s ref : Text) → IsSplit s ref → second_part s ≡ some ref
IsSplit-second_part s ref split =
    ap second_part split.whole
    ∙ second_part-append split.before ref split.rest split.before_undotted split.part_undotted
        split.rest_dotted

some-injective : {s t : Text} → some s ≡ some t → s ≡ t
some-injective h = cc

module _ (urls : UrlLibrary) where
  -- The user of a connection is named after a project: user.project, in small letters.
  pub record IsProject (url ref : Text) : Type 0 where
    pub parsed : Url
    pub name : Text
    pub of_url : urls.parse url ≡ some parsed
    pub of_user : urls.decode_uri_component parsed.username ≡ some name
    pub of_name : IsSplit (to_lower_case name) ref
    pub not_empty : ref ≢ []

  -- A database is named by its project and its host, and by its host alone where there is no project.
  pub data IsNamed (url host target : Text) : Type 0 where
    by_project :
        (ref : Text)
        → IsProject url ref
        → target ≡ (ref ++ codes "@") ++ host
        → IsNamed url host target
    by_host : ((ref : Text) → ¬ IsProject url ref) → target ≡ host → IsNamed url host target

  abbrev pub target_of : Text → Text → Text
  target_of url host = qualified_by host (decoded_username urls (urls.parse url))

  second_part_of_project :
      (url ref name : Text)
      → decoded_username urls (urls.parse url) ≡ some name
      → IsProject url ref
      → second_part (to_lower_case name) ≡ some ref
  second_part_of_project url ref name h project =
      let e = ap (decoded_username urls) project.of_url ∙ project.of_user in
      let same : project.name ≡ name = cc in
      rw (← same) (IsSplit-second_part (to_lower_case project.name) ref project.of_name)

  no_user : (url ref : Text) → decoded_username urls (urls.parse url) ≡ none → ¬ IsProject url ref
  no_user url ref h project =
      let e = ap (decoded_username urls) project.of_url ∙ project.of_user in cc

  user_of :
      (o : Option Url) (name : Text)
      → decoded_username urls o ≡ some name
      → (parsed : Url) × (o ≡ some parsed) × (urls.decode_uri_component parsed.username ≡ some name)
  user_of none name h = cc
  user_of (some parsed) name h = (parsed, refl, h)

  by_user-IsNamed :
      (url host name : Text) (part : Option Text)
      → decoded_username urls (urls.parse url) ≡ some name
      → second_part (to_lower_case name) ≡ part
      → IsNamed url host (target_of url host)
  by_user-IsNamed url host name none h e =
      by_host (λ ref project. let k = second_part_of_project url ref name h project in cc)
        (rw (h, e) refl)
  by_user-IsNamed url host name (some []) h e =
      by_host
        (λ ref project.
          let k = second_part_of_project url ref name h project in absurd (project.not_empty (cc)))
        (rw (h, e) refl)
  by_user-IsNamed url host name (some (c ∷ ref)) h e =
      let (parsed, of_url, of_user) = user_of (urls.parse url) name h in
      by_project (c ∷ ref)
        (record {
          parsed = parsed;
          name = name;
          of_url = of_url;
          of_user = of_user;
          of_name = second_part-IsSplit (to_lower_case name) (c ∷ ref) e;
          not_empty = λ z. cc;
        })
        (rw (h, e) refl)

  target_of-IsNamed : (url host : Text) → IsNamed url host (target_of url host)
  target_of-IsNamed url host = elim (Option-cases (decoded_username urls (urls.parse url))) [
    | inl e ↦ by_host (λ ref. no_user url ref e) (rw e refl)
    | inr (name, e) ↦ by_user-IsNamed url host name (second_part (to_lower_case name)) e refl
  ]

  target_named :
      (url host : Text)
      → database_host_of urls url ≡ some host
      → database_target_of urls url ≡ some (target_of url host)
  unfolding database_target_of
  target_named url host hosted = rw hosted refl

  permitted :
      (env : SeedEnv) (target : Text) (o : Option Text)
      → env.seed_allow_remote_host ≡ o
      → assert_remote urls env target ≡ ok tt
      → (permission : Text) × (env.seed_allow_remote_host ≡ some permission)
        × (to_lower_case (trim permission) ≡ target)
  permitted env target none e k = let k' = rw e at k in cc
  permitted env target (some permission) e k =
      let k' = rw e at k in
      (permission, e, (text_eq_iff (to_lower_case (trim permission)) target).0 (ground arith))

  no_production : (o : Option Text) → is_production o ≡ false → o ≢ some (codes "production")
  no_production none h e = cc
  no_production (some node_env) h e =
      let same = (text_eq_iff node_env (codes "production")).1 (some-injective e) in
      false≢true (sym h ∙ same)

  -- If the demo data may be written to a database that is named and whose host is on another machine,
  -- NODE_ENV is not "production", and the permission is, up to case and white space at its ends, the
  -- name of the database: the project in the name of its user with the host, and the host alone only if
  -- the name of the user has no project.
  pub assert_seed_allowed-IsNamed :
      (env : SeedEnv) (url host : Text)
      → env.database_url ≡ some url
      → trim url ≢ []
      → database_host_of urls url ≡ some host
      → is_local host ≡ false
      → assert_seed_allowed urls env ≡ ok tt
      → (env.node_env ≢ some (codes "production"))
        × ((permission : Text) × (env.seed_allow_remote_host ≡ some permission)
            × IsNamed url host (to_lower_case (trim permission)))
  unfolding assert_seed_allowed
  assert_seed_allowed-IsNamed env url host given not_blank hosted remote h =
      let target_is = target_named url host hosted in
      elim (Bool-cases (text_eq (trim url) [])) [
        | inl blank ↦ absurd (not_blank ((text_eq_iff (trim url) []).0 blank))
        | inr filled_ ↦ elim (Bool-cases (is_production env.node_env)) [
          | inl e ↦ let h' = rw e at h in cc
          | inr e ↦
              let h' = rw (e, given, filled_, hosted, remote, target_is) at h in
              let (permission, named, same) =
                permitted env (target_of url host) env.seed_allow_remote_host refl h' in
              (
                no_production env.node_env e,
                (
                  permission,
                  named,
                  subst (IsNamed url host) (sym same) (target_of-IsNamed url host),
                ),
              )
        ]
      ]
