-- ===== src/Seeding.antt =====
-- backend/src/utils/seed-guard.ts: whether the demo data may be written. The URL parser and
-- decodeURIComponent are parameters; none is an error that they throw.
pub mod Laws
use wall_e_campus_assistant.Prelude.{
  ℕ, ◌≡◌, refl, sym, ◌∙◌, inl, inr, Bool, false, Option, none, some, List, [], ◌∷◌, ◌++◌, reverse,
  any, Result, ok, err, if◌then◌else◌, ◌==◌, Bool-cases, arith, ap,
}
use wall_e_campus_assistant.Text.{Text, trim, to_lower_case, text_eq}
use wall_e_campus_assistant.Cohort.Laws.{text_eq_iff}
use wall_e_campus_assistant.Cohort.Semester.{codes}

pub record Url : Type 0 where
  pub hostname : Text
  pub username : Text

pub record UrlLibrary : Type 0 where
  pub parse : Text → Option Url
  pub decode_uri_component : Text → Option Text

-- What the guard reads of process.env.
pub record SeedEnv : Type 0 where
  pub node_env : Option Text
  pub database_url : Option Text
  pub seed_allow_remote_host : Option Text

pub data SeedRefusal : Type 0 where
  in_production unparseable_url : SeedRefusal
  remote_host : Text → SeedRefusal

abbrev pub local_hosts : List Text
local_hosts =
    codes "localhost"
    ∷ codes "127.0.0.1"
    ∷ codes "::1"
    ∷ codes "0.0.0.0"
    ∷ codes "host.docker.internal"
    ∷ []

unfoldable pub is_local : Text → Bool
unfolding text_eq
is_local host = any (text_eq host) local_hosts

abbrev pub without_first : ℕ → Text → Text
without_first bracket [] = []
without_first bracket (c ∷ s) = if c == bracket then s else c ∷ s

-- replace(/^\[|\]$/g, "")
unfoldable pub bare_host : Text → Text
bare_host s = reverse (without_first b']' (reverse (without_first b'[' s)))

abbrev pub filled : Text → Option Text
filled [] = none
filled (c ∷ s) = some (c ∷ s)

abbrev pub host_of : Option Url → Option Text
host_of none = none
host_of (some url) = filled (bare_host (to_lower_case url.hostname))

-- split(".")[1]; none is undefined.
unfoldable pub up_to_dot : Text → Text
up_to_dot [] = []
up_to_dot (c ∷ s) = let rest = up_to_dot s in if c == b'.' then [] else c ∷ rest

unfoldable pub second_part : Text → Option Text
unfolding up_to_dot
second_part [] = none
second_part (c ∷ s) = let rest = second_part s in if c == b'.' then some (up_to_dot s) else rest

abbrev pub qualified : Text → Option Text → Text
qualified host none = host
qualified host (some []) = host
qualified host (some (c ∷ ref)) = (c ∷ ref) ++ codes "@" ++ host

abbrev pub qualified_by : Text → Option Text → Text
qualified_by host none = host
qualified_by host (some username) = qualified host (second_part (to_lower_case username))

abbrev pub allowed_target : Option Text → Option Text
allowed_target none = none
allowed_target (some value) = some (to_lower_case (trim value))

abbrev pub is_target : Option Text → Text → Bool
is_target none target = false
is_target (some allowed) target = text_eq allowed target

abbrev pub is_production : Option Text → Bool
is_production none = false
is_production (some node_env) = text_eq node_env (codes "production")

module _ (urls : UrlLibrary) where
  unfoldable pub database_host_of : Text → Option Text
  unfolding bare_host
  database_host_of url = host_of (urls.parse url)

  abbrev pub decoded_username : Option Url → Option Text
  decoded_username none = none
  decoded_username (some url) = urls.decode_uri_component url.username

  abbrev pub target_at : Text → Option Text → Option Text
  target_at url none = none
  target_at url (some host) = some (qualified_by host (decoded_username (urls.parse url)))

  unfoldable pub database_target_of : Text → Option Text
  unfolding database_host_of second_part
  database_target_of url = target_at url (database_host_of url)

  abbrev pub target_or : Option Text → Text → Text
  target_or none host = host
  target_or (some target) host = target

  abbrev pub assert_remote : SeedEnv → Text → Result SeedRefusal (Unit {0})
  assert_remote env target =
      if is_target (allowed_target env.seed_allow_remote_host) target
      then ok tt
      else err (remote_host target)

  abbrev pub assert_host : SeedEnv → Text → Option Text → Result SeedRefusal (Unit {0})
  assert_host env url none = err unparseable_url
  assert_host env url (some host) =
      if is_local host then ok tt else assert_remote env (target_or (database_target_of url) host)

  abbrev pub assert_url : SeedEnv → Option Text → Result SeedRefusal (Unit {0})
  assert_url env none = ok tt
  assert_url env (some url) =
      if text_eq (trim url) [] then ok tt else assert_host env url (database_host_of url)

  unfoldable pub assert_seed_allowed : SeedEnv → Result SeedRefusal (Unit {0})
  unfolding database_host_of database_target_of is_local
  assert_seed_allowed env =
      if is_production env.node_env then err in_production else assert_url env env.database_url
