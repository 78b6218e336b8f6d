-- ===== src/Tests/Seeds.antt =====
-- A pooled database that is named.
use wall_e_campus_assistant.Prelude.{◌≡◌, refl, some, false, ok, [], ◌≢◌}
use wall_e_campus_assistant.Text.{Text, trim, to_lower_case}
use wall_e_campus_assistant.Cohort.Semester.{codes}
use wall_e_campus_assistant.Seeding.{
  UrlLibrary, SeedEnv, database_host_of, is_local, assert_seed_allowed,
}
use wall_e_campus_assistant.Seeding.Laws.{IsNamed, assert_seed_allowed-IsNamed}

-- It knows one connection string.
abbrev one_url : UrlLibrary
one_url = record {
  parse =
      λ url. some (record { hostname = codes "Pooler.Example"; username = codes "postgres.abc" });
  decode_uri_component = λ username. some username;
}

abbrev seed_env : SeedEnv
seed_env = record {
  node_env = some (codes "development");
  database_url = some (codes "postgres://x");
  seed_allow_remote_host = some (codes " ABC@pooler.example");
}

hosted : database_host_of one_url (codes "postgres://x") ≡ some (codes "pooler.example")
unfolding database_host_of to_lower_case
hosted = refl

remote : is_local (codes "pooler.example") ≡ false
unfolding is_local
remote = refl

not_blank : trim (codes "postgres://x") ≢ []
unfolding trim
not_blank h = cc

seeded : assert_seed_allowed one_url seed_env ≡ ok tt
unfolding assert_seed_allowed trim to_lower_case
seeded = refl

assert_seed_allowed-IsNamed_example :
    (seed_env.node_env ≢ some (codes "production"))
    × ((permission : Text) × (seed_env.seed_allow_remote_host ≡ some permission)
        × IsNamed one_url
            (codes "postgres://x")
            (codes "pooler.example")
            (to_lower_case (trim permission)))
assert_seed_allowed-IsNamed_example =
    assert_seed_allowed-IsNamed one_url seed_env (codes "postgres://x") (codes "pooler.example")
      refl not_blank hosted remote seeded
