-- ===== src/Registry/Tests.antt =====
-- Runs of the Agent Registry on concrete inputs.
use porfirium.Prelude.{
  ℕ, ◌≡◌, refl, true, List, [], ◌∷◌, Uuid, lookup, put, update_where, Result, ok, err,
}
use porfirium.Registry.State.{Error, Release, AgentResponse, Db, valid_key, find_record}
use porfirium.Registry.Publication.{
  ValidatedRelease, store_agent, conflicts, find_conflict, release_of, store_release,
  publish_release,
}
use porfirium.Registry.Lifecycle.{
  response_of, change_default, record_default, set_default_release, retired, retire, record_retired,
  deprecate_release,
}
use porfirium.Registry.Steps.{Config, Steps, here, next, publishes, sets_default, deprecates}
use porfirium.Registry.Defaults.{IsSound, Steps-IsSound, set_default_release_repeats}
use porfirium.Registry.Images.{IsDistinct, Steps-IsDistinct}

-- What the tests compute with.
runs : ℕ
unfolding lookup put update_where valid_key find_record store_agent conflicts find_conflict
    release_of store_release publish_release response_of change_default record_default
    set_default_release retired retire record_retired deprecate_release
runs = 0

abbrev empty : Db
empty = record { agents = []; releases = []; audit = []; records = [] }

abbrev config : Config
config = record {
  is_agent_id = λ agent. true;
  default_digest = λ agent release. release;
  deprecate_digest = λ release. release;
}

abbrev db_of : {A : Type 0} → Result Error (A × Db) → Db
db_of (ok (a, d)) = d
db_of (err e) = empty

abbrev key : List ℕ
key = 65 ∷ 65 ∷ 65 ∷ 65 ∷ 65 ∷ 65 ∷ 65 ∷ 65 ∷ []

abbrev first : ValidatedRelease
first = record {
  agent_id = 3;
  version = 100;
  name = 7;
  description = 8;
  image = 900;
  manifest = 50;
  manifest_sha256 = 51;
}

abbrev second : ValidatedRelease
second = record first { version = 101; image = 901 }

abbrev publish_one : Result Error ((Uuid × Release) × Db)
publish_one = publish_release 1 key first 61 10 80 1000 empty

publish_one_ok : publish_one ≡ ok ((10, release_of 1 first), db_of publish_one)
unfolding runs
publish_one_ok = refl

abbrev publish_two : Result Error ((Uuid × Release) × Db)
publish_two = publish_release 1 (66 ∷ key) second 62 11 81 1001 (db_of publish_one)

publish_two_ok : publish_two ≡ ok ((11, release_of 1 second), db_of publish_two)
unfolding runs
publish_two_ok = refl

abbrev response : AgentResponse
response = record { agent_id = 3; name = 7; description = 8; default_release_id = 11 }

abbrev set_default : Result Error (AgentResponse × Db)
set_default =
    set_default_release config.is_agent_id config.default_digest 1 key 3 11 82 1002
      (db_of publish_two)

set_default_ok : set_default ≡ ok (response, db_of set_default)
unfolding runs
set_default_ok = refl

abbrev deprecate : Result Error ((Uuid × Release) × Db)
deprecate = deprecate_release config.deprecate_digest 1 key 10 83 1003 (db_of set_default)

deprecate_ok : deprecate ≡ ok ((10, retired 1 1003 (release_of 1 first)), db_of deprecate)
unfolding runs
deprecate_ok = refl

-- The default itself cannot be deprecated.
default_stays :
    deprecate_release config.deprecate_digest 1 (66 ∷ key) 11 84 1004 (db_of deprecate)
    ≡ err Error.default_release_deprecation_forbidden
unfolding runs
default_stays = refl

until_deprecated : Steps config empty (db_of deprecate)
until_deprecated =
    next
      (next
        (next (next here (publishes 1 key first 61 10 80 1000 _ publish_one_ok))
          (publishes 1 (66 ∷ key) second 62 11 81 1001 _ publish_two_ok))
        (sets_default 1 key 3 11 82 1002 _ set_default_ok))
      (deprecates 1 key 10 83 1003 _ deprecate_ok)

empty-IsSound : IsSound empty
unfolding runs
empty-IsSound agent release a found default = cc

empty-IsDistinct : IsDistinct empty.releases
unfolding runs
empty-IsDistinct j k x y fx fy alike = cc

Steps-IsSound_example : IsSound (db_of deprecate)
Steps-IsSound_example = Steps-IsSound empty-IsSound until_deprecated

Steps-IsDistinct_example : IsDistinct (db_of deprecate).releases
Steps-IsDistinct_example = Steps-IsDistinct empty-IsDistinct until_deprecated

set_default_release_repeats_example :
    set_default_release config.is_agent_id config.default_digest 1 key 3 11 92 1009
      (db_of set_default)
    ≡ ok (response, db_of set_default)
set_default_release_repeats_example =
    set_default_release_repeats config.is_agent_id config.default_digest 1 key 3 11 82 92 1002 1009
      (db_of publish_two) (db_of set_default) set_default_ok
