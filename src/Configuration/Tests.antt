-- ===== src/Configuration/Tests.antt =====
-- Runs of the Configuration Service on concrete inputs.
use porfirium.Prelude.{
  ℕ, ◌≡◌, ◌≤◌, ◌↔◌, refl, true, none, some, [], ◌∷◌, Digest, lookup, put, Result, ok, err, Text,
  Json, Fields, obj, str, nat, end, field, get, set_field, is_dict,
}
use porfirium.Configuration.Documents.{
  Problem, internal_error, max_configuration_bytes, max_depth, validate_at, validate_fields,
  validate_bounded, merge_into, merge_from, merge_layers,
}
use porfirium.Configuration.Layers.{at, untouched}
use porfirium.Configuration.Precedence.{merge_layers_precedence}
use porfirium.Configuration.Bounds.{nesting, short_keys, validate_bounded_iff}
use porfirium.Configuration.Revisions.{
  user, conversation, RevisionRecord, NewRevision, Db, get_revision, find_request, revision_of,
  record_of, create_revision,
}
use porfirium.Configuration.Resolve.{
  Library, ResolveConfiguration, EffectiveConfiguration, check_bodies, revision_create,
  revision_get, revision_response, respond, mapping_of, mappings_of, verify_schema_digest,
  add_layer, effective, resolve,
}
use porfirium.Configuration.Effective.{GivesText, resolve_unnamed}
use porfirium.Configuration.Repeats.{
  Later, here, next, create_revision_repeats, revision_create_breaks,
}

-- What the tests compute with.
runs : ℕ
unfolding lookup put get set_field is_dict validate_at validate_fields validate_bounded merge_into
    merge_from merge_layers at untouched get_revision find_request revision_of create_revision
    check_bodies revision_create revision_get revision_response record_of mapping_of mappings_of
    respond verify_schema_digest add_layer effective resolve
runs = 0

-- A driver that gives text.
abbrev read_jsonb : Fields → Json
read_jsonb fs = str []

abbrev library : Library
library = record {
  encoded_bytes = λ v. 100;
  content_digest = λ v. 5;
  check_schema = λ v. true;
  accepts = λ v fs. true;
  effective_digest = λ schema values secrets ids. 77;
  effective_id = λ digest. 78;
  read_jsonb = read_jsonb;
}

abbrev digest_of : NewRevision → Digest
digest_of p = p.schema_digest

abbrev one : Text
one = 65 ∷ []

abbrev two : Text
two = 66 ∷ []

-- `{"A": {"B": 1}}` and `{"A": {"A": 3}}`
abbrev defaults : Fields
defaults = field one (obj (field two (nat 1) end)) end

abbrev users : Fields
users = field one (obj (field one (nat 3) end)) end

validate_bounded_iff_example : (validate_bounded (λ v. 100) (obj defaults) ≡ ok tt) ↔ (
    (100 ≤ max_configuration_bytes)
    × (nesting (obj defaults) ≤ max_depth)
    × (short_keys (obj defaults) ≡ true))
validate_bounded_iff_example = validate_bounded_iff (λ v. 100) (obj defaults)

merge_layers_precedence_example :
    at (one ∷ two ∷ []) (obj (merge_layers (defaults ∷ users ∷ []))) ≡ some (nat 1)
unfolding runs
merge_layers_precedence_example =
    merge_layers_precedence (one ∷ two ∷ []) [] defaults (users ∷ []) (nat 1) refl refl refl
      ((refl, refl), tt)

abbrev empty : Db
empty = record { revisions = []; requests = [] }

abbrev of_user : NewRevision
of_user = record {
  owner_id = 1;
  release_id = 2;
  scope = user;
  conversation_id = none;
  schema_digest = 5;
  values = users;
  secret_references = end;
}

abbrev of_conversation : NewRevision
of_conversation = record of_user { scope = conversation; conversation_id = some 9 }

abbrev db_of : {A : Type 0} → Result Problem (A × Db) → Db
db_of (ok (a, d)) = d
db_of (err e) = empty

abbrev make_user : Result Problem (RevisionRecord × Db)
make_user = create_revision read_jsonb digest_of 40 of_user 10 1000 empty

make_user_ok : make_user ≡ ok (record_of read_jsonb 10 (revision_of of_user 1000), db_of make_user)
unfolding runs
make_user_ok = refl

abbrev make_conversation : Result Problem (RevisionRecord × Db)
make_conversation =
    create_revision read_jsonb digest_of 41 of_conversation 11 1001 (db_of make_user)

make_conversation_ok :
    make_conversation
    ≡ ok (record_of read_jsonb 11 (revision_of of_conversation 1001), db_of make_conversation)
unfolding runs
make_conversation_ok = refl

later : Later read_jsonb digest_of (db_of make_user) (db_of make_conversation)
later =
    next 41 of_conversation 11 1001 (record_of read_jsonb 11 (revision_of of_conversation 1001))
      here make_conversation_ok

gives_text : GivesText read_jsonb
gives_text fs = ([], refl)

create_revision_repeats_example :
    create_revision read_jsonb digest_of 40 of_user 12 1002 (db_of make_conversation)
    ≡ ok (record_of read_jsonb 10 (revision_of of_user 1000), db_of make_conversation)
create_revision_repeats_example =
    create_revision_repeats read_jsonb digest_of 40 of_user 10 12 1000 1002 empty (db_of make_user)
      (db_of make_conversation) (record_of read_jsonb 10 (revision_of of_user 1000)) make_user_ok
      later

revision_create_breaks_example :
    (revision_create library digest_of 40 of_user 10 1000 empty
      ≡ (err internal_error, db_of make_user))
    × (revision_create library digest_of 40 of_user 12 1002 (db_of make_conversation)
        ≡ (err internal_error, db_of make_conversation))
    × (revision_get library 1 10 (db_of make_conversation) ≡ err internal_error)
unfolding runs
revision_create_breaks_example =
    revision_create_breaks library digest_of 40 of_user 10 12 1000 1002 empty (db_of make_user)
      (db_of make_conversation) (record_of read_jsonb 10 (revision_of of_user 1000)) gives_text refl
      make_user_ok later

abbrev body : ResolveConfiguration
body = record {
  release_id = 2;
  schema = obj end;
  schema_digest = 5;
  release_defaults = defaults;
  user_revision_id = none;
  conversation_revision_id = none;
}

abbrev configuration : EffectiveConfiguration
configuration = record {
  effective_revision_id = 78;
  schema_digest = 5;
  values = defaults;
  secret_references = end;
  content_sha256 = 77;
}

resolved : resolve library body 1 (db_of make_user) ≡ ok configuration
unfolding runs
resolved = refl

resolve_unnamed_example :
    (body.user_revision_id ≡ none)
    × (body.conversation_revision_id ≡ none)
    × (configuration.values ≡ merge_layers (defaults ∷ []))
    × (configuration.secret_references ≡ end)
    × (library.accepts body.schema configuration.values ≡ true)
resolve_unnamed_example =
    resolve_unnamed library body 1 (db_of make_user) configuration gives_text resolved
