-- ===== src/Configuration/Effective.antt =====
-- What `resolve` of services/configuration-service/configuration_service/main.py gives with a driver that reads
-- `jsonb` as text.
use porfirium.Prelude.{
  ◌≡◌, refl, ◌∙◌, sym, ap, inl, inr, true, none, some, List, [], ◌∷◌, ◌++◌, Uuid, lookup, ok, err,
  Result-cases, Option-cases, arith, Text, Json, Fields, null, bool, nat, number, str, arr, obj,
  end,
}
use porfirium.Configuration.Documents.{internal_error, merge_layers, merge_from, merge_into}
use porfirium.Configuration.Revisions.{
  Scope, user, conversation, Revision, Db, record_of, get_revision,
}
use porfirium.Configuration.Resolve.{
  Library, ResolveConfiguration, EffectiveConfiguration, Layers, mapping_of, mappings_of, add_layer,
  first_layers, effective, resolve,
}

-- asyncpg gives a `jsonb` as its text, where no codec is set for the type.
abbrev pub GivesText : (Fields → Json) → Type 0
GivesText read_jsonb = (fs : Fields) → (s : Text) × (read_jsonb fs ≡ str s)

mappings_of-str :
    (xs ys : List Json) (s : Text) → mappings_of (xs ++ str s ∷ ys) ≡ err internal_error
unfolding mappings_of mapping_of
mappings_of-str [] ys s = refl
mappings_of-str (obj fs ∷ xs) ys s = rw (mappings_of-str xs ys s) refl
mappings_of-str (null ∷ xs) ys s = refl
mappings_of-str (bool b ∷ xs) ys s = refl
mappings_of-str (nat n ∷ xs) ys s = refl
mappings_of-str (number n ∷ xs) ys s = refl
mappings_of-str (str t ∷ xs) ys s = refl
mappings_of-str (arr js ∷ xs) ys s = refl

module _ (l : Library) where
  -- A layer that is added is what the driver gives for the values of a revision.
  add_layer-layers :
      (body : ResolveConfiguration) (owner id : Uuid) (scope : Scope) (d : Db) (s t : Layers)
      → add_layer l body owner (some id) scope d s ≡ ok t
      → (r : Revision) × (t.layers ≡ s.layers ++ l.read_jsonb r.values ∷ [])
  unfolding add_layer get_revision record_of
  add_layer-layers body owner id scope d s t e = elim (Option-cases (lookup id d.revisions)) [
    | inl absent ↦ absurd (ground arith)
    | inr (r, found) ↦ (r, ground arith)
  ]

  -- With text for its values, the lists of a resolution are no mappings any more.
  mappings_of-add_layer :
      (body : ResolveConfiguration) (owner id : Uuid) (scope : Scope) (d : Db) (s t : Layers)
      → GivesText l.read_jsonb
      → add_layer l body owner (some id) scope d s ≡ ok t
      → mappings_of t.layers ≡ err internal_error
  mappings_of-add_layer body owner id scope d s t text e =
      let (r, added) = add_layer-layers body owner id scope d s t e in
      let (v, is) = text r.values in
      ap mappings_of (added ∙ ap (λ x. s.layers ++ x ∷ []) is) ∙ mappings_of-str s.layers [] v

  resolve-mappings :
      (body : ResolveConfiguration) (owner : Uuid) (d : Db) {x : EffectiveConfiguration}
      → resolve l body owner d ≡ ok x
      → (s : Layers) × (t : Layers) × (layers : List Fields) × (secrets : List Fields) × (add_layer
            l body owner body.user_revision_id user d
            (first_layers l body)
          ≡ ok s)
        × (add_layer l body owner body.conversation_revision_id conversation d s ≡ ok t)
        × (mappings_of t.layers ≡ ok layers)
        × (mappings_of t.secrets ≡ ok secrets)
        × (l.accepts body.schema (merge_layers layers) ≡ true)
        × (effective l body (merge_layers layers) (merge_layers secrets) t.revision_ids ≡ x)
  unfolding resolve
  resolve-mappings body owner d e =
      elim (Result-cases
        (add_layer l body owner body.user_revision_id user d (first_layers l body))) [
          | inr (p, refused) ↦ absurd (ground arith)
          | inl (s, first) ↦
              elim (Result-cases
                (add_layer l body owner body.conversation_revision_id conversation d s)) [
                  | inr (p, refused) ↦ absurd (ground arith)
                  | inl (t, second) ↦ elim (Result-cases (mappings_of t.layers)) [
                    | inr (p, broken) ↦ absurd (ground arith)
                    | inl (layers, read) ↦ elim (Result-cases (mappings_of t.secrets)) [
                      | inr (p, broken) ↦ absurd (ground arith)
                      | inl (secrets, known) ↦ (
                        s,
                        t,
                        layers,
                        secrets,
                        first,
                        second,
                        read,
                        known,
                        ground arith,
                        ground arith,
                      )
                    ]
                  ]
                ]
        ]

  -- With a driver that gives text for a `jsonb`, a resolution succeeds only where it names no revision. Its values
  -- are then the defaults of the release alone, merged into an empty mapping, which the schema accepts, and it
  -- has no secret references.
  pub resolve_unnamed :
      (body : ResolveConfiguration) (owner : Uuid) (d : Db) (x : EffectiveConfiguration)
      → GivesText l.read_jsonb
      → resolve l body owner d ≡ ok x
      → (body.user_revision_id ≡ none)
        × (body.conversation_revision_id ≡ none)
        × (x.values ≡ merge_layers (body.release_defaults ∷ []))
        × (x.secret_references ≡ end)
        × (l.accepts body.schema x.values ≡ true)
  unfolding effective mappings_of mapping_of add_layer merge_layers merge_from merge_into
  resolve_unnamed body owner d x text e =
      let (s, t, layers, secrets, first, second, read, known, accepted, result) =
        resolve-mappings body owner d e in
      elim (Option-cases body.conversation_revision_id) [
        | inr (id, named) ↦ absurd (
            let broken =
              mappings_of-add_layer body owner id conversation d s t text
                (ap (λ i. add_layer l body owner i conversation d s) (sym named) ∙ second) in
            cc)
        | inl unnamed ↦ elim (Option-cases body.user_revision_id) [
          | inr (id, named) ↦ absurd (
              let broken = mappings_of-add_layer body owner id user d (first_layers l body) s text (
                ap (λ i. add_layer l body owner i user d (first_layers l body)) (sym named)
                ∙ first) in
              let same : ok s ≡ ok t =
                ap (λ i. add_layer l body owner i conversation d s) (sym unnamed) ∙ second in
              cc)
          | inl neither ↦
              let one : ok (first_layers l body) ≡ ok s =
                ap (λ i. add_layer l body owner i user d (first_layers l body)) (sym neither)
                ∙ first in
              let two : ok s ≡ ok t =
                ap (λ i. add_layer l body owner i conversation d s) (sym unnamed) ∙ second in
              let here : first_layers l body ≡ t = cc in
              let some_layers = sym read ∙ ap (λ (u : Layers). mappings_of u.layers) (sym here) in
              let some_secrets =
                sym known ∙ ap (λ (u : Layers). mappings_of u.secrets) (sym here) in
              let layers_are : layers ≡ body.release_defaults ∷ [] = cc in
              let secrets_are : secrets ≡ end ∷ [] = cc in
              (
                neither,
                unnamed,
                rw (← result, layers_are) refl,
                rw (← result, secrets_are) refl,
                rw (← result) accepted,
              )
        ]
      ]
