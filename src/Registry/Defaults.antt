-- ===== src/Registry/Defaults.antt =====
-- The default release of an agent is one of its published releases
-- (services/agent-registry/agent_registry/publication.py and lifecycle.py).
use porfirium.Prelude.{
  list_eq_refl, ℕ, ◌≡◌, inl, inr, Bool, true, none, some, List, Uuid, Digest, Time, ◌==◌, Table,
  lookup, put, lookup-put, lookup-update_where, ok, succeeds-split, Result-cases, Option-cases,
  Bool-cases, arith, holds,
}
use porfirium.Registry.State.{
  Agent, Release, AgentResponse, Db, is_published, find_record, publishing, setting_default,
  deprecating,
}
use porfirium.Registry.Publication.{
  ValidatedRelease, store_agent, release_of, store_release, publish_release,
}
use porfirium.Registry.Lifecycle.{
  change_default, record_default, set_default_release, retire, record_retired, deprecate_release,
}
use porfirium.Registry.Steps.{Config, Step, Steps, here, next, publishes, sets_default, deprecates}

-- The release is published, and the agent's.
abbrev pub Serves : Table Release → Uuid → Uuid → Type 0
Serves t agent release =
    (x : Release) × (lookup release t ≡ some x)
    × (x.agent_id ≡ agent)
    × (is_published x.status ≡ true)

abbrev pub IsSound : Db → Type 0
IsSound d =
    (agent release : Uuid) (a : Agent)
    → lookup agent d.agents ≡ some a
    → a.default_release_id ≡ some release
    → Serves d.releases agent release

Serves-put :
    (agent release id : Uuid) (x : Release) (t : Table Release)
    → lookup id t ≡ none
    → Serves t agent release
    → Serves (put id x t) agent release
Serves-put agent release id x t fresh (y, found, own, live) =
    (y, ground (arith, lookup-put id release x t), own, live)

-- An agent that has a default after a publication had it before.
store_agent-defaults :
    (v : ValidatedRelease) (now : Time) (t t' : Table Agent) (agent release : Uuid) (a : Agent)
    → store_agent v now t ≡ ok t'
    → lookup agent t' ≡ some a
    → a.default_release_id ≡ some release
    → lookup agent t ≡ some a
unfolding store_agent
store_agent-defaults v now t t' agent release a e found default =
    elim (Option-cases (lookup v.agent_id t)) [
      | inl new ↦ elim (Bool-cases (v.agent_id == agent)) [
        | inl same ↦ grind (arith, lookup-put)
        | inr other ↦ grind (arith, lookup-put)
      ]
      | inr (b, old) ↦ ground arith
    ]

store_release-IsSound :
    (v : ValidatedRelease) (actor id audit_id : Uuid) (now : Time) (d d' : Db)
    → IsSound d
    → store_release v actor id audit_id now d ≡ ok d'
    → IsSound d'
unfolding store_release
store_release-IsSound v actor id audit_id now d d' h e agent release a found default =
    let (agents', stored, rest) = succeeds-split (store_agent v now d.agents) _ e in
    let same : d'.agents ≡ agents' = ground arith in
    let fresh : lookup id d.releases ≡ none = ground arith in
    let rows : d'.releases ≡ put id (release_of actor v) d.releases = ground arith in
    let before =
      store_agent-defaults v now d.agents agents' agent release a stored (ground arith) default in
    rw rows (Serves-put agent release id _ d.releases fresh (h agent release a before default))

publish_release-IsSound :
    (actor : Uuid) (key : List ℕ) (v : ValidatedRelease) (digest : Digest) (id audit_id : Uuid)
    (now : Time) (d d' : Db) {r : Uuid × Release}
    → IsSound d
    → publish_release actor key v digest id audit_id now d ≡ ok (r, d')
    → IsSound d'
unfolding publish_release
publish_release-IsSound actor key v digest id audit_id now d d' h e agent release a found default =
    elim (Option-cases (find_record actor publishing key d.records)) [
      | inl new ↦ elim (Result-cases (store_release v actor id audit_id now d)) [
        | inl (m, stored) ↦
            let same : d'.releases ≡ m.releases = ground arith in
            rw same (
              store_release-IsSound v actor id audit_id now d m h stored agent release a
                (ground arith) default)
        | inr (problem, refused) ↦ absurd (ground arith)
      ]
      | inr (r, old) ↦
          let same : d ≡ d' = ground arith in rw (← same) (h agent release a (ground arith) default)
    ]

set_default_release-IsSound :
    (is_agent_id : Uuid → Bool) (digest : Uuid → Uuid → Digest) (actor : Uuid) (key : List ℕ)
    (agent' release' audit_id : Uuid) (now : Time) (d d' : Db) {r : AgentResponse}
    → IsSound d
    → set_default_release is_agent_id digest actor key agent' release' audit_id now d ≡ ok (r, d')
    → IsSound d'
unfolding set_default_release change_default record_default
set_default_release-IsSound is_agent_id digest actor key agent' release' audit_id now d d' h e agent
      release a found default =
    elim (Option-cases (find_record actor setting_default key d.records)) [
      | inl new ↦
          let same : d'.releases ≡ d.releases = ground arith in
          elim (Option-cases (lookup release' d.releases)) [
            | inl absent ↦ absurd (ground arith)
            | inr (x, stored) ↦ elim (Bool-cases (agent' == agent)) [
              | inl own ↦ rw same (elim (Option-cases (lookup agent d.agents)) [
                | inl gone ↦ absurd (grind (arith, lookup-update_where))
                | inr (b, was) ↦ elim (Bool-cases (holds b.default_release_id release')) [
                  | inl kept ↦ h agent release a (ground arith) default
                  | inr changed ↦
                      let r : release' ≡ release = grind (arith, lookup-update_where) in
                      (x, ground arith, ground arith, ground arith)
                ]
              ])
              | inr other ↦ rw same (h agent release a (grind (arith, lookup-update_where)) default)
            ]
          ]
      | inr (r, old) ↦
          let same : d ≡ d' = ground arith in rw (← same) (h agent release a (ground arith) default)
    ]

deprecate_release-IsSound :
    (digest : Uuid → Digest) (actor : Uuid) (key : List ℕ) (release' audit_id : Uuid) (now : Time)
    (d d' : Db) {r : Uuid × Release}
    → IsSound d
    → deprecate_release digest actor key release' audit_id now d ≡ ok (r, d')
    → IsSound d'
unfolding deprecate_release retire record_retired
deprecate_release-IsSound digest actor key release' audit_id now d d' h e agent release a found
      default =
    elim (Option-cases (find_record actor deprecating key d.records)) [
      | inl new ↦
          let before : lookup agent d.agents ≡ some a = ground arith in
          let (x, stored, own, live) = h agent release a before default in
          elim (Bool-cases (release' == release)) [
            | inl same ↦ absurd (ground arith)
            | inr other ↦ (x, grind (arith, lookup-update_where), own, live)
          ]
      | inr (r, old) ↦
          let same : d ≡ d' = ground arith in rw (← same) (h agent release a (ground arith) default)
    ]

Step-IsSound : {g : Config} {d d' : Db} → Step g d d' → IsSound d → IsSound d'
Step-IsSound {g} {d} {d'} (publishes actor key v digest id audit_id now r e) h =
    publish_release-IsSound actor key v digest id audit_id now d d' h e
Step-IsSound {g} {d} {d'} (sets_default actor key agent release audit_id now r e) h =
    set_default_release-IsSound g.is_agent_id g.default_digest actor key agent release audit_id now
      d d' h e
Step-IsSound {g} {d} {d'} (deprecates actor key release audit_id now r e) h =
    deprecate_release-IsSound g.deprecate_digest actor key release audit_id now d d' h e

-- Through every interleaving of publications, changes of the default and deprecations, the default
-- release of each agent stays a release of that agent which is there and published.
pub Steps-IsSound : {g : Config} {d d' : Db} → IsSound d → Steps g d d' → IsSound d'
Steps-IsSound h here = h
Steps-IsSound h (next ss s) = Step-IsSound s (Steps-IsSound h ss)

-- A change of the default that succeeded, repeated with the same key and request, gives the same
-- response and changes nothing, whatever the time and the audit id are then.
pub set_default_release_repeats :
    (is_agent_id : Uuid → Bool) (digest : Uuid → Uuid → Digest) (actor : Uuid) (key : List ℕ)
    (agent release audit_id audit_id' : Uuid) (now now' : Time) (d d' : Db) {r : AgentResponse}
    → set_default_release is_agent_id digest actor key agent release audit_id now d ≡ ok (r, d')
    → set_default_release is_agent_id digest actor key agent release audit_id' now' d' ≡ ok (r, d')
unfolding set_default_release record_default find_record
set_default_release_repeats is_agent_id digest actor key agent release audit_id audit_id' now now' d
      d' e =
    elim (Option-cases (find_record actor setting_default key d.records)) [
      | inl new ↦ ground (arith, list_eq_refl key)
      | inr (r, old) ↦ ground arith
    ]
