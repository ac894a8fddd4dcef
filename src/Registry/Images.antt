-- ===== src/Registry/Images.antt =====
-- No image and no version of an agent is published twice (`_store_release` of
-- services/agent-registry/agent_registry/publication.py).
use porfirium.Prelude.{
  ◌≡◌, ◌⊎◌, inl, inr, true, false, none, some, [], ◌∷◌, Uuid, Time, ◌==◌, Table, lookup, put,
  update_where, lookup-put, lookup-update_where, Option-cases, Bool-cases, arith,
}
use porfirium.Registry.State.{Release, Db, find_record, publishing}
use porfirium.Registry.Publication.{
  ValidatedRelease, conflicts, find_conflict, release_of, store_release, publish_release,
}
use porfirium.Registry.Lifecycle.{
  change_default, record_default, set_default_release, retired, retire, record_retired,
  deprecate_release,
}
use porfirium.Registry.Steps.{Config, Step, Steps, here, next, publishes, sets_default, deprecates}

-- Two releases of one image, or of one version of an agent.
abbrev pub Alike : Release → Release → Type 0
Alike x y = (x.image ≡ y.image) ⊎ ((x.agent_id ≡ y.agent_id) × (x.version ≡ y.version))

abbrev pub IsDistinct : Table Release → Type 0
IsDistinct t =
    (j k : Uuid) (x y : Release) → lookup j t ≡ some x → lookup k t ≡ some y → Alike x y → j ≡ k

no_conflict :
    (v : ValidatedRelease) (k : Uuid) (t : Table Release) (y : Release)
    → find_conflict v t ≡ none
    → lookup k t ≡ some y
    → conflicts v y ≡ false
unfolding find_conflict lookup
no_conflict v k [] y h found = cc
no_conflict v k ((j, x) ∷ t) y h found = ground (arith, no_conflict v k t y)

put-IsDistinct :
    (v : ValidatedRelease) (actor id : Uuid) (t : Table Release)
    → find_conflict v t ≡ none
    → IsDistinct t
    → IsDistinct (put id (release_of actor v) t)
unfolding release_of conflicts
put-IsDistinct v actor id t none_found h j k x y fx fy alike = elim (Bool-cases (id == j)) [
  | inl first ↦ elim (Bool-cases (id == k)) [
    | inl second ↦ ground arith
    | inr other ↦ ground (
      arith,
      no_conflict v k t y none_found,
      lookup-put id j (release_of actor v) t,
      lookup-put id k (release_of actor v) t,
    )
  ]
  | inr apart ↦ elim (Bool-cases (id == k)) [
    | inl second ↦ ground (
      arith,
      no_conflict v j t x none_found,
      lookup-put id j (release_of actor v) t,
      lookup-put id k (release_of actor v) t,
    )
    | inr other ↦ ground (
      arith,
      h j k x y,
      lookup-put id j (release_of actor v) t,
      lookup-put id k (release_of actor v) t,
    )
  ]
]

retire-IsDistinct :
    (actor id : Uuid) (now : Time) (t : Table Release)
    → IsDistinct t
    → IsDistinct (update_where id (λ _. true) (retired actor now) t)
unfolding retired
retire-IsDistinct actor id now t h j k x y fx fy alike =
    let at_j = lookup-update_where id j (λ _. true) (retired actor now) t in
    let at_k = lookup-update_where id k (λ _. true) (retired actor now) t in
    elim (Option-cases (lookup j t)) [
      | inl absent ↦ ground (arith, at_j)
      | inr (x', fx') ↦ elim (Option-cases (lookup k t)) [
        | inl absent ↦ ground (arith, at_k)
        | inr (y', fy') ↦ ground (arith, at_j, at_k, h j k x' y' fx' fy')
      ]
    ]

Step-IsDistinct :
    {g : Config} {d d' : Db} → Step g d d' → IsDistinct d.releases → IsDistinct d'.releases
unfolding publish_release store_release set_default_release change_default record_default
    deprecate_release retire record_retired
Step-IsDistinct {g} {d} {d'} (publishes actor key v digest id audit_id now r e) h =
    elim (Option-cases (find_record actor publishing key d.records)) [
      | inl new ↦
          let unused : find_conflict v d.releases ≡ none = ground arith in
          let rows : d'.releases ≡ put id (release_of actor v) d.releases = ground arith in
          rw rows (put-IsDistinct v actor id d.releases unused h)
      | inr (r, old) ↦ let same : d'.releases ≡ d.releases = ground arith in rw same h
    ]
Step-IsDistinct {g} {d} {d'} (sets_default actor key agent release audit_id now r e) h =
    let same : d'.releases ≡ d.releases = ground arith in rw same h
Step-IsDistinct {g} {d} {d'} (deprecates actor key release audit_id now r e) h =
    let cases : (d'.releases ≡ d.releases)
        ⊎ (d'.releases ≡ update_where release (λ _. true) (retired actor now) d.releases) =
      ground arith in
    elim cases [
      | inl same ↦ rw same h
      | inr rows ↦ rw rows (retire-IsDistinct actor release now d.releases h)
    ]

-- Through every interleaving of publications, changes of the default and deprecations, two releases
-- of the same image, or of the same version of an agent, are one release.
pub Steps-IsDistinct :
    {g : Config} {d d' : Db} → IsDistinct d.releases → Steps g d d' → IsDistinct d'.releases
Steps-IsDistinct h here = h
Steps-IsDistinct h (next ss s) = Step-IsDistinct s (Steps-IsDistinct h ss)
