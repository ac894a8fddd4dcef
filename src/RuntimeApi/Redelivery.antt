-- ===== src/RuntimeApi/Redelivery.antt =====
-- A frame that is sent again (services/agent-runtime-api/agent_runtime_api/runtime.py).
use porfirium.Prelude.{
  ◌≡◌, ◌∙◌, ap, sym, refl, ◌⊎◌, inl, inr, true, false, ◌&&◌, Option, none, some, List, ◌∷◌, Uuid,
  Time, ◌==◌, lookup, ok, err, Option-cases, Bool-cases, arith, Text, list_eq, list_eq_refl,
  list_eq→eq, both_true,
}
use porfirium.RuntimeApi.State.{
  stale_epoch, RunCapability, AgentFrame, FrameIdentity, Payload, AcceptedFrame, same_attempt,
  find_frame, Db,
}
use porfirium.RuntimeApi.Events.{Library}
use porfirium.RuntimeApi.Accept.{frame_of, is_hello, accept, accept_payload}
use porfirium.RuntimeApi.Effects.{
  Stores, activate-effect, accept-effect, reserve-keeps, complete_invocation-keeps,
}
use porfirium.RuntimeApi.Steps.{
  System, Step, activates, accepts, reserves, completes, Steps, here, next,
}

-- What the frames of an attempt under a lease hold for a key.
abbrev at_key : RunCapability → Text → List AcceptedFrame → Option AcceptedFrame
at_key c key fs = find_frame c.run_id c.attempt_id c.lease_epoch key fs

-- The key is not new where a frame is stored for it.
key_clash :
    (c x : RunCapability) (k key : Text) (fs : List AcceptedFrame) (f : AcceptedFrame)
    → x.run_id ≡ c.run_id
    → x.attempt_id ≡ c.attempt_id
    → x.lease_epoch ≡ c.lease_epoch
    → k ≡ key
    → at_key x k fs ≡ none
    → at_key c key fs ≡ some f
    → ⊥
key_clash c x k key fs f er ea el ek fresh h = cc

find-cons_other :
    (c : RunCapability) (key : Text) (new : AcceptedFrame) (fs : List AcceptedFrame)
    → same_attempt c.run_id c.attempt_id c.lease_epoch new && list_eq new.idempotency_key key
      ≡ false
    → at_key c key (new ∷ fs) ≡ at_key c key fs
unfolding find_frame
find-cons_other c key new fs h = ground arith

find-cons_same :
    (c : RunCapability) (key : Text) (new : AcceptedFrame) (fs : List AcceptedFrame)
    → same_attempt c.run_id c.attempt_id c.lease_epoch new && list_eq new.idempotency_key key ≡ true
    → at_key c key (new ∷ fs) ≡ some new
unfolding find_frame
find-cons_same c key new fs h = ground arith

Stores-find :
    (c x : RunCapability) (identity : FrameIdentity) (p : Payload) (now : Time) (r : Option Uuid)
    (d d' : Db) (key : Text) (f : AcceptedFrame)
    → Stores x identity p now r d d'
    → at_key c key d.frames ≡ some f
    → at_key c key d'.frames ≡ some f
Stores-find c x identity p now r d d' key f
      (row, found, lease, fresh, number, attempts, frames, invocations) h =
    ap (at_key c key) frames
    ∙ elim (Bool-cases (
        same_attempt c.run_id c.attempt_id c.lease_epoch (frame_of x identity p r)
        && list_eq identity.idempotency_key key)) [
          | inr miss ↦ find-cons_other c key (frame_of x identity p r) d.frames miss ∙ h
          | inl hit ↦
              let (own, k) =
                both_true
                  (same_attempt c.run_id c.attempt_id c.lease_epoch (frame_of x identity p r))
                  (list_eq identity.idempotency_key key) hit in
              absurd (
                key_clash c x identity.idempotency_key key d.frames f (ground arith) (ground arith)
                  (ground arith) (list_eq→eq identity.idempotency_key key k) fresh h)
        ]

module _ (l : Library) where
  accept-find :
      (c x : RunCapability) (frame : AgentFrame) (id : Uuid) (now : Time) (d d' : Db)
      (r : Option Uuid) (key : Text) (f : AcceptedFrame)
      → accept l x frame id now d ≡ ok (r, d')
      → at_key c key d.frames ≡ some f
      → at_key c key d'.frames ≡ some f
  accept-find c x frame id now d d' r key f e h =
      let (p, given, effect) = accept-effect l x frame id now d d' r e in
      elim effect [
        | inl stores ↦ Stores-find c x frame.identity p now r d d' key f stores h
        | inr (same, old) ↦ ap (λ (y : Db). at_key c key y.frames) same ∙ h
      ]

  Step-find :
      (c : RunCapability) (s t : System) (key : Text) (f : AcceptedFrame)
      → Step l s t
      → at_key c key s.db.frames ≡ some f
      → at_key c key t.db.frames ≡ some f
  Step-find c s t key f (activates x now r e opened) h =
      elim (activate-effect x now s.db t.db r e) [
        | inl (last, attempts, frames, invocations, older) ↦ ap (at_key c key) frames ∙ h
        | inr (same, row) ↦ ap (λ (y : Db). at_key c key y.frames) same ∙ h
      ]
  Step-find c s t key f (accepts x frame id now r opened e same) h =
      accept-find c x frame id now s.db t.db r key f e h
  Step-find c s t key f (reserves gateway x call r opened e same) h =
      ap (at_key c key) (reserve-keeps l gateway x call s.db t.db r e).1 ∙ h
  Step-find c s t key f (completes x i answer r e same) h =
      ap (at_key c key) (complete_invocation-keeps l x i answer s.db t.db r e).1 ∙ h

  Steps-find :
      (c : RunCapability) (s t : System) (key : Text) (f : AcceptedFrame)
      → Steps l s t
      → at_key c key s.db.frames ≡ some f
      → at_key c key t.db.frames ≡ some f
  Steps-find c s t key f here h = h
  Steps-find c s t key f (next {m = m} earlier step) h =
      Step-find c m t key f step (Steps-find c s m key f earlier h)

  accepted_frame :
      (c : RunCapability) (frame : AgentFrame) (id : Uuid) (now : Time) (d d' : Db)
      (r : Option Uuid)
      → accept l c frame id now d ≡ ok (r, d')
      → (f : AcceptedFrame) × (at_key c frame.identity.idempotency_key d'.frames ≡ some f)
        × (f.sequence ≡ frame.identity.sequence)
        × (f.durable_event_id ≡ r)
  accepted_frame c frame id now d d' r e =
      let (p, given, effect) = accept-effect l c frame id now d d' r e in
      elim effect [
        | inl (row, found, lease, fresh, number, attempts, frames, invocations) ↦ (
          frame_of c frame.identity p r,
          ap (at_key c frame.identity.idempotency_key) frames
              ∙ find-cons_same c frame.identity.idempotency_key (frame_of c frame.identity p r)
                  d.frames (ground (arith, list_eq_refl frame.identity.idempotency_key)),
          refl,
          refl,
        )
        | inr (same, (old, there, number, event)) ↦ (
          old,
          ap (λ (y : Db). at_key c frame.identity.idempotency_key y.frames) same ∙ there,
          number,
          sym event,
        )
      ]

  accept-payload :
      (c : RunCapability) (frame : AgentFrame) (id : Uuid) (now : Time) (d d' : Db)
      (r : Option Uuid)
      → accept l c frame id now d ≡ ok (r, d')
      → (p : Payload) × (frame.payload ≡ some p) × (is_hello p ≡ false)
  unfolding accept accept_payload
  accept-payload c frame id now d d' r e = elim (Option-cases frame.payload) [
    | inl absent ↦ ground arith
    | inr (p, given) ↦ (p, given, ground arith)
  ]

  -- A frame that was accepted and is sent again, with whatever transactions between, is answered with the
  -- event of the first time and changes nothing, or is refused as its lease is not the current one.
  pub accept_repeats :
      (c : RunCapability) (frame : AgentFrame) (id id' : Uuid) (now now' : Time) (s m t : System)
      (r : Option Uuid)
      → accept l c frame id now s.db ≡ ok (r, m.db)
      → Steps l m t
      → (accept l c frame id' now' t.db ≡ ok (r, t.db))
        ⊎ (accept l c frame id' now' t.db ≡ err stale_epoch)
  unfolding accept accept_payload
  accept_repeats c frame id id' now now' s m t r e later =
      let (f, stored, number, event) = accepted_frame c frame id now s.db m.db r e in
      let there = Steps-find c m t frame.identity.idempotency_key f later stored in
      let (p, given, content) = accept-payload c frame id now s.db m.db r e in
      elim (Option-cases (lookup c.run_id t.db.attempts)) [
        | inl absent ↦ inr (ground arith)
        | inr (row, found) ↦ elim (Bool-cases (row.lease_epoch == c.lease_epoch)) [
          | inl current ↦ inl (ground arith)
          | inr past ↦ inr (ground arith)
        ]
      ]
