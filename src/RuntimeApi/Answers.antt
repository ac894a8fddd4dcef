-- ===== src/RuntimeApi/Answers.antt =====
-- What a round of `connect` (services/agent-runtime-api/agent_runtime_api/runtime.py) answers, and when it ends
-- the connection.
use porfirium.Prelude.{
  ℕ, ◌≡◌, ◌⊎◌, refl, inl, inr, false, Option, none, some, List, [], ◌∷◌, ◌++◌, Uuid, Time, ltb,
  Result, ok, err, Bool-cases,
}
use porfirium.RuntimeApi.State.{
  Error, stale_epoch, identity_mismatch, Payload, hello, AgentFrame, RunCapability, Db,
}
use porfirium.RuntimeApi.Events.{Library, validate_identity}
use porfirium.RuntimeApi.Accept.{activate, accept}
use porfirium.RuntimeApi.Connect.{
  Session, waiting, connected, closed, Reply, frame_too_large, hello_required, capability_invalid,
  refused, hello_accepted, acknowledged, Outside, is_raised, ends_stream, after_error, greet,
  Outcome, Calls, after_activate, after_identity, after_accept, call_gateways, after_calls,
  hello_round, in_session, check_frame, connected_round, round, max_frame_bytes,
}

-- What may be answered when a connection goes on: the frame is too large, refused for an error that does not end
-- the stream, or acknowledged, after its results.
abbrev pub GoesOn : ℕ → List Reply → Type 0
GoesOn sequence rs =
    (rs ≡ frame_too_large ∷ [])
    ⊎ ((e : Error) × (ends_stream e ≡ false) × (is_raised e ≡ false) × (rs ≡ refused e ∷ []))
    ⊎ ((results : List Reply) × (id : Option Uuid) × (rs
          ≡ results ++ acknowledged sequence id ∷ []))

-- How a round may lead from one session to another, and what it answers then. No answer and an end is
-- an exception.
abbrev pub IsAnswer : ℕ → Session → Session → List Reply → Type 0
IsAnswer n (connected c) (connected c') rs = (c' ≡ c) × GoesOn n rs
IsAnswer n (connected c) closed rs =
    (rs ≡ refused stale_epoch ∷ []) ⊎ (rs ≡ refused identity_mismatch ∷ []) ⊎ (rs ≡ [])
IsAnswer n (connected c) waiting rs = ⊥
IsAnswer n waiting (connected c) rs = (resume : ℕ) × (rs ≡ hello_accepted resume ∷ [])
IsAnswer n waiting waiting rs = rs ≡ frame_too_large ∷ []
IsAnswer n waiting closed rs =
    (rs ≡ hello_required ∷ []) ⊎ (rs ≡ capability_invalid ∷ []) ⊎ (rs ≡ [])
IsAnswer n closed s rs = (s ≡ closed) × (rs ≡ [])

-- The same of an outcome.
abbrev pub Answers : AgentFrame → Session → Outcome → Type 0
Answers frame s ((s', rs), d) = IsAnswer frame.identity.sequence s s' rs

ends_stream-cases :
    (e : Error) → (ends_stream e ≡ false) ⊎ (e ≡ stale_epoch) ⊎ (e ≡ identity_mismatch)
ends_stream-cases identity_mismatch = inr (inr refl)
ends_stream-cases stale_epoch = inr (inl refl)
ends_stream-cases _ = inl refl

after_error-Answers :
    (c : RunCapability) (frame : AgentFrame) (e : Error) (d : Db)
    → Answers frame (connected c) (after_error c e, d)
after_error-Answers c frame e d = elim (Bool-cases (is_raised e)) [
  | inl raised ↦ rw raised (inr (inr refl))
  | inr caught ↦ elim (ends_stream-cases e) [
    | inl goes ↦ rw (caught, goes) (refl, inr (inl (e, goes, caught, refl)))
    | inr (inl stale) ↦ rw stale (inl refl)
    | inr (inr other) ↦ rw other (inr (inl refl))
  ]
]

after_activate-Answers :
    (c : RunCapability) (frame : AgentFrame) (d : Db) (x : Result Error (ℕ × Db))
    → Answers frame waiting (after_activate c d x)
unfolding after_activate
after_activate-Answers c frame d (ok (resume, m)) = (resume, refl)
after_activate-Answers c frame d (err e) = elim (Bool-cases (is_raised e)) [
  | inl raised ↦ inr (inr (rw raised refl))
  | inr caught ↦ inr (inl (rw caught refl))
]

after_identity-Answers :
    (c : RunCapability) (frame : AgentFrame) (now : Time) (d : Db) (x : Result Error (Unit {0}))
    → Answers frame waiting (after_identity c now d x)
unfolding after_identity
after_identity-Answers c frame now d (err e) = inr (inl refl)
after_identity-Answers c frame now d (ok u) = after_activate-Answers c frame d (activate c now d)

after_accept-Answers :
    (c : RunCapability) (frame : AgentFrame) (results : List Reply) (d : Db)
    (x : Result Error (Option Uuid × Db))
    → Answers frame (connected c) (after_accept c frame results d x)
unfolding after_accept
after_accept-Answers c frame results d (err e) = after_error-Answers c frame e d
after_accept-Answers c frame results d (ok (r, m)) = (refl, inr (inr (results, r, refl)))

module _ (l : Library) (o : Outside) where
  after_calls-Answers :
      (c : RunCapability) (frame : AgentFrame) (id : Uuid) (now : Time) (x : Calls)
      → Answers frame (connected c) (after_calls l o c frame id now x)
  unfolding after_calls
  after_calls-Answers c frame id now (err e, m) = after_error-Answers c frame e m
  after_calls-Answers c frame id now (ok results, m) =
      after_accept-Answers c frame results m (accept l c frame id now m)

  connected_round-Answers :
      (c : RunCapability) (frame : AgentFrame) (id : Uuid) (now : Time) (d : Db)
      (x : Result Error (Unit {0}))
      → Answers frame (connected c) (connected_round l o c frame id now d x)
  unfolding connected_round
  connected_round-Answers c frame id now d (err e) = after_error-Answers c frame e d
  connected_round-Answers c frame id now d (ok u) =
      after_calls-Answers c frame id now (call_gateways l o c frame.payload d)

  hello_round-Answers :
      (frame : AgentFrame) (p : Option Payload) (now : Time) (d : Db)
      → Answers frame waiting (hello_round l o frame p now d)
  unfolding hello_round greet
  hello_round-Answers frame (some (hello token)) now d = greeted (o.decode_capability token)
    where
      greeted : (x : Option RunCapability) → Answers frame waiting (greet l o frame now d x)
      greeted none = inr (inl refl)
      greeted (some c) = after_identity-Answers c frame now d (validate_identity l frame.identity c)
  hello_round-Answers frame _ now d = inl refl

  pub round-Answers :
      (session : Session) (frame : AgentFrame) (id : Uuid) (now : Time) (d : Db)
      → Answers frame session (round l o session frame id now d)
  unfolding round in_session
  round-Answers closed frame id now d = (refl, refl)
  round-Answers waiting frame id now d =
      elim (Bool-cases (ltb max_frame_bytes (o.byte_size frame))) [
        | inl large ↦ rw large refl
        | inr fits ↦ rw fits (hello_round-Answers frame frame.payload now d)
      ]
  round-Answers (connected c) frame id now d =
      elim (Bool-cases (ltb max_frame_bytes (o.byte_size frame))) [
        | inl large ↦ rw large (refl, inl refl)
        | inr fits ↦ rw fits (connected_round-Answers c frame id now d (check_frame l o c frame))
      ]
