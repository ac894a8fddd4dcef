-- ===== src/Runner/Admission.antt =====
-- `admit` of services/agent-runner/agent_runner/service.py. `digest` is canonical_digest of the
-- admission, `payload_digest` that of the specification's payload.
use porfirium.Prelude.{
  ℕ, ◌+◌, ◌||◌, not, Option, none, some, List, ◌∷◌, Uuid, Digest, Key, Time, ◌==◌, leb, ltb,
  if◌then◌else◌, is_some, find, lookup, put, Result, ok, err, ◌>>=◌, ◌>>◌, raise_if,
}
use porfirium.Runner.State.{
  RunAdmission, SignedSpecification, ExpiresAt, not_text, unparsable, at, Run, Db, Error,
  AdmitReplay, idempotency_conflict, run_conflict, specification_invalid, specification_expired,
  uncaught, RunState, schedule_command, enqueue, get_run,
}

-- `_parse_time`
unfoldable pub parse_time : Time → ExpiresAt → Result Error Time
parse_time now not_text = err specification_invalid
parse_time now unparsable = err uncaught
parse_time now (at t) = if leb t now then err specification_expired else ok t

abbrev pub earlier : Time → Time → Time
earlier a b = if ltb b a then b else a

unfoldable pub find_admission : Key → List AdmitReplay → Option AdmitReplay
find_admission key = find (λ r. r.idempotency_key == key)

unfoldable pub admitted_run : RunAdmission → SignedSpecification → Time → Time → Run
admitted_run a spec deadline now = record {
  admission = a;
  specification = spec;
  state = RunState.accepted;
  active_attempt_id = none;
  lease_epoch = 0;
  terminal_code = none;
  cancellation_requested_at = none;
  deadline_at = deadline;
  created_at = now;
  updated_at = now;
}

module _ (digest : RunAdmission → Digest) (payload_digest : ExpiresAt → ℕ → Digest)
    (attempt_timeout_seconds : ℕ) where
  -- The part of `admit` for a new key. The timeout is in the unit of time.
  unfoldable pub admit_new :
      RunAdmission → Key → SignedSpecification → Uuid → Time → Db → Result Error (Run × Db)
  unfolding parse_time
  admit_new a key spec event_id now d = do
    raise_if (is_some (lookup a.run_id d.runs)) run_conflict
    raise_if
        (not (payload_digest spec.expires_at spec.content == spec.payload_sha256)
          || not (spec.run_id == a.run_id))
        specification_invalid
    expires_at ← parse_time now spec.expires_at
    let row = admitted_run a spec (earlier expires_at (now + attempt_timeout_seconds)) now
    ok (
      row,
      record d {
        runs = put a.run_id row d.runs;
        idempotency =
            record { idempotency_key = key; request_sha256 = digest a; run_id = a.run_id }
            ∷ d.idempotency;
        outbox = enqueue event_id (schedule_command a.run_id) d.outbox;
      },
    )

  unfoldable pub admit :
      RunAdmission → Key → SignedSpecification → Uuid → Time → Db → Result Error (Run × Db)
  admit a key spec event_id now d = elim (find_admission key d.idempotency) [
    | some r ↦ do
      raise_if (not (r.request_sha256 == digest a)) idempotency_conflict
      run ← get_run r.run_id d
      ok (run, d)
    | none ↦ admit_new a key spec event_id now d
  ]
