-- ===== src/RuntimeApi/Numbers.antt =====
-- The sequence numbers of the frames of one run, by its row
-- (services/agent-runtime-api/agent_runtime_api/runtime.py).
use mathlib.Core.Path.{subst}
use porfirium.Prelude.{
  ℕ, zero, suc, ◌+◌, ◌≡◌, ap, sym, refl, ◌⊎◌, inl, inr, Bool, true, false, not, ◌&&◌, ◌||◌, Option,
  none, some, List, [], ◌∷◌, map, Uuid, Time, ◌==◌, ltb, leb, arith, All, select,
}
use porfirium.RuntimeApi.State.{
  RunCapability, FrameIdentity, Payload, Attempt, AcceptedFrame, same_attempt,
}
use porfirium.RuntimeApi.Accept.{attempt_of, frame_of, beat}
use porfirium.RuntimeApi.Steps.{IsOpen}

-- The sequence numbers of the frames of an attempt under a lease, newest first.
abbrev pub numbers : Uuid → Uuid → ℕ → List AcceptedFrame → List ℕ
numbers run attempt epoch fs =
    map (λ (f : AcceptedFrame). f.sequence) (select (same_attempt run attempt epoch) fs)

-- `n` down to 1.
abbrev pub count_down : ℕ → List ℕ
count_down zero = []
count_down (suc n) = suc n ∷ count_down n

abbrev pub old_frame : Uuid → Attempt → AcceptedFrame → Bool
old_frame run row f = not (f.run_id == run) || leb f.lease_epoch row.lease_epoch

-- The lease of a connection is older than that of the row, or its attempt is that of the row.
abbrev pub old_session : Uuid → Attempt → RunCapability → Bool
old_session run row c =
    not (c.run_id == run)
    || ltb c.lease_epoch row.lease_epoch
    || c.lease_epoch == row.lease_epoch && c.attempt_id == row.attempt_id

-- The frames and the connections of a run, by its row.
abbrev pub RunIsNumbered : Uuid → Option Attempt → List AcceptedFrame → List RunCapability → Type 0
RunIsNumbered run none fs cs =
    All (λ f. f.run_id == run ≡ false) fs × All (λ c. c.run_id == run ≡ false) cs
RunIsNumbered run (some row) fs cs =
    (numbers run row.attempt_id row.lease_epoch fs ≡ count_down row.last_sequence)
    × All (λ f. old_frame run row f ≡ true) fs
    × All (λ c. old_session run row c ≡ true) cs

All-map :
    {A : Type 0} {P Q : A → Type 0} (f : (a : A) → P a → Q a) (xs : List A) → All P xs → All Q xs
All-map f [] h = tt
All-map f (x ∷ xs) (p, h) = (f x p, All-map f xs h)

All-open :
    (P : RunCapability → Type 0) (c : RunCapability) (cs : List RunCapability)
    → IsOpen c cs
    → All P cs
    → P c
All-open P c [] o h = absurd o
All-open P c (x ∷ xs) (inl same) (p, h) = subst P (sym same) p
All-open P c (x ∷ xs) (inr o) (p, h) = All-open P c xs o h

count_next :
    (n last : ℕ) (ns : List ℕ) → n ≡ last + 1 → ns ≡ count_down last → n ∷ ns ≡ count_down n
count_next n last ns e h =
    let eq : n ≡ suc last = omega arith in
    subst (λ x. x ∷ ns ≡ count_down x) (sym eq) (ap (λ t. suc last ∷ t) h)

select-none :
    (p : AcceptedFrame → Bool) (fs : List AcceptedFrame)
    → All (λ f. p f ≡ false) fs
    → select p fs ≡ []
select-none p [] h = refl
select-none p (f ∷ fs) (e, h) = ground (arith, select-none p fs h)

pub other_session :
    (run : Uuid) (o : Option Attempt) (fs : List AcceptedFrame) (cs : List RunCapability)
    (c : RunCapability)
    → c.run_id == run ≡ false
    → RunIsNumbered run o fs cs
    → RunIsNumbered run o fs (c ∷ cs)
other_session run none fs cs c e (h, k) = (h, (e, k))
other_session run (some row) fs cs c e (n, h, k) = (n, h, (ground arith, k))

pub other_frame :
    (run : Uuid) (o : Option Attempt) (fs : List AcceptedFrame) (cs : List RunCapability)
    (f : AcceptedFrame)
    → f.run_id == run ≡ false
    → RunIsNumbered run o fs cs
    → RunIsNumbered run o (f ∷ fs) cs
other_frame run none fs cs f e (h, k) = ((e, h), k)
other_frame run (some row) fs cs f e (n, h, k) = (ground arith, (ground arith, h), k)

-- Where the row is older than the new lease, or absent.
abbrev IsOlder : RunCapability → Option Attempt → Type 0
IsOlder c o =
    (o ≡ none) ⊎ ((row : Attempt) × (o ≡ some row) × (ltb row.lease_epoch c.lease_epoch ≡ true))

older_row :
    (c : RunCapability) (row : Attempt)
    → IsOlder c (some row)
    → ltb row.lease_epoch c.lease_epoch ≡ true
older_row c row (inl e) = cc
older_row c row (inr (r, e, h)) = ground arith

pub taken_over :
    (c : RunCapability) (now : Time) (last : Option Time) (o : Option Attempt)
    (fs : List AcceptedFrame) (cs : List RunCapability)
    → IsOlder c o
    → RunIsNumbered c.run_id o fs cs
    → RunIsNumbered c.run_id (some (attempt_of c now last)) fs (c ∷ cs)
taken_over c now last none fs cs older (h, k) = (
  ap (map (λ (f : AcceptedFrame). f.sequence)) (
      select-none (same_attempt c.run_id c.attempt_id c.lease_epoch) fs
        (All-map (λ f e. ground arith) fs h)),
  All-map (λ f e. ground arith) fs h,
  (ground arith, All-map (λ x e. ground arith) cs k),
)
taken_over c now last (some row) fs cs older (n, h, k) =
    let newer : ltb row.lease_epoch c.lease_epoch ≡ true = older_row c row older in
    (
      ap (map (λ (f : AcceptedFrame). f.sequence)) (
          select-none (same_attempt c.run_id c.attempt_id c.lease_epoch) fs
            (All-map (λ f e. ground arith) fs h)),
      All-map (λ f e. ground arith) fs h,
      (ground arith, All-map (λ x e. ground arith) cs k),
    )

pub stored :
    (c : RunCapability) (identity : FrameIdentity) (p : Payload) (r : Option Uuid) (now : Time)
    (row : Attempt) (fs : List AcceptedFrame) (cs : List RunCapability)
    → IsOpen c cs
    → row.lease_epoch ≡ c.lease_epoch
    → identity.sequence ≡ row.last_sequence + 1
    → RunIsNumbered c.run_id (some row) fs cs
    → RunIsNumbered c.run_id
        (some (record row {
          last_sequence = identity.sequence;
          last_heartbeat_at = beat p now row.last_heartbeat_at;
          updated_at = now;
        }))
        (frame_of c identity p r ∷ fs)
        cs
stored c identity p r now row fs cs opened lease number (n, h, k) =
    let mine = All-open (λ x. old_session c.run_id row x ≡ true) c cs opened k in
    let own : same_attempt c.run_id row.attempt_id row.lease_epoch (frame_of c identity p r)
        ≡ true =
      ground arith in
    (
      rw own (
          count_next identity.sequence row.last_sequence
            (numbers c.run_id row.attempt_id row.lease_epoch fs) number n),
      (ground arith, h),
      k,
    )

pub gone_on :
    (c : RunCapability) (row : Attempt) (o : Option Attempt) (fs : List AcceptedFrame)
    (cs : List RunCapability)
    → o ≡ some row
    → row.lease_epoch ≡ c.lease_epoch
    → row.attempt_id ≡ c.attempt_id
    → RunIsNumbered c.run_id o fs cs
    → RunIsNumbered c.run_id o fs (c ∷ cs)
gone_on c row none fs cs found lease attempt h = cc
gone_on c row (some other) fs cs found lease attempt (n, h, k) = (n, h, (ground arith, k))
