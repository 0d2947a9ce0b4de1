-- ===== src/Proxy/Candidates.antt =====
-- internal/proxy/candidates.go: admission of candidate work, its quarantine and shutdown.
--
-- A call of the source is split at its lock: what runs under `c.mu` is one function here, and what
-- runs after the lock is released (the cancellations) is left in `pending`, to be done one run at a
-- time. A run is a number, since the source uses its pointer for identity only. A channel is a
-- number too, and `closed` lists those that have been closed. To close a closed channel panics, and
-- to send on a full one blocks.
pub mod Steps
pub mod Invariant
pub mod Shutdown
pub mod Tests
use spectre.Prelude.{
  ℕ, suc, ◌+◌, Bool, true, false, not, ◌||◌, Option, none, some, List, [], ◌∷◌, ◌++◌, Text, text,
  nat_eq, ◌==◌, contains, select, length, leb, ltb, is_some, if◌then◌else◌,
}
use spectre.Model.{Quarantine, QuarantineReason, capacity}

-- `CandidatesConfig.Validate`.
unfoldable pub config_is_valid : ℕ → Bool
config_is_valid candidate_max_in_flight = ltb 0 candidate_max_in_flight

pub record Candidates : Type 0 where
  pub max_in_flight : ℕ
  pub closing : Bool
  pub quarantine : Option Quarantine
  -- What the channel `quarantined` holds, and what its consumer has taken from it.
  pub quarantined : List Quarantine
  pub delivered : List Quarantine
  -- The keys of the map `runs`; numbers from `next_run` on are of runs to come.
  pub runs : List ℕ
  pub next_run : ℕ
  pub idle : ℕ
  pub next_channel : ℕ
  pub closed : List ℕ
  -- Runs whose cancellation is due, and those that have been cancelled.
  pub pending : List ℕ
  pub cancelled : List ℕ

pub data Outcome {ℓ} (A : Type ℓ) : Type ℓ where
  done : A → Outcome A
  panics blocks : Outcome A

unfoldable pub new_candidates : ℕ → Candidates
new_candidates max_in_flight = record {
  max_in_flight = max_in_flight;
  closing = false;
  quarantine = none;
  quarantined = [];
  delivered = [];
  runs = [];
  next_run = 0;
  idle = 0;
  next_channel = 1;
  closed = 0 ∷ [];
  pending = [];
  cancelled = [];
}

abbrev pub is_empty {ℓ} : {A : Type ℓ} → List A → Bool
is_empty [] = true
is_empty (x ∷ xs) = false

-- The channel of a tracker with no run is replaced by an open one.
abbrev pub reopen : Candidates → Candidates
reopen c =
    if is_empty c.runs
    then record c { idle = c.next_channel; next_channel = c.next_channel + 1 }
    else c

abbrev pub register : Candidates → Candidates
register c = record c { runs = c.next_run ∷ c.runs; next_run = c.next_run + 1 }

-- `admit`: the run, if one is admitted, and whether the limit was reached.
unfoldable pub admit : Candidates → Candidates × Option ℕ × Bool
admit c =
    if c.closing || is_some c.quarantine
    then (c, none, false)
    else if leb c.max_in_flight (length c.runs)
    then (c, none, true)
    else (register (reopen c), some c.next_run, false)

abbrev pub close_idle : Candidates → Outcome Candidates
close_idle c =
    if contains c.idle c.closed then panics else done (record c { closed = c.idle ∷ c.closed })

-- `Finish`.
unfoldable pub finish : Candidates → ℕ → Outcome Candidates
finish c run =
    let left = record c { runs = select (λ r. not (r == run)) c.runs } in
    if is_empty left.runs then close_idle left else done left

abbrev pub send : Candidates → Quarantine → Outcome Candidates
send c status =
    if is_empty c.quarantined then done (record c { quarantined = status ∷ [] }) else blocks

abbrev pub cancel_all : Outcome Candidates → Outcome Candidates
cancel_all (done c) = done (record c { pending = c.runs ++ c.pending })
cancel_all panics = panics
cancel_all blocks = blocks

-- `Quarantine`, at the time that `time.Now()` gives.
unfoldable pub quarantine : Candidates → QuarantineReason → ℕ → Outcome Candidates
quarantine c reason now =
    let status : Quarantine = record { reason = reason; since = now } in
    if is_some c.quarantine
    then done c
    else cancel_all (send (record c { quarantine = some status }) status)

abbrev pub over_capacity : QuarantineReason
over_capacity = record {
  kind = capacity;
  traffic = none;
  node = none;
  differences = [];
  truncated = false;
  detail = text "candidate concurrency limit exceeded";
}

-- `Start` with no other call between its two locks.
unfoldable pub start : Candidates → ℕ → Outcome Candidates × Option ℕ
unfolding admit
start c now =
    let (admitted, run, exceeded) = admit c in
    if exceeded then (quarantine admitted over_capacity now, run) else (done admitted, run)

-- `close`, which returns the channel that closes once the active runs have finished.
unfoldable pub close : Candidates → Candidates × ℕ
close c = (record c { closing = true; pending = c.runs ++ c.pending }, c.idle)

-- A cancellation that is due.
unfoldable pub cancel : Candidates → ℕ → Candidates
cancel c run = record c {
  pending = select (λ r. not (r == run)) c.pending;
  cancelled = run ∷ c.cancelled;
}

-- `<-Quarantined()`; none while nothing has been sent.
unfoldable pub receive : Candidates → Option (Quarantine × Candidates)
receive c = elim c.quarantined [
  | [] ↦ none
  | q ∷ rest ↦ some (q, record c { quarantined = rest; delivered = q ∷ c.delivered })
]
