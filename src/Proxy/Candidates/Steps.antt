-- ===== src/Proxy/Candidates/Steps.antt =====
-- The calls on one tracker, in any order and from any number of goroutines.
use spectre.Prelude.{ℕ, true, ◌≡◌, some, nat_eq, contains}
use spectre.Model.{Quarantine, QuarantineReason}
use spectre.Proxy.Candidates.{Candidates, done, admit, finish, quarantine, close, cancel, receive}

-- A run is finished only while it is active.
pub data Step (c d : Candidates) : Type 0 where
  admits : d ≡ (admit c).0 → Step c d
  finishes : (run : ℕ) → contains run c.runs ≡ true → finish c run ≡ done d → Step c d
  quarantines : (reason : QuarantineReason) (now : ℕ) → quarantine c reason now ≡ done d → Step c d
  closes : d ≡ (close c).0 → Step c d
  cancels : (run : ℕ) → contains run c.pending ≡ true → d ≡ cancel c run → Step c d
  receives : (q : Quarantine) → receive c ≡ some (q, d) → Step c d

pub data Reach (c : Candidates) : Candidates → Type 0 where
  here : Reach c c
  next : {d e : Candidates} → Reach c d → Step d e → Reach c e
