-- ===== src/Proxy/Candidates/Invariant.antt =====
-- What holds of a tracker after any history.
use spectre.Prelude.{
  ℕ, ◌<◌, ◌≤◌, ◌≡◌, ◌≢◌, refl, Bool, true, false, not, ◌||◌, Option, none, some, List, [], ◌∷◌,
  ◌++◌, arith, nat_eq, ◌==◌, eq_iff, contains, contains-append, contains-select, select, length,
  length-select-le, is_some,
}
use spectre.Model.{Quarantine, QuarantineReason}
use spectre.Proxy.Candidates.{
  Candidates, Outcome, done, panics, blocks, new_candidates, admit, finish, quarantine, close,
  cancel, receive, is_empty,
}
use spectre.Proxy.Candidates.Steps.{
  Step, Reach, admits, finishes, quarantines, closes, cancels, receives, here, next,
}

abbrev pub to_list {ℓ} : {A : Type ℓ} → Option A → List A
to_list none = []
to_list (some a) = a ∷ []

pub record Inv (c : Candidates) : Type 0 where
  pub bounded : length c.runs ≤ c.max_in_flight
  -- The idle channel is closed exactly while no run is active.
  pub idle_closed : contains c.idle c.closed ≡ is_empty c.runs
  pub idle_fresh : c.idle < c.next_channel
  pub channels : (k : ℕ) → contains k c.closed ≡ true → k < c.next_channel
  -- The quarantine was sent once: it waits in the channel, or its consumer has it.
  pub sent_once : c.quarantined ++ c.delivered ≡ to_list c.quarantine
  -- Once work is refused, each active run is cancelled or about to be.
  pub stopped :
      (run : ℕ)
      → (c.closing || is_some c.quarantine) ≡ true
      → contains run c.runs ≡ true
      → contains run (c.pending ++ c.cancelled) ≡ true

pub new-Inv : (max_in_flight : ℕ) → Inv (new_candidates max_in_flight)
unfolding new_candidates
new-Inv m = record {
  bounded = omega arith;
  idle_closed = refl;
  idle_fresh = omega arith;
  channels = λ k h. ground arith;
  sent_once = refl;
  stopped = λ run h a. a;
}

admit-Inv : (c : Candidates) → Inv c → Inv (admit c).0
unfolding admit
admit-Inv c v = record {
  bounded = ground (arith, v.bounded);
  idle_closed = ground (arith, v.idle_closed, v.channels c.next_channel);
  idle_fresh = ground (arith, v.idle_fresh);
  channels = λ k h. ground (arith, v.channels k);
  sent_once = ground (arith, v.sent_once);
  stopped = λ run h a. ground (arith, v.stopped run);
}

select-empty : (p : ℕ → Bool) (run : ℕ) (xs : List ℕ) → contains run xs ≡ true → is_empty xs ≡ false
select-empty p run [] h = cc
select-empty p run (x ∷ xs) h = refl

finish-Inv :
    (c d : Candidates) (run : ℕ)
    → contains run c.runs ≡ true
    → Inv c
    → finish c run ≡ done d
    → Inv d
unfolding finish
finish-Inv c d run active v e = record {
  bounded = ground (arith, v.bounded, length-select-le (λ r. not (r == run)) c.runs);
  idle_closed = ground (arith, v.idle_closed, select-empty (λ r. not (r == run)) run c.runs active);
  idle_fresh = ground (arith, v.idle_fresh);
  channels = λ k h. ground (arith, v.channels k, v.idle_fresh);
  sent_once = ground (arith, v.sent_once);
  stopped = λ r h a. ground (arith, v.stopped r, contains-select (λ r. not (r == run)) r c.runs);
}

quarantine-Inv :
    (c d : Candidates) (reason : QuarantineReason) (now : ℕ)
    → Inv c
    → quarantine c reason now ≡ done d
    → Inv d
unfolding quarantine
quarantine-Inv c d reason now v e = record {
  bounded = ground (arith, v.bounded);
  idle_closed = ground (arith, v.idle_closed);
  idle_fresh = ground (arith, v.idle_fresh);
  channels = λ k h. ground (arith, v.channels k);
  sent_once = ground (arith, v.sent_once);
  stopped = λ r h a. ground (
    arith,
    v.stopped r,
    contains-append r c.runs c.pending,
    contains-append r (c.runs ++ c.pending) c.cancelled,
  );
}

pub close-Inv : (c : Candidates) → Inv c → Inv (close c).0
unfolding close
close-Inv c v = record {
  bounded = v.bounded;
  idle_closed = v.idle_closed;
  idle_fresh = v.idle_fresh;
  channels = v.channels;
  sent_once = v.sent_once;
  stopped = λ r h a. ground (
    arith,
    contains-append r c.runs c.pending,
    contains-append r (c.runs ++ c.pending) c.cancelled,
  );
}

cancel-Inv : (c : Candidates) (run : ℕ) → Inv c → Inv (cancel c run)
unfolding cancel
cancel-Inv c run v = record {
  bounded = v.bounded;
  idle_closed = v.idle_closed;
  idle_fresh = v.idle_fresh;
  channels = v.channels;
  sent_once = v.sent_once;
  stopped = λ r h a. ground (
    arith,
    v.stopped r h a,
    eq_iff run r,
    contains-append r c.pending c.cancelled,
    contains-select (λ r. not (r == run)) r c.pending,
    contains-append r (select (λ r. not (r == run)) c.pending) (run ∷ c.cancelled),
  );
}

take-delivered {ℓ} :
    {A : Type ℓ} (q : A) (rest taken : List A) (o : Option A)
    → (q ∷ rest) ++ taken ≡ to_list o
    → rest ++ (q ∷ taken) ≡ to_list o
take-delivered q [] taken o h = h
take-delivered q (r ∷ rest) taken none h = cc
take-delivered q (r ∷ rest) taken (some a) h = cc

receive-sent_once :
    (c d : Candidates) (q : Quarantine) (sent : List Quarantine)
    → c.quarantined ≡ sent
    → c.quarantined ++ c.delivered ≡ to_list c.quarantine
    → receive c ≡ some (q, d)
    → d.quarantined ++ d.delivered ≡ to_list d.quarantine
unfolding receive
receive-sent_once c d q [] s h e = ground arith
receive-sent_once c d q (x ∷ rest) s h e =
    ground (arith, take-delivered x rest c.delivered c.quarantine)

receive-Inv : (c d : Candidates) (q : Quarantine) → Inv c → receive c ≡ some (q, d) → Inv d
unfolding receive
receive-Inv c d q v e = record {
  bounded = ground (arith, v.bounded);
  idle_closed = ground (arith, v.idle_closed);
  idle_fresh = ground (arith, v.idle_fresh);
  channels = λ k h. ground (arith, v.channels k);
  sent_once = receive-sent_once c d q c.quarantined refl v.sent_once e;
  stopped = λ r h a. ground (arith, v.stopped r);
}

Step-Inv : {c d : Candidates} → Step c d → Inv c → Inv d
Step-Inv {c} (admits e) v = rw e (admit-Inv c v)
Step-Inv {c} {d} (finishes run a e) v = finish-Inv c d run a v e
Step-Inv {c} {d} (quarantines reason now e) v = quarantine-Inv c d reason now v e
Step-Inv {c} (closes e) v = rw e (close-Inv c v)
Step-Inv {c} (cancels run a e) v = rw e (cancel-Inv c run v)
Step-Inv {c} {d} (receives q e) v = receive-Inv c d q v e

-- Any history of calls, from any number of goroutines, keeps the invariant `Inv`: at most the
-- configured number of runs are active, the idle channel is closed exactly while none is active, its
-- number and those of the closed channels are used, the quarantine has been sent once if there is
-- one, and each run that is active after a quarantine or a shutdown is cancelled or about to be.
pub Reach-Inv : {c d : Candidates} → Reach c d → Inv c → Inv d
Reach-Inv here v = v
Reach-Inv (next r s) v = Step-Inv s (Reach-Inv r v)

Outcome-cases {ℓ} : {A : Type ℓ} (o : Outcome A) → o ≢ panics → o ≢ blocks → (a : A) × (o ≡ done a)
Outcome-cases (done a) p b = (a, refl)
Outcome-cases panics p b = absurd (p refl)
Outcome-cases blocks p b = absurd (b refl)

-- Where the invariant holds, `Quarantine` neither panics nor blocks, since its channel has room, and
-- neither does `Finish` of an active run, since the idle channel is still open.
pub Inv-total :
    (c : Candidates) (reason : QuarantineReason) (now run : ℕ)
    → Inv c
    → ((d : Candidates) × (quarantine c reason now ≡ done d))
      × (contains run c.runs ≡ true → (d : Candidates) × (finish c run ≡ done d))
unfolding quarantine finish
Inv-total c reason now run v = (
  Outcome-cases (quarantine c reason now) (λ h. ground (arith, v.sent_once))
      (λ h. ground (arith, v.sent_once)),
  λ a.
      Outcome-cases (finish c run)
        (λ h. ground (arith, v.idle_closed, select-empty (λ r. not (r == run)) run c.runs a))
        (λ h. ground (arith, v.idle_closed)),
)
