-- ===== src/Proxy/Candidates/Shutdown.antt =====
-- What a quarantine and a shutdown promise of every later call.
use spectre.Prelude.{
  ℕ, ◌≡◌, refl, ◌∙◌, Bool, true, false, not, ◌||◌, none, some, [], ◌∷◌, ◌++◌, length, ◌≤◌, ◌<◌, ◌↔◌,
  arith, nat_eq, ◌==◌, contains, contains-select, is_some,
}
use spectre.Model.{Quarantine}
use spectre.Proxy.Candidates.{
  Candidates, done, admit, finish, quarantine, close, cancel, receive, start, over_capacity,
}
use spectre.Proxy.Candidates.Steps.{
  Step, Reach, admits, finishes, quarantines, closes, cancels, receives, here, next,
}
use spectre.Proxy.Candidates.Invariant.{Inv, Reach-Inv, close-Inv}

-- The tracker refuses work.
abbrev pub refuses : Candidates → Bool
refuses c = c.closing || is_some c.quarantine

-- What one call leaves as it is, once work is refused.
record Kept (c d : Candidates) : Type 0 where
  refused : refuses d ≡ true
  same_idle : d.idle ≡ c.idle
  no_more : (run : ℕ) → contains run d.runs ≡ true → contains run c.runs ≡ true

Step-Kept : {c d : Candidates} → Step c d → refuses c ≡ true → Kept c d
unfolding admit finish quarantine close cancel receive
Step-Kept {c} {d} (admits e) h = record {
  refused = ground arith;
  same_idle = ground arith;
  no_more = λ r a. ground arith;
}
Step-Kept {c} {d} (finishes run a e) h = record {
  refused = ground arith;
  same_idle = ground arith;
  no_more = λ r b. ground (arith, contains-select (λ x. not (x == run)) r c.runs);
}
Step-Kept {c} {d} (quarantines reason now e) h = record {
  refused = ground arith;
  same_idle = ground arith;
  no_more = λ r a. ground arith;
}
Step-Kept {c} {d} (closes e) h = record {
  refused = ground arith;
  same_idle = ground arith;
  no_more = λ r a. ground arith;
}
Step-Kept {c} {d} (cancels run a e) h = record {
  refused = ground arith;
  same_idle = ground arith;
  no_more = λ r a. ground arith;
}
Step-Kept {c} {d} (receives q e) h = record {
  refused = ground arith;
  same_idle = ground arith;
  no_more = λ r a. ground arith;
}

Reach-Kept : {c d : Candidates} → refuses c ≡ true → Reach c d → Kept c d
Reach-Kept h here = record { refused = h; same_idle = refl; no_more = λ r a. a }
Reach-Kept h (next r s) =
    let k = Reach-Kept h r in
    let l = Step-Kept s k.refused in
    record {
      refused = l.refused;
      same_idle = l.same_idle ∙ k.same_idle;
      no_more = λ x a. k.no_more x (l.no_more x a);
    }

-- Once the tracker refuses work, because of a quarantine or a shutdown, it does so after any later
-- calls: each run that is active then was active before, and `admit` admits none.
pub refuses_forever :
    {c d : Candidates} (run : ℕ)
    → refuses c ≡ true
    → Reach c d
    → (refuses d ≡ true)
      × (contains run d.runs ≡ true → contains run c.runs ≡ true)
      × ((admit d).1 ≡ none)
unfolding admit
refuses_forever {c} {d} run h r =
    let k = Reach-Kept h r in (k.refused, k.no_more run, ground (arith, k.refused))

Step-keeps_reason :
    {c d : Candidates} {q : Quarantine} → Step c d → c.quarantine ≡ some q → d.quarantine ≡ some q
unfolding admit finish quarantine close cancel receive
Step-keeps_reason (admits e) h = ground arith
Step-keeps_reason (finishes run a e) h = ground arith
Step-keeps_reason (quarantines reason now e) h = ground arith
Step-keeps_reason (closes e) h = ground arith
Step-keeps_reason (cancels run a e) h = ground arith
Step-keeps_reason (receives q e) h = ground arith

-- Only the first reason is kept: no later calls replace or lift the quarantine in effect.
pub keeps_first_reason :
    {c d : Candidates} {q : Quarantine} → c.quarantine ≡ some q → Reach c d → d.quarantine ≡ some q
keeps_first_reason h here = h
keeps_first_reason h (next r s) = Step-keeps_reason s (keeps_first_reason h r)

-- `Shutdown` waits for the channel that `close` returns. After any calls that follow a `close` of a
-- tracker that satisfies the invariant, that channel is closed exactly if no run is active, so the
-- wait ends once the runs have finished, and not before.
pub close_waits :
    {c d : Candidates}
    → Inv c
    → Reach (close c).0 d
    → (contains (close c).1 d.closed ≡ true) ↔ (d.runs ≡ [])
unfolding close
close_waits {c} {d} v r =
    let w = Reach-Inv r (close-Inv c v) in
    let k = Reach-Kept refl r in
    (
      λ h. ground (arith, w.idle_closed, k.same_idle),
      λ h. ground (arith, w.idle_closed, k.same_idle),
    )

-- `Start`, where the invariant holds: a tracker that refuses work stays as it is and admits nothing;
-- at the limit nothing is admitted and the candidate is quarantined for its capacity, with the
-- cancellation of every active run due; below the limit a new run is admitted and joins the active
-- ones, and the idle channel is open.
pub start_lem :
    (c : Candidates) (now : ℕ)
    → Inv c
    → (refuses c ≡ true → start c now ≡ (done c, none))
      × (refuses c ≡ false
          → c.max_in_flight ≤ length c.runs
          → start c now ≡ (
            done (record c {
              quarantine = some (record { reason = over_capacity; since = now });
              quarantined = record { reason = over_capacity; since = now } ∷ [];
              pending = c.runs ++ c.pending;
            }),
            none,
          ))
      × (refuses c ≡ false
          → length c.runs < c.max_in_flight
          → (start c now ≡ (done (admit c).0, some c.next_run))
            × ((admit c).0.runs ≡ c.next_run ∷ c.runs)
            × (contains (admit c).0.idle (admit c).0.closed ≡ false))
unfolding start quarantine
start_lem c now v = (
  λ h. ground arith,
  λ h full. ground (arith, v.sent_once),
  λ h room. (ground arith, ground arith, ground (arith, v.idle_closed, v.channels c.next_channel)),
)
