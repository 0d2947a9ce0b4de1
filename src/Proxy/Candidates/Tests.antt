-- ===== src/Proxy/Candidates/Tests.antt =====
-- A tracker that admits one run at a time, quarantined and shut down.
use spectre.Prelude.{◌≡◌, ◌↔◌, refl, true, false, none, some, [], ◌∷◌, nat_eq, contains, text}
use spectre.Model.{QuarantineReason, unable}
use spectre.Proxy.Candidates.{
  Candidates, done, new_candidates, admit, finish, quarantine, close, cancel, receive, start,
}
use spectre.Proxy.Candidates.Steps.{Reach, admits, finishes, quarantines, here, next}
use spectre.Proxy.Candidates.Invariant.{Inv, new-Inv, Reach-Inv, Inv-total}
use spectre.Proxy.Candidates.Shutdown.{refuses, refuses_forever, close_waits}

abbrev gap : QuarantineReason
gap = record {
  kind = unable;
  traffic = none;
  node = none;
  differences = [];
  truncated = false;
  detail = text "schema gap";
}

program : Unit {0}
unfolding new_candidates admit finish quarantine close cancel receive start
program = tt

one : Candidates
unfolding program
one = (admit (new_candidates 1)).0

one-Reach : Reach (new_candidates 1) one
unfolding one
one-Reach = next here (admits refl)

one-Inv : Inv one
one-Inv = Reach-Inv one-Reach (new-Inv 1)

stopped : Candidates
unfolding one
stopped = record one {
  quarantine = some (record { reason = gap; since = 7 });
  quarantined = record { reason = gap; since = 7 } ∷ [];
  pending = 0 ∷ [];
}

stopped-Reach : Reach (new_candidates 1) stopped
unfolding stopped one
stopped-Reach = next one-Reach (quarantines gap 7 refl)

drained : Candidates
unfolding stopped
drained = record stopped { runs = []; closed = 1 ∷ 0 ∷ [] }

drained-Reach : Reach stopped drained
unfolding drained program
drained-Reach = next here (finishes 0 refl refl)

finishing : Candidates
unfolding one
finishing = record one { closing = true; pending = 0 ∷ []; runs = []; closed = 1 ∷ 0 ∷ [] }

finishing-Reach : Reach (close one).0 finishing
unfolding finishing program
finishing-Reach = next here (finishes 0 refl refl)

-- The second start is refused for the capacity, and quarantines.
start_at_limit : (start one 9).1 ≡ none
unfolding one
start_at_limit = refl

Reach-Inv_example : Inv stopped
Reach-Inv_example = Reach-Inv stopped-Reach (new-Inv 1)

Inv-total_example :
    ((d : Candidates) × (quarantine one gap 7 ≡ done d))
    × (contains 0 one.runs ≡ true → (d : Candidates) × (finish one 0 ≡ done d))
Inv-total_example = Inv-total one gap 7 0 one-Inv

refuses_forever_example :
    (refuses drained ≡ true)
    × (contains 0 drained.runs ≡ true → contains 0 stopped.runs ≡ true)
    × ((admit drained).1 ≡ none)
unfolding stopped
refuses_forever_example = refuses_forever 0 refl drained-Reach

close_waits_example : (contains (close one).1 finishing.closed ≡ true) ↔ (finishing.runs ≡ [])
close_waits_example = close_waits one-Inv finishing-Reach
