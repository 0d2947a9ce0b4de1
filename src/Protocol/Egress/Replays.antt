-- ===== src/Protocol/Egress/Replays.antt =====
-- internal/protocol/egress.go: what candidates get, whatever interleaves.
use mathlib.Core.Path.{subst}
use spectre.Prelude.{
  ℕ, zero, suc, ◌≤◌, ◌≡◌, ◌↔◌, refl, true, false, Option, none, some, List, [], ◌∷◌, All, Text,
  nat_eq, text_eq, length, get_elem?, arith, ap, sym, ◌∙◌, eq_refl, ltb, ok,
}
use spectre.Future.{value_set, set_future}
use spectre.Protocol.Arrivals.{IsInOrder}
use spectre.Protocol.Queues.{occurs, Hash, queued, queued-set_queue}
use spectre.Protocol.Exchanges.{Raw, EgressOutcome, EgressExchange, response_from, finish}
use spectre.Protocol.Egress.{
  EgressQueue, Reference, EgressWaiter, claim, wait, wait_result, finish_at, modify,
}
use spectre.Protocol.Egress.Steps.{System, Reach}
use spectre.Protocol.Egress.Inversions.{arrived, claim_inversion}
use spectre.Protocol.Egress.Places.{valued, occurs-get}
use spectre.Protocol.Egress.Interleaved.{Reach-IsPaired}
use spectre.Protocol.Egress.References.{has_number, abandoned_flag}
use spectre.Protocol.Egress.Claims.{Reach-Counts}
use spectre.Protocol.Egress.Released.{IsReleased}
use spectre.Protocol.Egress.Outcomes.{
  finishing_has, counted, finished_flag, finishing_one, finish-outcome,
}
use spectre.Protocol.Egress.Recorded.{Reach-IsRecorded}
use spectre.Protocol.Egress.Reported.{Reach-IsReported}
use spectre.Protocol.Egress.Reports.{reports}

-- An element of a list of which all satisfy a predicate.
at_index {ℓ} :
    {A : Type ℓ} (P : A → Type 0) (xs : List A) (i : ℕ) (x : A)
    → get_elem? xs i ≡ some x
    → All P xs
    → P x
at_index P [] i x e h = cc
at_index P (y ∷ ys) zero x e h = let same : y ≡ x = cc in subst P same h.0
at_index P (y ∷ ys) (suc i) x e h = at_index P ys i x e h.1

not_abandoned :
    (s : System) (i : ℕ) (pending : Reference) (e : EgressExchange)
    → Reach s
    → get_elem? s.waits i ≡ some pending
    → get_elem? s.queue.references pending.pointer ≡ some e
    → e.abandoned ≡ false
not_abandoned s i pending e r at cell =
    let once = occurs-get (has_number pending.pointer) pending s.waits i at in
    let flag = ap (valued abandoned_flag) cell in
    let (placed, claimed, living) = Reach-Counts pending.pointer s r in
    ground (arith, eq_refl pending.pointer)

unreleased : (e : EgressExchange) → IsReleased e → e.abandoned ≡ false → e.releases ≡ 0
unreleased e h a = ground arith

raw_of :
    (raw : Option Raw) (failure : Option Text) (r : Raw)
    → (response_from raw failure ≡ ok r) ↔ ((raw ≡ some r) × (failure ≡ none))
raw_of raw (some f) r = (λ e. cc, λ (e, g). cc)
raw_of (some x) none r = (λ e. (cc, refl), λ (e, g). cc)
raw_of none none r = (λ e. cc, λ (e, g). cc)

-- Whatever interleaves, a candidate that waits for a reference whose outcome is recorded gets what the
-- server reported for that reference: among all that was reported, just one outcome is of the reference,
-- and the candidate gets a response to replay exactly if it is the response of that outcome, which has
-- no failure. The engine has not released the response.
pub wait-Replays :
    (s : System) (i : ℕ) (pending : Reference) (e : EgressExchange) (outcome : EgressOutcome)
    (history : Reach s)
    → get_elem? s.waits i ≡ some pending
    → get_elem? s.queue.references pending.pointer ≡ some e
    → e.outcome ≡ some outcome
    → (j : ℕ) × (reference : Reference) × (reported : EgressOutcome) × (get_elem?
          (reports history)
          j
        ≡ some (reference, reported))
      × (reference.pointer ≡ pending.pointer)
      × (occurs (finishing_has pending.pointer) (reports history) ≡ 1)
      × ((raw : Raw)
          → ((wait s.queue pending (value_set outcome)).1 ≡ ok raw)
            ↔ ((reported.raw ≡ some raw) × (reported.failure ≡ none)))
      × (e.releases ≡ 0)
unfolding wait wait_result
wait-Replays s i pending e outcome r at cell set =
    let released =
      at_index IsReleased s.queue.references pending.pointer e cell (Reach-IsRecorded s r).0 in
    let (are, on_the_way, counts) = Reach-IsReported r in
    let (j, reference, told, here) = are pending.pointer e outcome cell set in
    let flag : valued finished_flag (get_elem? s.queue.references pending.pointer) ≡ 1 =
      ap (valued finished_flag) cell ∙ ap counted set in
    let once : occurs (finishing_has pending.pointer) (reports r) ≡ 1 =
      ground (arith, flag, counts pending.pointer, (Reach-IsRecorded s r).1.1 pending.pointer) in
    (
      j,
      reference,
      outcome,
      told,
      here,
      once,
      λ raw. raw_of outcome.raw outcome.failure raw,
      unreleased e released (not_abandoned s i pending e r at cell),
    )

first_set :
    (o : Option EgressOutcome) (outcome : EgressOutcome)
    → counted o ≡ 0
    → (set_future o outcome).0 ≡ some outcome
first_set none outcome h = refl
first_set (some x) outcome h = absurd (omega arith)

recorded_at :
    (outcome : EgressOutcome) (references : List EgressExchange) (i : ℕ)
    → ltb i (length references) ≡ true
    → valued finished_flag (get_elem? references i) ≡ 0
    → (e : EgressExchange) × (get_elem? (modify (finish outcome) references i) i ≡ some e)
      × (e.outcome ≡ some outcome)
recorded_at outcome [] i lt h = absurd (ground arith)
recorded_at outcome (x ∷ xs) zero lt h =
    (finish outcome x, refl, finish-outcome outcome x ∙ first_set x.outcome outcome h)
recorded_at outcome (x ∷ xs) (suc i) lt h = recorded_at outcome xs i (ground arith) h

-- Whatever interleaves, an outcome that the server reported is the one that is recorded: none comes
-- before it.
pub finish-Records :
    (s : System) (i : ℕ) (pending : Reference) (outcome : EgressOutcome)
    → Reach s
    → get_elem? s.finishing i ≡ some (pending, outcome)
    → (e : EgressExchange) × (get_elem?
          (finish_at s.queue pending outcome).references
          pending.pointer
        ≡ some e)
      × (e.outcome ≡ some outcome)
unfolding finish_at
finish-Records s i pending outcome r at =
    let (lt, unset) =
      finishing_one i pending outcome s.queue s.finishing at (Reach-IsRecorded s r).1 in
    recorded_at outcome s.queue.references pending.pointer lt unset

-- Whatever interleaves, the reference that a candidate claims arrived no later than any other unused
-- one of its hash.
pub claim-IsEarliest :
    (s : System) (hash : Hash) (w : EgressWaiter) (pending : Reference) (q : EgressQueue)
    → Reach s
    → claim s.queue hash w ≡ (q, some pending)
    → All (λ (r : Reference). pending.arrival ≤ r.arrival) (queued hash q.unused)
claim-IsEarliest s hash w pending q r e =
    let (others, first, same) = claim_inversion s.queue q hash w pending e in
    let left : queued hash q.unused ≡ others =
      ap (λ q. queued hash q.unused) same
      ∙ (queued-set_queue hash hash others s.queue.unused ∙ rw (eq_refl hash) refl) in
    subst (All (λ (r : Reference). pending.arrival ≤ r.arrival)) (sym left)
      (subst (IsInOrder arrived) first ((Reach-IsPaired s r).0.2 hash)).0
