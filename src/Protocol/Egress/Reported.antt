-- ===== src/Protocol/Egress/Reported.antt =====
-- internal/protocol/egress.go: each outcome that is recorded or on the way was reported, whatever
-- interleaves.
use mathlib.Core.Path.{subst}
use spectre.Prelude.{
  ℕ, ◌≡◌, refl, sym, ap, ◌∙◌, none, some, List, ◌∷◌, ◌++◌, arith, nat_eq, text_eq, get_elem?,
  remove_at, inl, inr,
}
use spectre.Protocol.Queues.{Hash, occurs-remove_at}
use spectre.Protocol.Exchanges.{
  EgressOutcome, EgressExchange, new_egress_exchange, abandon, finish, expire_after, stop_expiry,
}
use spectre.Protocol.Egress.{
  Exchange, EgressQueue, Reference, EgressWaiter, new_egress_queue, modify, forward, start_hashing,
  add, claim, abandon_at, finish_at, arrive, new_egress_waiter, wait, wait_result,
}
use spectre.Protocol.Egress.Steps.{
  System, new_system, Step, forwards, hashes, hash_fails, hash_ends, arrives, unidentified,
  claims_one, queues, receives, gives_up, expires, abandons, takes, finishes, waits_out,
  stops_waiting, Reach, starts, continues,
}
use spectre.Protocol.Egress.Inversions.{
  add_inversion, claim_inversion, queues_inversion, receive_inversion, expire_inversion,
  give_up_inversion, take_inversion, finish_inversion,
}
use spectre.Protocol.Egress.Places.{valued-modify, valued-last, valued-long}
use spectre.Protocol.Egress.Outcomes.{
  Outcomes, finishing_has, finished_flag, finish-outcome, finished-finish, finishing_one,
}
use spectre.Protocol.Egress.Recorded.{SystemIsRecorded, Reach-IsRecorded}
use spectre.Protocol.Egress.Reports.{
  told, reports, WasReported, IsOnItsWay, Reported, All-at, All-remove_at, All-weaken,
  later-WasReported, modified, last_or, set_or_before, abandon-outcome, abandon-flag,
}

module _ (finishing reported : List (Reference × EgressOutcome)) where
  -- A change that leaves the outcome.
  kept :
      (q : EgressQueue) (f : EgressExchange → EgressExchange) (i : ℕ)
      → ((e : EgressExchange) → (f e).outcome ≡ e.outcome)
      → ((e : EgressExchange) → finished_flag (f e) ≡ finished_flag e)
      → Reported q finishing reported
      → Reported (record q { references = modify f q.references i }) finishing reported
  kept q f i same flags (are, on_the_way, counts) = (
    λ p e o at is. elim (modified f q.references i p e at) [
      | inl there ↦ are p e o there is
      | inr (here, x, there, changed) ↦
          are p x o there (sym (same x) ∙ (ap (λ (e : EgressExchange). e.outcome) changed ∙ is))
    ],
    on_the_way,
    λ p. ground (arith, counts p, valued-modify finished_flag f q.references i p flags),
  )

  abandon_reports :
      (q : EgressQueue) (pending : Reference)
      → Reported q finishing reported
      → Reported (abandon_at q pending) finishing reported
  unfolding abandon_at
  abandon_reports q pending h = kept q abandon pending.pointer abandon-outcome abandon-flag h

  add_reports :
      (q r : EgressQueue) (hash : Hash) (pending : Reference)
      → add q hash pending ≡ some r
      → Reported q finishing reported
      → Reported r finishing reported
  add_reports q r hash pending e h = elim (add_inversion q r hash pending e) [
    | inl (none_wait, same) ↦
        subst (λ r. Reported r finishing reported) (sym same)
          (kept q (expire_after hash) pending.pointer (λ e. refl) (λ e. refl) h)
    | inr (w, ws, first, empty, same) ↦ subst (λ r. Reported r finishing reported) (sym same) h
  ]

  claim_reports :
      (q r : EgressQueue) (hash : Hash) (w : EgressWaiter) (pending : Reference)
      → claim q hash w ≡ (r, some pending)
      → Reported q finishing reported
      → Reported r finishing reported
  claim_reports q r hash w pending e h =
      let (others, first, same) = claim_inversion q r hash w pending e in
      subst (λ r. Reported r finishing reported) (sym same)
        (kept q stop_expiry pending.pointer (λ e. refl) (λ e. refl) h)

  forward_reports :
      (q : EgressQueue) (exchange : Exchange)
      → Reported q finishing reported
      → Reported (forward q exchange).0 finishing reported
  unfolding forward start_hashing new_egress_exchange
  forward_reports q exchange (are, on_the_way, counts) = (
    λ p e o at is. elim (last_or q.references new_egress_exchange p e at) [
      | inl there ↦ are p e o there is
      | inr new ↦
          let unset : none ≡ some o = ap (λ (e : EgressExchange). e.outcome) new ∙ is in absurd (cc)
    ],
    on_the_way,
    λ p. ground (
      arith,
      counts p,
      valued-last finished_flag q.references new_egress_exchange p,
      valued-long finished_flag q.references p,
    ),
  )

  finish_reports :
      (s : System) (i : ℕ) (pending : Reference) (outcome : EgressOutcome)
      → s.finishing ≡ finishing
      → get_elem? finishing i ≡ some (pending, outcome)
      → SystemIsRecorded s
      → Reported s.queue finishing reported
      → Reported (finish_at s.queue pending outcome) (remove_at finishing i) reported
  unfolding finish_at
  finish_reports s i pending outcome is_finishing at recorded (are, on_the_way, counts) =
      let outcomes = subst (λ f. Outcomes s.queue f) is_finishing recorded.1 in
      let (lt, unset) = finishing_one i pending outcome s.queue finishing at outcomes in
      let told_before : WasReported reported pending.pointer outcome =
        All-at (IsOnItsWay reported) finishing i (pending, outcome) at on_the_way in
      (
        λ p e o there is.
            elim (modified (finish outcome) s.queue.references pending.pointer p e there) [
              | inl before ↦ are p e o before is
              | inr (here, x, before, changed) ↦
                  elim (set_or_before x.outcome outcome o (
                    sym (finish-outcome outcome x)
                    ∙ (ap (λ (e : EgressExchange). e.outcome) changed ∙ is))) [
                      | inl was ↦ are p x o before was
                      | inr same ↦
                          subst (λ o. WasReported reported p o) same
                            (subst (λ p. WasReported reported p outcome) here told_before)
                    ]
            ],
        All-remove_at (IsOnItsWay reported) finishing i on_the_way,
        λ p. ground (
          arith,
          counts p,
          finished-finish outcome s.queue.references pending.pointer p lt unset,
          occurs-remove_at (finishing_has p) (pending, outcome) i finishing at,
        ),
      )

abbrev pub SystemIsReported : System → List (Reference × EgressOutcome) → Type 0
SystemIsReported s reported = Reported s.queue s.finishing reported

step-IsReported :
    {s t : System} (reported : List (Reference × EgressOutcome)) (step : Step s t)
    → SystemIsRecorded s
    → SystemIsReported s reported
    → SystemIsReported t (told step ++ reported)
unfolding told arrive new_egress_waiter wait wait_result
step-IsReported {s} reported (forwards exchange fresh) c h =
    forward_reports s.finishing reported s.queue exchange h
step-IsReported {s} reported (hashes i pending hash q at e) c h =
    add_reports s.finishing reported s.queue q hash pending e h
step-IsReported {s} reported (hash_fails i pending at) c h =
    abandon_reports s.finishing reported s.queue pending h
step-IsReported {s} reported (hash_ends n q l e) c h =
    let (m, closed, same) = finish_inversion s.queue q e in
    subst (λ r. Reported r s.finishing reported) (sym same) h
step-IsReported {s} reported (arrives w q e) c h =
    subst (λ r. Reported r.0 s.finishing reported) e h
step-IsReported reported (unidentified i) c h = h
step-IsReported {s} reported (claims_one i w hash pending q at e) c h =
    claim_reports s.finishing reported s.queue q hash w pending e h
step-IsReported {s} reported (queues i w hash q at e) c h =
    let (none_unused, same) = queues_inversion s.queue q hash w e in
    subst (λ r. Reported r s.finishing reported) (sym same) h
step-IsReported {s} reported (receives w pending q e) c h =
    let (full, same) = receive_inversion s.queue q w pending e in
    subst (λ r. Reported r s.finishing reported) (sym same) h
step-IsReported {s} reported (gives_up w hash) c h = elim (give_up_inversion s.queue hash w) [
  | inl (none_left, same) ↦ subst (λ r. Reported r.0 s.finishing reported) (sym same) h
  | inr (i, found, same) ↦ subst (λ r. Reported r.0 s.finishing reported) (sym same) h
]
step-IsReported {s} reported (expires hash pending q e) c h =
    let (i, found, same) = expire_inversion s.queue q hash pending e in
    subst (λ r. Reported r s.finishing reported) (sym same) h
step-IsReported {s} reported (abandons i pending at) c h =
    abandon_reports s.finishing reported s.queue pending h
step-IsReported {s} reported (takes exchange pending outcome q e) c (are, on_the_way, counts) =
    let (found, same) = take_inversion s.queue q exchange pending e in
    let x : Reference × EgressOutcome = (pending, outcome) in
    subst (λ r. Reported r (x ∷ s.finishing) (x ∷ reported)) (sym same)
      (
        λ p e o at is. later-WasReported x reported p o (are p e o at is),
        (
          (0, pending, refl, refl),
          All-weaken (IsOnItsWay reported) (IsOnItsWay (x ∷ reported)) s.finishing
              (λ f told_of. later-WasReported x reported f.0.pointer f.1 told_of) on_the_way,
        ),
        λ p. ground (arith, counts p),
      )
step-IsReported {s} reported (finishes i pending outcome at) c h =
    finish_reports s.finishing reported s i pending outcome refl at c h
step-IsReported reported (waits_out i pending e outcome at cell set) c h = h
step-IsReported {s} reported (stops_waiting i pending reason at) c h =
    abandon_reports s.finishing reported s.queue pending h

pub Reach-IsReported : {s : System} (r : Reach s) → SystemIsReported s (reports r)
unfolding reports new_system new_egress_queue
Reach-IsReported starts = (λ p e o at is. cc, tt, λ p. ground arith)
Reach-IsReported (continues s t before step) =
    step-IsReported (reports before) step (Reach-IsRecorded s before) (Reach-IsReported before)
