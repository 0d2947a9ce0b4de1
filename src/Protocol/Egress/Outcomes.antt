-- ===== src/Protocol/Egress/Outcomes.antt =====
-- internal/protocol/egress.go: each outcome is recorded, and each response released when it should be.
use spectre.Prelude.{
  ℕ, zero, suc, ◌+◌, ◌≡◌, refl, Bool, true, false, Option, none, some, List, [], ◌∷◌, length-append,
  All, nat_eq, text_eq, length, get_elem?, remove_at, arith, if◌then◌else◌, ap, ◌∙◌, ◌==◌, eq_iff,
  eq_refl, ltb, is_some,
}
use spectre.Prelude.Assoc.{lookup, insert, remove, IsMap, insert-IsMap, remove-IsMap, remove-absent}
use spectre.Future.{set_future}
use spectre.Protocol.Queues.{occurs, occurs-remove_at}
use spectre.Protocol.Exchanges.{
  EgressOutcome, EgressExchange, new_egress_exchange, release, abandon, finish,
}
use spectre.Protocol.Egress.{
  Exchange, EgressQueue, Reference, modify, next_reference, forward, start_hashing, abandon_at,
  finish_at,
}
use spectre.Protocol.Egress.Places.{
  valued, length-modify, valued-modify, valued-last, valued-long, occurs-get,
}
use spectre.Protocol.Egress.Released.{IsReleased, release_lem}

pub All-modify {ℓ} :
    {A : Type ℓ} (P : A → Type 0) (f : A → A) (xs : List A) (i : ℕ)
    → ((a : A) → P a → P (f a))
    → All P xs
    → All P (modify f xs i)
All-modify P f [] i keeps h = tt
All-modify P f (x ∷ xs) zero keeps (hx, hs) = (keeps x hx, hs)
All-modify P f (x ∷ xs) (suc i) keeps (hx, hs) = (hx, All-modify P f xs i keeps hs)

abbrev pub AreReleased : EgressQueue → Type 0
AreReleased q = All IsReleased q.references

abbrev pub entry_has : ℕ → Exchange × Reference → Bool
entry_has p e = e.1.pointer == p

abbrev pub finishing_has : ℕ → Reference × EgressOutcome → Bool
finishing_has p f = f.0.pointer == p

abbrev pub counted : Option EgressOutcome → ℕ
counted o = if is_some o then 1 else 0

abbrev pub finished_flag : EgressExchange → ℕ
finished_flag e = counted e.outcome

-- How often a reference still waits for its outcome, or has it.
abbrev pub outcomes : ℕ → EgressQueue → List (Reference × EgressOutcome) → ℕ
outcomes p q finishing =
    occurs (entry_has p) q.exchanges
    + occurs (finishing_has p) finishing
    + valued finished_flag (get_elem? q.references p)

-- Each reference is under its exchange, or its outcome is on the way, or the outcome is recorded.
abbrev pub Outcomes : EgressQueue → List (Reference × EgressOutcome) → Type 0
Outcomes q finishing =
    IsMap q.exchanges
    × ((p : ℕ) → outcomes p q finishing ≡ (if ltb p (length q.references) then 1 else 0))

occurs-insert_new :
    (p : ℕ) (exchange : Exchange) (r : Reference) (m : List (Exchange × Reference))
    → lookup exchange m ≡ none
    → occurs (entry_has p) (insert exchange r m)
      ≡ occurs (entry_has p) m + (if r.pointer == p then 1 else 0)
unfolding lookup insert
occurs-insert_new p exchange r [] e = omega arith
occurs-insert_new p exchange r ((x, s) ∷ m) e =
    ground (arith, eq_iff x exchange, occurs-insert_new p exchange r m)

occurs-remove_found :
    (p : ℕ) (exchange : Exchange) (r : Reference) (m : List (Exchange × Reference))
    → IsMap m
    → lookup exchange m ≡ some r
    → (if r.pointer == p then 1 else 0) + occurs (entry_has p) (remove exchange m)
      ≡ occurs (entry_has p) m
unfolding lookup remove
occurs-remove_found p exchange r [] h e = cc
occurs-remove_found p exchange r ((x, s) ∷ m) h e =
    ground
      (arith, eq_iff x exchange, remove-absent exchange m, occurs-remove_found p exchange r m h.1)

release-finished : (e : EgressExchange) → finished_flag (release e) ≡ finished_flag e
release-finished e = ap counted (release_lem e).0

abandon-finished : (e : EgressExchange) → finished_flag (abandon e) ≡ finished_flag e
unfolding abandon
abandon-finished e = release-finished (record e { abandoned = true })

-- The outcome of a finished exchange is one, whether it had one or not.
pub finish-outcome :
    (outcome : EgressOutcome) (e : EgressExchange)
    → (finish outcome e).outcome ≡ (set_future e.outcome outcome).0
unfolding finish
finish-outcome outcome e =
    go e.abandoned (release_lem (record e { outcome = (set_future e.outcome outcome).0 })).0
  where
    set : EgressExchange
    set = record e { outcome = (set_future e.outcome outcome).0 }

    go :
        (b : Bool)
        → (release set).outcome ≡ set.outcome
        → (if b then release set else set).outcome ≡ (set_future e.outcome outcome).0
    go true h = h
    go false h = refl

one_finished :
    (outcome : EgressOutcome) (e : EgressExchange)
    → finished_flag e ≡ 0
    → finished_flag (finish outcome e) ≡ 1
one_finished outcome e h = ap counted (finish-outcome outcome e) ∙ first e.outcome h
  where
    first : (o : Option EgressOutcome) → counted o ≡ 0 → counted (set_future o outcome).0 ≡ 1
    first none h = refl
    first (some x) h = refl

pub finished-finish :
    (outcome : EgressOutcome) (references : List EgressExchange) (i p : ℕ)
    → ltb i (length references) ≡ true
    → valued finished_flag (get_elem? references i) ≡ 0
    → valued finished_flag (get_elem? (modify (finish outcome) references i) p)
      ≡ valued finished_flag (get_elem? references p) + (if i == p then 1 else 0)
finished-finish outcome [] i p lt e = absurd (ground arith)
finished-finish outcome (x ∷ xs) zero zero lt e = ground (arith, one_finished outcome x e)
finished-finish outcome (x ∷ xs) zero (suc p) lt e = ground arith
finished-finish outcome (x ∷ xs) (suc i) zero lt e = ground arith
finished-finish outcome (x ∷ xs) (suc i) (suc p) lt e =
    ground (arith, finished-finish outcome xs i p)

pub finishing_one :
    (i : ℕ) (pending : Reference) (outcome : EgressOutcome) (q : EgressQueue)
    (finishing : List (Reference × EgressOutcome))
    → get_elem? finishing i ≡ some (pending, outcome)
    → Outcomes q finishing
    → (ltb pending.pointer (length q.references) ≡ true)
      × (valued finished_flag (get_elem? q.references pending.pointer) ≡ 0)
finishing_one i pending outcome q finishing at h =
    let once = occurs-get (finishing_has pending.pointer) (pending, outcome) finishing i at in
    ground (arith, h.1 pending.pointer, eq_refl pending.pointer)

pub finish-Outcomes :
    (i : ℕ) (pending : Reference) (outcome : EgressOutcome) (q : EgressQueue)
    (finishing : List (Reference × EgressOutcome))
    → get_elem? finishing i ≡ some (pending, outcome)
    → Outcomes q finishing
    → Outcomes (finish_at q pending outcome) (remove_at finishing i)
unfolding finish_at
finish-Outcomes i pending outcome q finishing at h =
    let (lt, unfinished) = finishing_one i pending outcome q finishing at h in
    (
      h.0,
      λ p. ground (
        arith,
        h.1 p,
        finished-finish outcome q.references pending.pointer p lt unfinished,
        occurs-remove_at (finishing_has p) (pending, outcome) i finishing at,
        length-modify (finish outcome) q.references pending.pointer,
      ),
    )

pub forward-Outcomes :
    (q : EgressQueue) (finishing : List (Reference × EgressOutcome)) (exchange : Exchange)
    → lookup exchange q.exchanges ≡ none
    → Outcomes q finishing
    → Outcomes (forward q exchange).0 finishing
unfolding forward start_hashing new_egress_exchange
forward-Outcomes q finishing exchange fresh h = (
  insert-IsMap exchange (next_reference q) q.exchanges h.0,
  λ p. ground (
    arith,
    h.1 p,
    occurs-insert_new p exchange (next_reference q) q.exchanges fresh,
    valued-last finished_flag q.references new_egress_exchange p,
    valued-long finished_flag q.references p,
    length-append q.references (new_egress_exchange ∷ []),
  ),
)

pub take-Outcomes :
    (q : EgressQueue) (finishing : List (Reference × EgressOutcome)) (exchange : Exchange)
    (pending : Reference) (outcome : EgressOutcome)
    → lookup exchange q.exchanges ≡ some pending
    → Outcomes q finishing
    → Outcomes
        (record q { exchanges = remove exchange q.exchanges })
        ((pending, outcome) ∷ finishing)
take-Outcomes q finishing exchange pending outcome found h = (
  remove-IsMap exchange q.exchanges h.0,
  λ p. ground (arith, h.1 p, occurs-remove_found p exchange pending q.exchanges h.0 found),
)

pub same-Outcomes :
    (q : EgressQueue) (f : EgressExchange → EgressExchange) (i : ℕ)
    (finishing : List (Reference × EgressOutcome))
    → ((e : EgressExchange) → finished_flag (f e) ≡ finished_flag e)
    → Outcomes q finishing
    → Outcomes (record q { references = modify f q.references i }) finishing
same-Outcomes q f i finishing same h = (
  h.0,
  λ p. ground (
    arith,
    h.1 p,
    valued-modify finished_flag f q.references i p same,
    length-modify f q.references i,
  ),
)

pub abandon-Outcomes :
    (q : EgressQueue) (finishing : List (Reference × EgressOutcome)) (pending : Reference)
    → Outcomes q finishing
    → Outcomes (abandon_at q pending) finishing
unfolding abandon_at
abandon-Outcomes q finishing pending =
    same-Outcomes q abandon pending.pointer finishing abandon-finished
