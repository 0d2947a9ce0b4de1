-- ===== src/Protocol/Egress/Reports.antt =====
-- internal/protocol/egress.go: the outcomes that the server has reported in a history of steps.
use mathlib.Core.Path.{subst}
use spectre.Prelude.{
  ℕ, zero, suc, ◌+◌, ◌≡◌, refl, ap, true, Option, none, some, List, [], ◌∷◌, ◌++◌, All, nat_eq,
  text_eq, get_elem?, remove_at, inl, inr, ◌⊎◌,
}
use spectre.Future.{set_future}
use spectre.Protocol.Queues.{occurs}
use spectre.Protocol.Exchanges.{EgressOutcome, EgressExchange, abandon}
use spectre.Protocol.Egress.{EgressQueue, Reference, modify}
use spectre.Protocol.Egress.Steps.{
  System, Step, forwards, hashes, hash_fails, hash_ends, arrives, unidentified, claims_one, queues,
  receives, gives_up, expires, abandons, takes, finishes, waits_out, stops_waiting, Reach, starts,
  continues,
}
use spectre.Protocol.Egress.Places.{valued}
use spectre.Protocol.Egress.Released.{release_lem}
use spectre.Protocol.Egress.Outcomes.{finishing_has, finished_flag}

-- What the server reports in a step.
unfoldable pub told : {s t : System} → Step s t → List (Reference × EgressOutcome)
told (takes exchange pending outcome q e) = (pending, outcome) ∷ []
told (forwards exchange fresh) = []
told (hashes i pending hash q at e) = []
told (hash_fails i pending at) = []
told (hash_ends n q l e) = []
told (arrives w q e) = []
told (unidentified i) = []
told (claims_one i w hash pending q at e) = []
told (queues i w hash q at e) = []
told (receives w pending q e) = []
told (gives_up w hash) = []
told (expires hash pending q e) = []
told (abandons i pending at) = []
told (finishes i pending outcome at) = []
told (waits_out i pending e outcome at cell set) = []
told (stops_waiting i pending reason at) = []

-- What the server has reported, latest first.
unfoldable pub reports : {s : System} → Reach s → List (Reference × EgressOutcome)
unfolding told
reports starts = []
reports (continues s t before step) = told step ++ reports before

-- An outcome is one that was reported for the reference at a place.
abbrev pub WasReported : List (Reference × EgressOutcome) → ℕ → EgressOutcome → Type 0
WasReported reported p outcome =
    (j : ℕ) × (r : Reference) × (get_elem? reported j ≡ some (r, outcome)) × (r.pointer ≡ p)

abbrev pub AreReported : List EgressExchange → List (Reference × EgressOutcome) → Type 0
AreReported references reported =
    (p : ℕ) (e : EgressExchange) (o : EgressOutcome)
    → get_elem? references p ≡ some e
    → e.outcome ≡ some o
    → WasReported reported p o

abbrev pub IsOnItsWay : List (Reference × EgressOutcome) → Reference × EgressOutcome → Type 0
IsOnItsWay reported f = WasReported reported f.0.pointer f.1

-- Each outcome that is recorded, or on the way, was reported for its reference, and each report is recorded
-- or on the way.
abbrev pub Reported :
    EgressQueue → List (Reference × EgressOutcome) → List (Reference × EgressOutcome) → Type 0
Reported q finishing reported =
    AreReported q.references reported
    × All (IsOnItsWay reported) finishing
    × ((p : ℕ)
        → occurs (finishing_has p) reported
          ≡ occurs (finishing_has p) finishing + valued finished_flag (get_elem? q.references p))

pub All-at {ℓ} :
    {A : Type ℓ} (P : A → Type 0) (xs : List A) (i : ℕ) (x : A)
    → get_elem? xs i ≡ some x
    → All P xs
    → P x
All-at P [] i x e h = cc
All-at P (y ∷ ys) zero x e h = let same : y ≡ x = cc in subst P same h.0
All-at P (y ∷ ys) (suc i) x e h = All-at P ys i x e h.1

pub All-remove_at {ℓ} :
    {A : Type ℓ} (P : A → Type 0) (xs : List A) (i : ℕ) → All P xs → All P (remove_at xs i)
All-remove_at P [] i h = tt
All-remove_at P (x ∷ xs) zero h = h.1
All-remove_at P (x ∷ xs) (suc i) h = (h.0, All-remove_at P xs i h.1)

pub All-weaken {ℓ} :
    {A : Type ℓ} (P Q : A → Type 0) (xs : List A) → ((a : A) → P a → Q a) → All P xs → All Q xs
All-weaken P Q [] w h = tt
All-weaken P Q (x ∷ xs) w h = (w x h.0, All-weaken P Q xs w h.1)

pub later-WasReported :
    (x : Reference × EgressOutcome) (reported : List (Reference × EgressOutcome)) (p : ℕ)
    (o : EgressOutcome)
    → WasReported reported p o
    → WasReported (x ∷ reported) p o
later-WasReported x reported p o (j, r, at, here) = (suc j, r, at, here)

-- What stands at a place after a change at another.
pub modified :
    (f : EgressExchange → EgressExchange) (xs : List EgressExchange) (i p : ℕ) (e : EgressExchange)
    → get_elem? (modify f xs i) p ≡ some e
    → (get_elem? xs p ≡ some e)
      ⊎ ((i ≡ p) × (x : EgressExchange) × (get_elem? xs p ≡ some x) × (f x ≡ e))
modified f [] i p e h = cc
modified f (x ∷ xs) zero zero e h = inr (refl, x, refl, cc)
modified f (x ∷ xs) zero (suc p) e h = inl h
modified f (x ∷ xs) (suc i) zero e h = inl h
modified f (x ∷ xs) (suc i) (suc p) e h = elim (modified f xs i p e h) [
  | inl there ↦ inl there
  | inr (same, y, there, changed) ↦ inr (ap (λ n. suc n) same, y, there, changed)
]

pub last_or :
    (xs : List EgressExchange) (x : EgressExchange) (p : ℕ) (e : EgressExchange)
    → get_elem? (xs ++ x ∷ []) p ≡ some e
    → (get_elem? xs p ≡ some e) ⊎ (x ≡ e)
last_or [] x zero e h = inr (cc)
last_or [] x (suc p) e h = cc
last_or (y ∷ xs) x zero e h = inl h
last_or (y ∷ xs) x (suc p) e h = last_or xs x p e h

pub set_or_before :
    (before : Option EgressOutcome) (outcome o : EgressOutcome)
    → (set_future before outcome).0 ≡ some o
    → (before ≡ some o) ⊎ (outcome ≡ o)
set_or_before none outcome o h = inr (cc)
set_or_before (some x) outcome o h = inl h

pub abandon-outcome : (e : EgressExchange) → (abandon e).outcome ≡ e.outcome
unfolding abandon
abandon-outcome e = (release_lem (record e { abandoned = true })).0

pub abandon-flag : (e : EgressExchange) → finished_flag (abandon e) ≡ finished_flag e
abandon-flag e = ap (λ o. finished_flag (record e { outcome = o })) (abandon-outcome e)
