-- ===== src/Protocol/Ingress/Inversions.antt =====
-- internal/protocol/ingress.go: what each operation has done to the pairs.
use spectre.Prelude.{
  ℕ, ◌≡◌, refl, Bool, true, false, not, Option, none, some, ◌++◌, text_eq, ◌==◌, eq_iff, get_elem?,
  ◌⊎◌, inl, inr, arith, if◌then◌else◌, Result, ok, failed,
}
use spectre.Prelude.Assoc.{lookup, insert, remove}
use spectre.Model.{Protocol}
use spectre.Protocol.Egress.{Exchange, modify}
use spectre.Protocol.Responses.{IngressOutcome}
use spectre.Protocol.Ingress.{
  RequestId, IngressPair, PairingError, join_pair, IngressPairs, Finished, finish_reference_of,
  finish_candidate_of, admit_joined, admit_pair, admit_found, admit_candidate, take_found,
  take_pair, raws, finish_reference_at, finish_reference, finish_candidate_at, finish_candidate,
}

abbrev pub admitted_to : IngressPairs → Exchange → ℕ → IngressPair → IngressPairs
admitted_to q exchange p c = record q {
  pairs = modify (λ _. record c { joined = true }) q.pairs p;
  exchanges = insert exchange p q.exchanges;
}

join_inversion :
    (c d : IngressPair) (protocol : Protocol)
    → join_pair c protocol ≡ ok d
    → (c.joined ≡ false) × (c.protocol ≡ protocol) × (d ≡ record c { joined = true })
unfolding join_pair
join_inversion c d protocol e = go c.joined (c.protocol == protocol) refl refl e
  where
    go :
        (joined same : Bool)
        → c.joined ≡ joined
        → (c.protocol == protocol) ≡ same
        → (if joined
            then failed (PairingError.already_has_candidate c.request_id)
            else if not same
            then failed (PairingError.uses_not c.request_id protocol c.protocol)
            else ok (record c { joined = true }))
          ≡ ok d
        → (c.joined ≡ false) × (c.protocol ≡ protocol) × (d ≡ record c { joined = true })
    go true same ej es h = absurd (cc)
    go false false ej es h = absurd (cc)
    go false true ej es h = (ej, (eq_iff c.protocol protocol).0 es, cc)

-- A candidate is admitted to a pair under its request ID, with its protocol and no candidate before.
abbrev pub IsAdmitted :
    IngressPairs → IngressPairs → Protocol → Option RequestId → Exchange → Type 0
IsAdmitted q r protocol id exchange =
    (i : RequestId) × (p : ℕ) × (c : IngressPair) × (id ≡ some i)
    × (lookup i q.requests ≡ some p)
    × (get_elem? q.pairs p ≡ some c)
    × (c.joined ≡ false)
    × (c.protocol ≡ protocol)
    × (r ≡ admitted_to q exchange p c)

pub admit_inversion :
    (q r : IngressPairs) (protocol : Protocol) (id : Option RequestId) (exchange x : Exchange)
    → admit_candidate q protocol id exchange ≡ (r, ok x)
    → IsAdmitted q r protocol id exchange
unfolding admit_candidate admit_found admit_pair
admit_inversion q r protocol none exchange x e = absurd (cc)
admit_inversion q r protocol (some i) exchange x e = found (lookup i q.requests) refl e
  where
    joined :
        (p : ℕ) (c : IngressPair) (tried : Result PairingError IngressPair)
        → lookup i q.requests ≡ some p
        → get_elem? q.pairs p ≡ some c
        → join_pair c protocol ≡ tried
        → admit_joined tried q p exchange ≡ (r, ok x)
        → IsAdmitted q r protocol (some i) exchange
    joined p c (failed f) ep ec ej h = absurd (cc)
    joined p c (ok d) ep ec ej h =
        let (free, same, is) = join_inversion c d protocol ej in
        (i, p, c, refl, ep, ec, free, same, ground (arith))

    pair :
        (p : ℕ) (c : Option IngressPair)
        → lookup i q.requests ≡ some p
        → get_elem? q.pairs p ≡ c
        → admit_pair c q protocol p i exchange ≡ (r, ok x)
        → IsAdmitted q r protocol (some i) exchange
    pair p none ep ec h = absurd (cc)
    pair p (some c) ep ec h = joined p c (join_pair c protocol) ep ec refl h

    found :
        (p : Option ℕ)
        → lookup i q.requests ≡ p
        → admit_found p q protocol i exchange ≡ (r, ok x)
        → IsAdmitted q r protocol (some i) exchange
    found none ep h = absurd (cc)
    found (some p) ep h = pair p (get_elem? q.pairs p) ep refl h

pub take_inversion :
    (q r : IngressPairs) (exchange : Exchange) (p : ℕ)
    → take_pair q exchange ≡ (r, some p)
    → (lookup exchange q.exchanges ≡ some p)
      × (r ≡ record q { exchanges = remove exchange q.exchanges })
unfolding take_pair
take_inversion q r exchange p = go (lookup exchange q.exchanges)
  where
    go :
        (found : Option ℕ)
        → take_found found q exchange ≡ (r, some p)
        → (found ≡ some p) × (r ≡ record q { exchanges = remove exchange q.exchanges })
    go none e = absurd (cc)
    go (some x) e = (cc, cc)

abbrev pub finished_at : IngressPairs → ℕ → IngressPair → Finished → IngressPairs
finished_at q p c f = record q {
  pairs = modify (λ _. f.pair) q.pairs p;
  requests = if f.finished then remove c.request_id q.requests else q.requests;
  released = raws f.released ++ q.released;
}

pub finish_reference_inversion :
    (q : IngressPairs) (p : ℕ) (outcome : IngressOutcome)
    → ((get_elem? q.pairs p ≡ none) × (finish_reference q p outcome ≡ q))
      ⊎ ((c : IngressPair) × (get_elem? q.pairs p ≡ some c)
          × (finish_reference q p outcome ≡ finished_at q p c (finish_reference_of c outcome)))
unfolding finish_reference finish_reference_at
finish_reference_inversion q p outcome = go (get_elem? q.pairs p)
  where
    go :
        (o : Option IngressPair)
        → ((o ≡ none) × (finish_reference_at o q p outcome ≡ q))
          ⊎ ((c : IngressPair) × (o ≡ some c)
              × (finish_reference_at o q p outcome
                  ≡ finished_at q p c (finish_reference_of c outcome)))
    go none = inl (refl, refl)
    go (some c) = inr (c, refl, refl)

abbrev pub candidate_done_at : IngressPairs → ℕ → IngressPair → IngressPairs
candidate_done_at q p c = record q {
  pairs = modify (λ _. finish_candidate_of c) q.pairs p;
  requests = remove c.request_id q.requests;
}

pub finish_candidate_inversion :
    (q : IngressPairs) (p : ℕ)
    → ((get_elem? q.pairs p ≡ none) × (finish_candidate q p ≡ q))
      ⊎ ((c : IngressPair) × (get_elem? q.pairs p ≡ some c)
          × (finish_candidate q p ≡ candidate_done_at q p c))
unfolding finish_candidate finish_candidate_at
finish_candidate_inversion q p = go (get_elem? q.pairs p)
  where
    go :
        (o : Option IngressPair)
        → ((o ≡ none) × (finish_candidate_at o q p ≡ q))
          ⊎ ((c : IngressPair) × (o ≡ some c)
              × (finish_candidate_at o q p ≡ candidate_done_at q p c))
    go none = inl (refl, refl)
    go (some c) = inr (c, refl, refl)
