-- ===== src/Protocol/Ingress/Invariant.antt =====
-- internal/protocol/ingress.go: what holds of the pairs, whatever interleaves.
use mathlib.Core.Path.{subst}
use spectre.Prelude.{
  ℕ, ◌+◌, ◌≡◌, sym, ap, ◌∙◌, Bool, true, false, not, ◌&&◌, Option, none, some, List, [], ◌∷◌, ◌++◌,
  text_eq, nat_eq, ◌==◌, eq_iff, is_some, arith, ltb, inl, inr, if◌then◌else◌, length, get_elem?,
  All, Bool-cases,
}
use spectre.Prelude.Assoc.{lookup, insert, remove, IsMap, remove-absent}
use spectre.Protocol.Queues.{occurs}
use spectre.Protocol.Egress.{Exchange, modify}
use spectre.Protocol.Egress.Places.{
  valued, get_elem?-modify, get_elem?-last, get_elem?-long, mapped,
}
use spectre.Protocol.Responses.{IngressOutcome}
use spectre.Protocol.Ingress.{RequestId, IngressPair}
use spectre.Protocol.Ingress.Steps.{System}
use spectre.Protocol.Ingress.Settled.{IsSettled, is_open}

abbrev pub flag : Bool → ℕ
flag b = if b then 1 else 0

abbrev pub joined_flag : IngressPair → ℕ
joined_flag c = flag c.joined

abbrev pub done_flag : IngressPair → ℕ
done_flag c = flag c.candidate_done

abbrev pub set_flag : IngressPair → ℕ
set_flag c = flag (is_some c.outcome)

abbrev pub at_number : ℕ → ℕ → Bool
at_number p r = r == p

abbrev pub finishing_at : ℕ → ℕ × IngressOutcome → Bool
finishing_at p f = f.0 == p

abbrev pub test_at : (IngressPair → Bool) → Option IngressPair → Bool
test_at t none = false
test_at t (some c) = t c

module _ (is_reference : Exchange → Bool) where
  abbrev pub candidate_entry : ℕ → Exchange × ℕ → Bool
  candidate_entry p e = not (is_reference e.0) && e.1 == p

  abbrev pub reference_entry : ℕ → Exchange × ℕ → Bool
  reference_entry p e = is_reference e.0 && e.1 == p

  -- A pair with a candidate has one, which is forwarded, has answered, or is finished.
  abbrev pub OneCandidate : System → ℕ → Type 0
  OneCandidate s p =
      occurs (candidate_entry p) s.ingress.exchanges
        + occurs (at_number p) s.comparing
        + valued done_flag (get_elem? s.ingress.pairs p)
      ≡ valued joined_flag (get_elem? s.ingress.pairs p)

  -- A pair's reference is forwarded, or its outcome was reported, or is published.
  abbrev pub OneReference : System → ℕ → Type 0
  OneReference s p =
      occurs (reference_entry p) s.ingress.exchanges
        + occurs (finishing_at p) s.finishing
        + valued set_flag (get_elem? s.ingress.pairs p)
      ≡ flag (ltb p (length s.ingress.pairs))

  -- Each request ID that can be joined is that of a pair that is open.
  abbrev pub AreOpen : List (RequestId × ℕ) → List IngressPair → Type 0
  AreOpen requests pairs =
      All (λ (e : RequestId × ℕ). test_at (is_open e.0) (get_elem? pairs e.1) ≡ true) requests

  pub record PairsInv (s : System) : Type 0 where
    pub exchanges_map : IsMap s.ingress.exchanges
    pub requests_map : IsMap s.ingress.requests
    pub candidates : (p : ℕ) → OneCandidate s p
    pub references : (p : ℕ) → OneReference s p
    pub settled : All IsSettled s.ingress.pairs
    pub open_requests : AreOpen s.ingress.requests s.ingress.pairs

  pub occurs-insert_new :
      (t : Exchange × ℕ → Bool) (exchange : Exchange) (p : ℕ) (m : List (Exchange × ℕ))
      → lookup exchange m ≡ none
      → occurs t (insert exchange p m) ≡ occurs t m + flag (t (exchange, p))
  unfolding lookup insert
  occurs-insert_new t exchange p [] e = omega arith
  occurs-insert_new t exchange p ((x, r) ∷ m) e =
      ground (arith, eq_iff x exchange, occurs-insert_new t exchange p m)

  pub occurs-remove_found :
      (t : Exchange × ℕ → Bool) (exchange : Exchange) (p : ℕ) (m : List (Exchange × ℕ))
      → IsMap m
      → lookup exchange m ≡ some p
      → flag (t (exchange, p)) + occurs t (remove exchange m) ≡ occurs t m
  unfolding lookup remove
  occurs-remove_found t exchange p [] h e = cc
  occurs-remove_found t exchange p ((x, r) ∷ m) h e =
      ground
        (arith, eq_iff x exchange, remove-absent exchange m, occurs-remove_found t exchange p m h.1)

  -- Requests stay open when a new pair comes.
  pub open-last :
      (requests : List (RequestId × ℕ)) (pairs : List IngressPair) (c : IngressPair)
      → AreOpen requests pairs
      → AreOpen requests (pairs ++ c ∷ [])
  open-last [] pairs c h = tt
  open-last ((id, p) ∷ requests) pairs c h = (
    ground (arith, h.0, get_elem?-last pairs c p, get_elem?-long pairs p),
    open-last requests pairs c h.1,
  )

  pub open-insert :
      (id : RequestId) (p : ℕ) (requests : List (RequestId × ℕ)) (pairs : List IngressPair)
      → test_at (is_open id) (get_elem? pairs p) ≡ true
      → AreOpen requests pairs
      → AreOpen (insert id p requests) pairs
  unfolding insert
  open-insert id p [] pairs e h = (e, tt)
  open-insert id p ((x, r) ∷ requests) pairs e h =
      ground (arith, e, h.0, open-insert id p requests pairs e h.1)

  moved :
      (t : IngressPair → Bool) (o : Option IngressPair) (d : IngressPair)
      → test_at t o ≡ true
      → t d ≡ true
      → test_at t (mapped (λ _. d) o) ≡ true
  moved t none d h k = cc
  moved t (some c) d h k = k

  kept_at :
      (t : IngressPair → Bool) (pairs : List IngressPair) (p r : ℕ) (d : IngressPair)
      → (test_at t (get_elem? pairs p) ≡ true → t d ≡ true)
      → test_at t (get_elem? pairs r) ≡ true
      → test_at t (get_elem? (modify (λ _. d) pairs p) r) ≡ true
  kept_at t pairs p r d keeps h = elim (Bool-cases (p == r)) [
    | inl same ↦
        let at : p ≡ r = (eq_iff p r).0 same in
        let open_before : test_at t (get_elem? pairs p) ≡ true = rw at h in
        ground (
          arith,
          get_elem?-modify (λ _. d) pairs p r,
          moved t (get_elem? pairs r) d h (keeps open_before),
        )
    | inr differ ↦ ground (arith, get_elem?-modify (λ _. d) pairs p r)
  ]

  -- A pair that stays open.
  pub open-modify :
      (requests : List (RequestId × ℕ)) (pairs : List IngressPair) (p : ℕ) (d : IngressPair)
      → ((id : RequestId) → test_at (is_open id) (get_elem? pairs p) ≡ true → is_open id d ≡ true)
      → AreOpen requests pairs
      → AreOpen requests (modify (λ _. d) pairs p)
  open-modify [] pairs p d keeps h = tt
  open-modify ((id, r) ∷ requests) pairs p d keeps h =
      (kept_at (is_open id) pairs p r d (keeps id) h.0, open-modify requests pairs p d keeps h.1)

  -- A pair that is not open any more, whose request ID is removed.
  pub open-close :
      (requests : List (RequestId × ℕ)) (pairs : List IngressPair) (p : ℕ) (c d : IngressPair)
      → get_elem? pairs p ≡ some c
      → AreOpen requests pairs
      → AreOpen (remove c.request_id requests) (modify (λ _. d) pairs p)
  unfolding remove
  open-close [] pairs p c d e h = tt
  open-close ((id, r) ∷ requests) pairs p c d e h = elim (Bool-cases (id == c.request_id)) [
    | inl same ↦ ground (arith, open-close requests pairs p c d e h.1)
    | inr differ ↦
        let closed : test_at (is_open id) (get_elem? pairs p) ≡ true → is_open id d ≡ true =
          λ before. not_open (ap (test_at (is_open id)) (sym e) ∙ before) differ in
        ground (
          arith,
          kept_at (is_open id) pairs p r d closed h.0,
          open-close requests pairs p c d e h.1,
        )
  ]
    where
      not_open : is_open id c ≡ true → (id == c.request_id) ≡ false → is_open id d ≡ true
      not_open before differ = ground (arith, eq_iff id c.request_id, eq_iff c.request_id id)

  pub open_found :
      (id : RequestId) (p : ℕ) (requests : List (RequestId × ℕ)) (pairs : List IngressPair)
      → lookup id requests ≡ some p
      → AreOpen requests pairs
      → test_at (is_open id) (get_elem? pairs p) ≡ true
  unfolding lookup
  open_found id p [] pairs e h = cc
  open_found id p ((x, r) ∷ requests) pairs e h = elim (Bool-cases (x == id)) [
    | inl same ↦
        let name : x ≡ id = (eq_iff x id).0 same in
        let place : r ≡ p = ground arith in
        subst (λ r. test_at (is_open id) (get_elem? pairs r) ≡ true) place
          (subst (λ x. test_at (is_open x) (get_elem? pairs r) ≡ true) name h.0)
    | inr differ ↦ open_found id p requests pairs (ground arith) h.1
  ]
