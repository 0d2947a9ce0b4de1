-- ===== src/Protocol/Ingress/Ended.antt =====
-- internal/protocol/ingress.go: the invariant of the pairs when a side of one finishes, and in all
-- states that are reached.
use mathlib.Core.Path.{subst}
use spectre.Prelude.{
  ℕ, zero, suc, ◌≤◌, ◌≡◌, refl, sym, ap, Bool, true, false, Option, none, some, List, [], ◌∷◌,
  text_eq, nat_eq, eq_refl, is_some, arith, ltb, inl, inr, if◌then◌else◌, length, get_elem?,
  remove_at,
}
use spectre.Prelude.Assoc.{remove, IsMap, remove-IsMap}
use spectre.Protocol.Queues.{occurs-remove_at}
use spectre.Protocol.Egress.{Exchange, modify}
use spectre.Protocol.Egress.Places.{valued, length-modify, occurs-get}
use spectre.Protocol.Egress.Outcomes.{All-modify}
use spectre.Protocol.Responses.{IngressOutcome}
use spectre.Protocol.Ingress.{
  RequestId, IngressPair, IngressPairs, new_ingress_pairs, finish_reference_of, finish_candidate_of,
  finish_reference, finish_candidate, is_finished,
}
use spectre.Protocol.Ingress.Steps.{
  System, new_system, Step, starts_one, admits, takes_reference, finishes_reference,
  takes_candidate, finishes_candidate, Reach, starts, continues,
}
use spectre.Protocol.Ingress.Inversions.{finish_reference_inversion, finish_candidate_inversion}
use spectre.Protocol.Ingress.Settled.{
  IsSettled, is_open, finish_reference-first, finish_candidate_lem,
}
use spectre.Protocol.Ingress.Invariant.{
  flag, joined_flag, done_flag, set_flag, at_number, finishing_at, test_at, AreOpen, PairsInv,
  open-modify, open-close,
}
use spectre.Protocol.Ingress.Kept.{
  valued-put, at_index, start-PairsInv, admit-PairsInv, take_reference-PairsInv,
  take_candidate-PairsInv,
}

absent-long :
    (pairs : List IngressPair) (p : ℕ) → get_elem? pairs p ≡ none → ltb p (length pairs) ≡ false
absent-long [] p e = ground arith
absent-long (x ∷ xs) zero e = cc
absent-long (x ∷ xs) (suc p) e = ground (arith, absent-long xs p e)

choose-IsMap :
    (b : Bool) (id : RequestId) (requests : List (RequestId × ℕ))
    → IsMap requests
    → IsMap (if b then remove id requests else requests)
choose-IsMap true id requests h = remove-IsMap id requests h
choose-IsMap false id requests h = h

unset : (o : Option IngressOutcome) → flag (is_some o) ≡ 0 → o ≡ none
unset none h = refl
unset (some x) h = absurd (omega arith)

module _ (is_reference : Exchange → Bool) where
  -- An outcome that is published is the first of its pair.
  pub publishes_first :
      (s : System) (i p : ℕ) (outcome : IngressOutcome) (c : IngressPair)
      → PairsInv is_reference s
      → get_elem? s.finishing i ≡ some (p, outcome)
      → get_elem? s.ingress.pairs p ≡ some c
      → c.outcome ≡ none
  publishes_first s i p outcome c h at cell =
      let once = occurs-get (finishing_at p) (p, outcome) s.finishing i at in
      unset c.outcome (ground (arith, h.references p, eq_refl p, ap (valued set_flag) cell))

  choose-AreOpen :
      (b : Bool) (q : IngressPairs) (p : ℕ) (c d : IngressPair)
      → get_elem? q.pairs p ≡ some c
      → d.request_id ≡ c.request_id
      → d.joined ≡ c.joined
      → d.candidate_done ≡ c.candidate_done
      → is_finished c ≡ b
      → AreOpen is_reference q.requests q.pairs
      → AreOpen is_reference
          (if b then remove c.request_id q.requests else q.requests)
          (modify (λ _. d) q.pairs p)
  choose-AreOpen true q p c d cell id joined done e h =
      open-close is_reference q.requests q.pairs p c d cell h
  choose-AreOpen false q p c d cell id joined done e h =
      open-modify is_reference q.requests q.pairs p d
        (λ j before. ground (arith, ap (test_at (is_open j)) cell)) h

  finish_reference-PairsInv :
      (s : System) (i p : ℕ) (outcome : IngressOutcome)
      → get_elem? s.finishing i ≡ some (p, outcome)
      → PairsInv is_reference s
      → PairsInv is_reference (record s {
        ingress = finish_reference s.ingress p outcome;
        finishing = remove_at s.finishing i;
      })
  finish_reference-PairsInv s i p outcome at h =
      let q = s.ingress in
      elim (finish_reference_inversion q p outcome) [
        | inl (missing, same) ↦
            let once = occurs-get (finishing_at p) (p, outcome) s.finishing i at in
            absurd (ground (arith, h.references p, eq_refl p, absent-long q.pairs p missing))
        | inr (c, cell, same) ↦
            let first = publishes_first s i p outcome c h at cell in
            let (ended, free, id, joined, done, set, settled) =
              finish_reference-first c outcome first
                (at_index IsSettled q.pairs p c cell h.settled) in
            let f = finish_reference_of c outcome in
            let d = f.pair in
            subst
              (λ r.
                PairsInv is_reference
                  (record s { ingress = r; finishing = remove_at s.finishing i }))
              (sym same)
              (record {
                exchanges_map = h.exchanges_map;
                requests_map = choose-IsMap f.finished c.request_id q.requests h.requests_map;
                candidates = λ n. ground (
                  arith,
                  h.candidates n,
                  valued-put done_flag q.pairs p n c d cell,
                  valued-put joined_flag q.pairs p n c d cell,
                );
                references = λ n. ground (
                  arith,
                  h.references n,
                  valued-put set_flag q.pairs p n c d cell,
                  occurs-remove_at (finishing_at n) (p, outcome) i s.finishing at,
                  length-modify (λ _. d) q.pairs p,
                );
                settled = All-modify IsSettled (λ _. d) q.pairs p (λ _ _. settled) h.settled;
                open_requests =
                    choose-AreOpen f.finished q p c d cell id joined done (sym ended)
                      h.open_requests;
              })
      ]

  -- The candidate that finishes is the pair's, and finishes once.
  compares_once :
      (s : System) (i p : ℕ)
      → PairsInv is_reference s
      → get_elem? s.comparing i ≡ some p
      → (valued done_flag (get_elem? s.ingress.pairs p) ≡ 0)
        × (1 ≤ valued joined_flag (get_elem? s.ingress.pairs p))
  compares_once s i p h at =
      let once = occurs-get (at_number p) p s.comparing i at in
      let most = most_one (get_elem? s.ingress.pairs p) in ground (arith, h.candidates p, eq_refl p)
    where
      flag-le : (b : Bool) → flag b ≤ 1
      flag-le true = omega arith
      flag-le false = omega arith

      most_one : (o : Option IngressPair) → valued joined_flag o ≤ 1
      most_one none = omega arith
      most_one (some c) = flag-le c.joined

  finish_candidate-PairsInv :
      (s : System) (i p : ℕ)
      → get_elem? s.comparing i ≡ some p
      → PairsInv is_reference s
      → PairsInv is_reference
          (record s { ingress = finish_candidate s.ingress p; comparing = remove_at s.comparing i })
  finish_candidate-PairsInv s i p at h =
      let q = s.ingress in
      let (not_done, joined_once) = compares_once s i p h at in
      elim (finish_candidate_inversion q p) [
        | inl (missing, same) ↦ absurd (ground (arith, ap (valued joined_flag) missing))
        | inr (c, cell, same) ↦
            let (id, joined, done, set, settled) =
              finish_candidate_lem c (at_index IsSettled q.pairs p c cell h.settled) in
            let d = finish_candidate_of c in
            let was = ap (valued done_flag) cell in
            subst
              (λ r.
                PairsInv is_reference
                  (record s { ingress = r; comparing = remove_at s.comparing i }))
              (sym same)
              (record {
                exchanges_map = h.exchanges_map;
                requests_map = remove-IsMap c.request_id q.requests h.requests_map;
                candidates = λ n. ground (
                  arith,
                  h.candidates n,
                  valued-put done_flag q.pairs p n c d cell,
                  valued-put joined_flag q.pairs p n c d cell,
                  occurs-remove_at (at_number n) p i s.comparing at,
                );
                references = λ n. ground (
                  arith,
                  h.references n,
                  valued-put set_flag q.pairs p n c d cell,
                  length-modify (λ _. d) q.pairs p,
                );
                settled = All-modify IsSettled (λ _. d) q.pairs p (λ _ _. settled) h.settled;
                open_requests =
                    open-close is_reference q.requests q.pairs p c d cell h.open_requests;
              })
      ]

  step-PairsInv :
      {s t : System} → Step is_reference s t → PairsInv is_reference s → PairsInv is_reference t
  step-PairsInv {s} (starts_one protocol route ignored id exchange fresh_id fresh side) h =
      start-PairsInv is_reference s protocol route ignored id exchange fresh side h
  step-PairsInv {s} (admits protocol id exchange q fresh side e) h =
      admit-PairsInv is_reference s protocol id exchange q fresh side e h
  step-PairsInv {s} (takes_reference exchange p outcome q side e) h =
      take_reference-PairsInv is_reference s exchange p outcome q side e h
  step-PairsInv {s} (finishes_reference i p outcome at) h =
      finish_reference-PairsInv s i p outcome at h
  step-PairsInv {s} (takes_candidate exchange p q side e) h =
      take_candidate-PairsInv is_reference s exchange p q side e h
  step-PairsInv {s} (finishes_candidate i p at) h = finish_candidate-PairsInv s i p at h

  -- Whatever interleaves: a pair has at most one candidate, which is forwarded, has answered, or is
  -- finished; its reference is forwarded, or its outcome was reported or is published; its reference
  -- response is released just when there is one and the candidate is finished or none joined; and each
  -- request ID that a candidate may use is that of a pair that is not over.
  pub Reach-PairsInv : (s : System) → Reach is_reference s → PairsInv is_reference s
  unfolding new_system new_ingress_pairs
  Reach-PairsInv _ starts = record {
    exchanges_map = tt;
    requests_map = tt;
    candidates = λ p. refl;
    references = λ p. ground arith;
    settled = tt;
    open_requests = tt;
  }
  Reach-PairsInv _ (continues s t before step) = step-PairsInv step (Reach-PairsInv s before)

  -- Whatever interleaves, while the candidate of a pair compares its response, the reference response has
  -- not been released.
  pub compares-Unreleased :
      (s : System) (i p : ℕ) (c : IngressPair)
      → Reach is_reference s
      → get_elem? s.comparing i ≡ some p
      → get_elem? s.ingress.pairs p ≡ some c
      → c.releases ≡ 0
  compares-Unreleased s i p c r at cell =
      let h = Reach-PairsInv s r in
      let (not_done, joined_once) = compares_once s i p h at in
      let settled = at_index IsSettled s.ingress.pairs p c cell h.settled in
      ground (arith, ap (valued done_flag) cell, ap (valued joined_flag) cell)
