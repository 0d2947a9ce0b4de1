-- ===== src/Protocol/Ingress/Kept.antt =====
-- internal/protocol/ingress.go: each operation keeps the invariant of the pairs.
use mathlib.Core.Path.{subst}
use spectre.Prelude.{
  ℕ, zero, suc, ◌+◌, ◌≡◌, refl, sym, ap, ◌∙◌, Bool, true, false, Option, none, some, List, [], ◌∷◌,
  ◌++◌, text_eq, nat_eq, ◌==◌, eq_refl, arith, if◌then◌else◌, length, length-append, get_elem?, All,
  All-last, ok, Text,
}
use spectre.Prelude.Assoc.{lookup, insert-IsMap, remove-IsMap}
use spectre.Model.{Protocol, Route}
use spectre.Protocol.Egress.{Exchange, modify}
use spectre.Protocol.Egress.Places.{valued, length-modify, get_elem?-last, valued-last, valued-long}
use spectre.Protocol.Egress.Outcomes.{All-modify}
use spectre.Protocol.Responses.{IngressOutcome}
use spectre.Protocol.Ingress.{
  RequestId, IngressPair, IngressPairs, new_ingress_pair, start, admit_candidate, take_pair,
}
use spectre.Protocol.Ingress.Steps.{System}
use spectre.Protocol.Ingress.Inversions.{admit_inversion, take_inversion}
use spectre.Protocol.Ingress.Settled.{IsSettled, is_open}
use spectre.Protocol.Ingress.Invariant.{
  joined_flag, done_flag, set_flag, test_at, candidate_entry, reference_entry, PairsInv,
  occurs-insert_new, occurs-remove_found, open-last, open-insert, open-modify, open_found,
}

-- A measure of the pairs once one of them has changed.
pub valued-put :
    (f : IngressPair → ℕ) (pairs : List IngressPair) (p r : ℕ) (c d : IngressPair)
    → get_elem? pairs p ≡ some c
    → valued f (get_elem? (modify (λ _. d) pairs p) r) + (if p == r then f c else 0)
      ≡ valued f (get_elem? pairs r) + (if p == r then f d else 0)
valued-put f [] p r c d e = cc
valued-put f (x ∷ xs) zero zero c d e = let same : x ≡ c = cc in ground (arith, ap f same)
valued-put f (x ∷ xs) zero (suc r) c d e = ground arith
valued-put f (x ∷ xs) (suc p) zero c d e = ground arith
valued-put f (x ∷ xs) (suc p) (suc r) c d e = ground (arith, valued-put f xs p r c d e)

pub at_index :
    (P : IngressPair → Type 0) (xs : List IngressPair) (i : ℕ) (x : IngressPair)
    → get_elem? xs i ≡ some x
    → All P xs
    → P x
at_index P [] i x e h = cc
at_index P (y ∷ ys) zero x e h = let same : y ≡ x = cc in subst P same h.0
at_index P (y ∷ ys) (suc i) x e h = at_index P ys i x e h.1

module _ (is_reference : Exchange → Bool) where
  pub start-PairsInv :
      (s : System) (protocol : Protocol) (route : Route) (ignored : Option Text) (id : RequestId)
      (exchange : Exchange)
      → lookup exchange s.ingress.exchanges ≡ none
      → is_reference exchange ≡ true
      → PairsInv is_reference s
      → PairsInv is_reference
          (record s { ingress = start s.ingress protocol route ignored id exchange })
  unfolding start
  start-PairsInv s protocol route ignored id exchange fresh side h =
      let q = s.ingress in
      let c = new_ingress_pair protocol id route ignored in
      let n = length q.pairs in
      record {
        exchanges_map = insert-IsMap exchange n q.exchanges h.exchanges_map;
        requests_map = insert-IsMap id n q.requests h.requests_map;
        candidates = λ p. ground (
          arith,
          h.candidates p,
          occurs-insert_new is_reference (candidate_entry is_reference p) exchange n q.exchanges
              fresh,
          valued-last done_flag q.pairs c p,
          valued-last joined_flag q.pairs c p,
          valued-long done_flag q.pairs p,
          valued-long joined_flag q.pairs p,
        );
        references = λ p. ground (
          arith,
          h.references p,
          occurs-insert_new is_reference (reference_entry is_reference p) exchange n q.exchanges
              fresh,
          valued-last set_flag q.pairs c p,
          valued-long set_flag q.pairs p,
          length-append q.pairs (c ∷ []),
        );
        settled = All-last IsSettled q.pairs c refl h.settled;
        open_requests =
            open-insert is_reference id n q.requests (q.pairs ++ c ∷ [])
              (ground (arith, get_elem?-last q.pairs c n, eq_refl n, eq_refl id))
              (open-last is_reference q.requests q.pairs c h.open_requests);
      }

  pub admit-PairsInv :
      (s : System) (protocol : Protocol) (id : Option RequestId) (exchange : Exchange)
      (q : IngressPairs)
      → lookup exchange s.ingress.exchanges ≡ none
      → is_reference exchange ≡ false
      → admit_candidate s.ingress protocol id exchange ≡ (q, ok exchange)
      → PairsInv is_reference s
      → PairsInv is_reference (record s { ingress = q })
  admit-PairsInv s protocol id exchange r fresh side e h =
      let q = s.ingress in
      let (i, p, c, given, found, at, free, same, is) =
        admit_inversion q r protocol id exchange exchange e in
      let d : IngressPair = record c { joined = true } in
      let was_open : test_at (is_open i) (get_elem? q.pairs p) ≡ true =
        open_found is_reference i p q.requests q.pairs found h.open_requests in
      let open_pair : is_open i c ≡ true = ap (test_at (is_open i)) (sym at) ∙ was_open in
      let was_settled = at_index IsSettled q.pairs p c at h.settled in
      subst (λ r. PairsInv is_reference (record s { ingress = r })) (sym is)
        (record {
          exchanges_map = insert-IsMap exchange p q.exchanges h.exchanges_map;
          requests_map = h.requests_map;
          candidates = λ n. ground (
            arith,
            h.candidates n,
            occurs-insert_new is_reference (candidate_entry is_reference n) exchange p q.exchanges
                fresh,
            valued-put done_flag q.pairs p n c d at,
            valued-put joined_flag q.pairs p n c d at,
          );
          references = λ n. ground (
            arith,
            h.references n,
            occurs-insert_new is_reference (reference_entry is_reference n) exchange p q.exchanges
                fresh,
            valued-put set_flag q.pairs p n c d at,
            length-modify (λ _. d) q.pairs p,
          );
          settled = All-modify IsSettled (λ _. d) q.pairs p (λ _ _. ground arith) h.settled;
          open_requests =
              open-modify is_reference q.requests q.pairs p d
                (λ j before. ground (arith, ap (test_at (is_open j)) at)) h.open_requests;
        })

  pub take_reference-PairsInv :
      (s : System) (exchange : Exchange) (p : ℕ) (outcome : IngressOutcome) (q : IngressPairs)
      → is_reference exchange ≡ true
      → take_pair s.ingress exchange ≡ (q, some p)
      → PairsInv is_reference s
      → PairsInv is_reference (record s { ingress = q; finishing = (p, outcome) ∷ s.finishing })
  take_reference-PairsInv s exchange p outcome r side e h =
      let q = s.ingress in
      let (found, is) = take_inversion q r exchange p e in
      subst
        (λ r.
          PairsInv is_reference (record s { ingress = r; finishing = (p, outcome) ∷ s.finishing }))
        (sym is)
        (record {
          exchanges_map = remove-IsMap exchange q.exchanges h.exchanges_map;
          requests_map = h.requests_map;
          candidates = λ n. ground (
            arith,
            h.candidates n,
            occurs-remove_found is_reference (candidate_entry is_reference n) exchange p q.exchanges
                h.exchanges_map found,
          );
          references = λ n. ground (
            arith,
            h.references n,
            occurs-remove_found is_reference (reference_entry is_reference n) exchange p q.exchanges
                h.exchanges_map found,
          );
          settled = h.settled;
          open_requests = h.open_requests;
        })

  pub take_candidate-PairsInv :
      (s : System) (exchange : Exchange) (p : ℕ) (q : IngressPairs)
      → is_reference exchange ≡ false
      → take_pair s.ingress exchange ≡ (q, some p)
      → PairsInv is_reference s
      → PairsInv is_reference (record s { ingress = q; comparing = p ∷ s.comparing })
  take_candidate-PairsInv s exchange p r side e h =
      let q = s.ingress in
      let (found, is) = take_inversion q r exchange p e in
      subst (λ r. PairsInv is_reference (record s { ingress = r; comparing = p ∷ s.comparing }))
        (sym is)
        (record {
          exchanges_map = remove-IsMap exchange q.exchanges h.exchanges_map;
          requests_map = h.requests_map;
          candidates = λ n. ground (
            arith,
            h.candidates n,
            occurs-remove_found is_reference (candidate_entry is_reference n) exchange p q.exchanges
                h.exchanges_map found,
          );
          references = λ n. ground (
            arith,
            h.references n,
            occurs-remove_found is_reference (reference_entry is_reference n) exchange p q.exchanges
                h.exchanges_map found,
          );
          settled = h.settled;
          open_requests = h.open_requests;
        })
