-- ===== src/Protocol/Ingress/Steps.antt =====
-- internal/protocol/ingress.go: the pairs with the handlers that run around them. Each step is one
-- critical section, so that a sequence of steps is any interleaving.
use spectre.Prelude.{
  ℕ, ◌≡◌, Bool, true, false, Option, none, some, List, [], ◌∷◌, Text, text_eq, get_elem?, remove_at,
  ok,
}
use spectre.Prelude.Assoc.{lookup}
use spectre.Model.{Protocol, Route}
use spectre.Protocol.Egress.{Exchange}
use spectre.Protocol.Responses.{IngressOutcome}
use spectre.Protocol.Ingress.{
  RequestId, IngressPairs, new_ingress_pairs, start, admit_candidate, take_pair, finish_reference,
  finish_candidate,
}

-- `finishing` are the pairs whose reference outcome was reported and is not published yet, and
-- `comparing` those whose candidate has answered and is not finished.
pub record System : Type 0 where
  pub ingress : IngressPairs
  pub finishing : List (ℕ × IngressOutcome)
  pub comparing : List ℕ

unfoldable pub new_system : System
new_system = record { ingress = new_ingress_pairs; finishing = []; comparing = [] }

-- Which acceptor was given an exchange: true is the reference's, false the candidate's. Each reports
-- only its own, and new identifiers are not in use.
module _ (is_reference : Exchange → Bool) where
  pub data Step (s : System) : System → Type 0 where
    starts_one :
        (protocol : Protocol) (route : Route) (ignored : Option Text) (id : RequestId)
        (exchange : Exchange)
        → lookup id s.ingress.requests ≡ none
        → lookup exchange s.ingress.exchanges ≡ none
        → is_reference exchange ≡ true
        → Step s (record s { ingress = start s.ingress protocol route ignored id exchange })
    admits :
        (protocol : Protocol) (id : Option RequestId) (exchange : Exchange) (q : IngressPairs)
        → lookup exchange s.ingress.exchanges ≡ none
        → is_reference exchange ≡ false
        → admit_candidate s.ingress protocol id exchange ≡ (q, ok exchange)
        → Step s (record s { ingress = q })
    takes_reference :
        (exchange : Exchange) (p : ℕ) (outcome : IngressOutcome) (q : IngressPairs)
        → is_reference exchange ≡ true
        → take_pair s.ingress exchange ≡ (q, some p)
        → Step s (record s { ingress = q; finishing = (p, outcome) ∷ s.finishing })
    finishes_reference :
        (i p : ℕ) (outcome : IngressOutcome)
        → get_elem? s.finishing i ≡ some (p, outcome)
        → Step s (record s {
          ingress = finish_reference s.ingress p outcome;
          finishing = remove_at s.finishing i;
        })
    takes_candidate :
        (exchange : Exchange) (p : ℕ) (q : IngressPairs)
        → is_reference exchange ≡ false
        → take_pair s.ingress exchange ≡ (q, some p)
        → Step s (record s { ingress = q; comparing = p ∷ s.comparing })
    finishes_candidate :
        (i p : ℕ)
        → get_elem? s.comparing i ≡ some p
        → Step s (record s {
          ingress = finish_candidate s.ingress p;
          comparing = remove_at s.comparing i;
        })

  pub data Reach : System → Type 0 where
    starts : Reach new_system
    continues : (s t : System) → Reach s → Step s t → Reach t
