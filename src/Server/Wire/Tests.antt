-- ===== src/Server/Wire/Tests.antt =====
-- Concrete messages.
use spectre.Prelude.{sym, arith, ◌≡◌, refl, false, none, some, [], ◌∷◌, map, text, ok, failed}
use spectre.Prelude.Assoc.{lookup, insert}
use spectre.Model.{
  Direction, ingress, egress, direction_eq, Quarantine, divergent, unable, Difference, retyped,
  missing, null, string, State, Divergence, state_update,
}
use spectre.Server.Wire.Enums.{
  change_message, change_from_message, json_type_message, json_type_from_message, kind_message,
  kind_from_message, direction_message, direction_from_message, more_than_one_quarantine,
}
use spectre.Server.Wire.Reasons.{
  difference_messages, differences_from_messages, quarantine_message, reason_from_message,
  quarantine_from_message, directed_from_message,
}
use spectre.Server.Wire.Messages.{
  PbState, calls_message, restored_routes, calls_from_message, state_message, restored_quarantines,
  state_from_message, update_message, update_from_message, list_response, list_from_response,
}
use spectre.Server.Wire.RoundTrip.{IsSendable, canonical, IsReportable, state_round}
use spectre.Server.Wire.Lists.{canonical_update, update_round, list_round}
use spectre.Server.Wire.Accepted.{IsAccepted, state-IsAccepted}

abbrev pub gone : Difference
gone = record { path = text "$.id"; change = missing; retype = none; count = 2 }

abbrev pub nulled : Difference
nulled = record {
  path = text "$.name";
  change = retyped;
  retype = some (record { reference = string; candidate = null });
  count = 1;
}

abbrev pub diverged : Quarantine
diverged = record {
  reason = record {
    kind = divergent;
    traffic = some (record { direction = ingress; protocol = text "http"; route = text "/a" });
    node = some (text "reply");
    differences = gone ∷ nulled ∷ [];
    truncated = false;
    detail = [];
  };
  since = 7;
}

abbrev pub failing : Quarantine
failing = record {
  reason = record {
    kind = unable;
    traffic = none;
    node = none;
    differences = [];
    truncated = false;
    detail = text "connection refused";
  };
  since = 9;
}

-- Its egress quarantine was written first.
abbrev pub reported : State
reported = record {
  service = text "users";
  environment = text "staging";
  revision = text "abc";
  spectre_version = text "1";
  uptime = 5;
  quarantines = (egress, failing) ∷ (ingress, diverged) ∷ [];
  calls = record { routes = (text "/a", 3) ∷ []; other = 0 };
}

pub diverged-IsSendable : IsSendable diverged
diverged-IsSendable = (λ h. cc, ((refl, omega arith), ((refl, omega arith), tt)))

held-IsSendable :
    (d : Direction) (q : Quarantine) → lookup d reported.quarantines ≡ some q → IsSendable q
unfolding lookup
held-IsSendable ingress q h =
    let same : diverged ≡ q = ground arith in rw (sym same) diverged-IsSendable
held-IsSendable egress q h = let same : failing ≡ q = ground arith in rw (sym same) (λ n. cc, tt)

pub reported-IsReportable : IsReportable reported
reported-IsReportable = record { identified = refl; routed = (refl, tt); held = held-IsSendable }

abbrev pub listed : Divergence
listed = record {
  service = text "users";
  environment = text "staging";
  revision = text "abc";
  direction = ingress;
  quarantine = diverged;
}

update_round_example :
    update_from_message (update_message (state_update reported))
    ≡ ok (canonical_update (state_update reported))
update_round_example = update_round (state_update reported) reported-IsReportable

list_round_example :
    list_from_response (list_response (reported ∷ []) (listed ∷ []))
    ≡ ok (map canonical (reported ∷ []), listed ∷ [])
list_round_example =
    list_round (reported ∷ []) (listed ∷ []) (reported-IsReportable, tt)
      (record { identified = refl; sendable = diverged-IsSendable }, tt)

state-IsAccepted_example : IsAccepted (state_message reported) (canonical reported)
state-IsAccepted_example =
    state-IsAccepted (state_message reported) (canonical reported)
      (state_round reported reported-IsReportable)

-- Two quarantines for ingress.
abbrev twice : PbState
twice = record (state_message reported) {
  quarantines = quarantine_message ingress failing ∷ quarantine_message ingress diverged ∷ [];
}

twice_refused : state_from_message twice ≡ failed (more_than_one_quarantine ingress)
unfolding state_from_message state_message quarantine_message restored_quarantines lookup
    directed_from_message quarantine_from_message reason_from_message direction_message
    direction_from_message kind_from_message kind_message difference_messages change_message
    json_type_message json_type_from_message change_from_message differences_from_messages
    calls_message calls_from_message restored_routes insert
twice_refused = refl
