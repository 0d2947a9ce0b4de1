-- ===== src/Server/Reporter/Tests.antt =====
-- A mirror whose first stream fails after its quarantine began.
use spectre.Prelude.{ok, refl, ◌/◌, ◌≡◌, ◌≤◌, true, some, [], ◌∷◌, text}
use spectre.Prelude.Assoc.{lookup}
use spectre.Model.{Direction, direction_eq, ingress, egress, Calls, State}
use spectre.Server.Wire.RoundTrip.{IsSendable}
use spectre.Server.Wire.Tests.{diverged, failing, diverged-IsSendable}
use spectre.Server.Reporter.{
  Reporter, keepalive_due, quarantine_begun, open_stream, handle_all, Session, run, min_retry_delay,
  max_retry_delay, jitter, delay_after,
}
use spectre.Server.Reporter.Streams.{
  IsReporting, IsSendableSession, Agrees, view, begun, begun_in, reports_lem, stream-Agrees,
}
use spectre.Server.Reporter.Backoff.{delay_from, failures, wait_bounds}

abbrev mirror : Reporter
mirror = record {
  service = text "users";
  environment = text "staging";
  revision = text "abc";
  spectre_version = text "1";
  started = 2;
  quarantines = [];
}

abbrev uncounted : Calls
uncounted = record { routes = []; other = 0 }

abbrev counted : Calls
counted = record { routes = []; other = 4 }

abbrev first : Session
first = record {
  now = 3;
  calls = uncounted;
  events = keepalive_due counted ∷ quarantine_begun ingress diverged ∷ [];
}

reporting : IsReporting mirror
unfolding lookup
reporting = record { identified = refl; held = λ d q e. absurd (cc) }

first-IsSendable : IsSendableSession first
first-IsSendable = (tt, (diverged-IsSendable, tt))

failing-IsSendable : IsSendable failing
failing-IsSendable = (λ n. cc, tt)

reports_lem_example :
    (v : State) × (view
        (handle_all
          (open_stream (run mirror (first ∷ [])) 9 counted)
          (quarantine_begun egress failing ∷ [])).messages
      ≡ ok (some v))
    × ((d : Direction)
        → lookup d v.quarantines
          ≡ begun d
              (quarantine_begun egress failing ∷ [])
              (begun_in d (first ∷ []) (lookup d mirror.quarantines)))
reports_lem_example =
    reports_lem mirror (first ∷ []) 9 counted (quarantine_begun egress failing ∷ []) reporting
      (first-IsSendable, tt) tt (failing-IsSendable, tt)

stream-Agrees_example :
    (v : State) × Agrees (handle_all (open_stream mirror 3 uncounted) first.events) v
stream-Agrees_example = stream-Agrees mirror 3 uncounted first.events reporting tt first-IsSendable

wait_bounds_example :
    (min_retry_delay / 2 ≤ jitter (delay_after (delay_from min_retry_delay (failures 7)) true 0) 5)
    × (jitter (delay_after (delay_from min_retry_delay (failures 7)) true 0) 5 ≤ max_retry_delay)
wait_bounds_example = wait_bounds (failures 7) true 0 5
