-- ===== src/Server/Service/Tests.antt =====
-- A server that two mirrors stream to.
use spectre.Prelude.{◌≡◌, refl, none, some, [], ◌∷◌, text, ok}
use spectre.Prelude.Assoc.{lookup}
use spectre.Model.{DivergenceFilter, state_update, ingress, egress}
use spectre.Server.Storage.Memory.{new_memory, put, record_divergence}
use spectre.Server.Storage.Quotes.{backslashes}
use spectre.Server.Wire.{PbUpdateRequest, update_message}
use spectre.Server.Wire.RoundTrip.{canonical}
use spectre.Server.Wire.Tests.{reported, reported-IsReportable, diverged, failing}
use spectre.Server.Service.{new_stream, receive, next_state, measured_at, aged, divergence_of}
use spectre.Server.Service.Covered.{memory_store}
use spectre.Server.Service.Steps.{
  Session, new_session, Server, after_put, Reach, starts, continues, opens,
}
use spectre.Server.Service.Uninterrupted.{receive-Reach}
use spectre.Server.Service.Handlers.{next_state-message}

abbrev message : PbUpdateRequest
message = update_message (state_update reported)

message-state : next_state none message ≡ ok (canonical reported)
message-state = next_state-message none (state_update reported) reported-IsReportable

abbrev idle : Server
idle = record { memory = new_memory; sessions = [] }

abbrev one_open : Server
one_open = record { memory = new_memory; sessions = new_session ∷ [] }

abbrev two_open : Server
two_open = record { memory = new_memory; sessions = new_session ∷ new_session ∷ [] }

two_reached : Reach backslashes two_open
two_reached =
    continues one_open two_open (continues idle one_open starts (opens idle)) (opens one_open)

-- The second stream has put its state, and has recorded the first of its two quarantines.
abbrev begun : Session
begun = after_put new_session message 8 (canonical reported)

abbrev half_recorded : Server
half_recorded = record {
  memory =
      record_divergence backslashes (put backslashes new_memory (aged (canonical reported) 8 8) 8)
        (divergence_of (canonical reported) (ingress, diverged));
  sessions = new_session ∷ record { stream = begun.stream; pending = (egress, failing) ∷ [] } ∷ [];
}

abbrev whole : Server
whole = record {
  memory = (receive (memory_store backslashes) new_memory new_stream message 8).0;
  sessions =
      new_session
      ∷ record {
        stream = record {
          state = some (canonical reported);
          measured = measured_at message 8 new_stream.measured;
        };
        pending = [];
      }
      ∷ [];
}

whole_reached : Reach backslashes whole
unfolding new_session new_stream update_message lookup
whole_reached =
    receive-Reach backslashes two_open 1 new_stream message 8 (canonical reported) two_reached refl
      message-state

abbrev of_reply : DivergenceFilter
of_reply = record {
  service = none;
  environment = none;
  revision = none;
  node = some (text "reply");
}
