-- ===== src/Server/Storage/Memory/Tests.antt =====
-- A store at a concrete history, over a quoting that escapes the quote and the backslash alone.
use spectre.Prelude.{ℕ, ◌≡◌, refl, false, none, some, List, [], ◌∷◌, arith, text, text_eq}
use spectre.Prelude.Assoc.{lookup, insert}
use spectre.Model.{ingress, Divergence, State, unable}
use spectre.Server.Storage.Quotes.{backslashes, parse}
use spectre.Server.Storage.{SourceKey, source_key_eq, state_key, ignored}
use spectre.Server.Storage.Memory.{
  Memory, new_memory, source_of, record_divergence, clear, states, put,
}
use spectre.Server.Storage.Memory.Records.{
  Event, recorded, cleared_at, last_clear, reported, newest, eligible, memory_after, stored-newest,
  record_comm, clear-ignores,
}

-- A report of `users` in production at a time.
abbrev divergence : ℕ → Divergence
divergence since = record {
  service = text "users";
  environment = text "production";
  revision = text "abc123";
  direction = ingress;
  quarantine = record {
    reason = record {
      kind = unable;
      traffic = none;
      node = none;
      differences = [];
      truncated = false;
      detail = text "schema gap";
    };
    since = since;
  };
}

abbrev source : SourceKey
source = source_of (divergence 0)

-- Read from the right: a report, a clear, and two reports of which the later arrives first.
abbrev events : List Event
events =
    recorded (divergence 30)
    ∷ recorded (divergence 40)
    ∷ cleared_at (text "users") (text "production") 20
    ∷ recorded (divergence 10)
    ∷ []

program : Unit {0}
unfolding parse record_divergence clear ignored state_key lookup insert states put new_memory
    memory_after newest reported last_clear
program = tt

stored_latest : lookup source (memory_after backslashes events).divergences ≡ some (divergence 40)
unfolding program
stored_latest = refl

stored-newest_example :
    lookup source (memory_after backslashes events).divergences
    ≡ newest (eligible (last_clear source events) (reported source events))
stored-newest_example = stored-newest backslashes source events

record_comm_example :
    lookup source
      (record_divergence backslashes
        (record_divergence backslashes new_memory (divergence 30))
        (divergence 40)).divergences
    ≡ lookup source
        (record_divergence backslashes
          (record_divergence backslashes new_memory (divergence 40))
          (divergence 30)).divergences
record_comm_example =
    record_comm backslashes new_memory (divergence 30) (divergence 40) source (omega arith)

clear-ignores_example :
    (lookup source
        (record_divergence backslashes
          (clear backslashes new_memory (text "users") (text "production") 20)
          (divergence 20)).divergences
      ≡ lookup source
          (clear backslashes new_memory (text "users") (text "production") 20).divergences)
    × (lookup source
          (clear backslashes
            (record_divergence backslashes new_memory (divergence 20))
            (text "users")
            (text "production")
            20).divergences
        ≡ lookup source
            (clear backslashes new_memory (text "users") (text "production") 20).divergences)
clear-ignores_example = clear-ignores backslashes new_memory (divergence 20) 20 source (omega arith)

abbrev healthy : State
healthy = record {
  service = text "users";
  environment = text "production";
  revision = text "abc123";
  spectre_version = text "1";
  uptime = 5;
  quarantines = [];
  calls = record { routes = []; other = 0 };
}

put_twice : Memory
unfolding program
put_twice =
    put backslashes (put backslashes new_memory healthy 10) (record healthy { uptime = 9 }) 20

states_latest : (states put_twice 15).1 ≡ record healthy { uptime = 9 } ∷ []
unfolding put_twice
states_latest = refl
