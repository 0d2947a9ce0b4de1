-- ===== src/Protocol/Exchanges.antt =====
-- internal/protocol/egress.go, `egressExchange`: one forwarded reference request. Each method runs
-- under the lock of the exchange. A raw response is a number, and a call of its `Release` by the
-- engine is counted.
use spectre.Prelude.{
  ℕ, ◌+◌, Bool, true, false, Option, none, some, Text, if◌then◌else◌, Result, ok, failed,
}
use spectre.Future.{Future, new_future, set_future, get_future}
use spectre.Protocol.Queues.{Hash}

abbrev pub Raw : Type 0
Raw = ℕ

-- `egressOutcome`.
pub record EgressOutcome : Type 0 where
  pub raw : Option Raw
  pub failure : Option Text

-- The timer that `expireAfter` sets, for a reference of some hash, and `stopExpiry` stops.
pub data Expiry : Type 0 where
  unset : Expiry
  running stopped : Hash → Expiry

-- `egressExchange`, and how often `release` called `Release` on its response.
pub record EgressExchange : Type 0 where
  pub outcome : Future EgressOutcome
  pub abandoned : Bool
  pub expiry : Expiry
  pub releases : ℕ

-- `newEgressExchange`.
unfoldable pub new_egress_exchange : EgressExchange
new_egress_exchange = record {
  outcome = new_future;
  abandoned = false;
  expiry = unset;
  releases = 0;
}

abbrev pub release_raw : EgressExchange → Option Raw → EgressExchange
release_raw e none = e
release_raw e (some raw) = record e { releases = e.releases + 1 }

abbrev pub release_outcome : EgressExchange → Option EgressOutcome → EgressExchange
release_outcome e none = e
release_outcome e (some outcome) = release_raw e outcome.raw

-- `release`.
unfoldable pub release : EgressExchange → EgressExchange
release e = release_outcome e (get_future e.outcome)

-- `abandon`.
unfoldable pub abandon : EgressExchange → EgressExchange
unfolding release
abandon e = release (record e { abandoned = true })

-- `finish`.
unfoldable pub finish : EgressOutcome → EgressExchange → EgressExchange
unfolding release
finish outcome e =
    let set = record e { outcome = (set_future e.outcome outcome).0 } in
    if e.abandoned then release set else set

-- `expireAfter`.
abbrev pub expire_after : Hash → EgressExchange → EgressExchange
expire_after hash e = record e { expiry = running hash }

abbrev pub stopped_timer : Expiry → Expiry
stopped_timer (running hash) = stopped hash
stopped_timer e = e

-- `stopExpiry`.
abbrev pub stop_expiry : EgressExchange → EgressExchange
stop_expiry e = record e { expiry = stopped_timer e.expiry }

-- Why there is no response to replay.
pub data EgressError : Type 0 where
  identify_reference identify_candidate : Text → EgressError
  no_matching_reference : EgressError
  wait_for_matching wait_for_response cannot_be_replayed : Text → EgressError
  response_is_missing : EgressError

abbrev pub response_from : Option Raw → Option Text → Result EgressError Raw
response_from raw (some failure) = failed (cannot_be_replayed failure)
response_from (some raw) none = ok raw
response_from none none = failed response_is_missing
