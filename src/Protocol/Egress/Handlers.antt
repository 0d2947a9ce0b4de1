-- ===== src/Protocol/Egress/Handlers.antt =====
-- internal/protocol/egress.go: the handlers of requests and responses, over the queue.
use spectre.Prelude.{
  Bool, false, Option, none, some, [], ◌∷◌, Text, if◌then◌else◌, Result, ok, failed,
}
use spectre.Model.{egress, Protocol, Route, QuarantineKind, unable, unmatched, QuarantineReason}
use spectre.Protocol.Queues.{Hash}
use spectre.Protocol.Exchanges.{Raw, EgressError, identify_reference, identify_candidate}
use spectre.Protocol.Egress.{Exchange, EgressQueue, Reference, take, add, finish_at, abandon_at}

abbrev pub finish_or_release : Option Reference → EgressQueue → Raw → EgressQueue
unfolding finish_at
finish_or_release none q raw = record q { released = raw ∷ q.released }
finish_or_release (some pending) q raw =
    finish_at q pending (record { raw = some raw; failure = none })

-- `egressReference.ProcessResponse`, when nothing comes between its critical sections.
unfoldable pub process_response : EgressQueue → Exchange → Raw → EgressQueue
unfolding take
process_response q exchange raw =
    let (left, found) = take q exchange in finish_or_release found left raw

abbrev pub fail_reference : Option Reference → EgressQueue → Text → EgressQueue
unfolding finish_at
fail_reference none q reason = q
fail_reference (some pending) q reason =
    finish_at q pending (record { raw = none; failure = some reason })

-- `egressReference.Unable`, likewise.
unfoldable pub unable_reference : EgressQueue → Exchange → Text → EgressQueue
unfolding take
unable_reference q exchange reason =
    let (left, found) = take q exchange in fail_reference found left reason

-- `egressCandidate.ProcessResponse`: candidate requests are never forwarded.
unfoldable pub process_candidate : EgressQueue → Raw → EgressQueue
process_candidate q raw = record q { released = raw ∷ q.released }

-- The text of an error is its print by a library.
module _ (print : EgressError → Text) where
  -- `egressReason`.
  unfoldable pub egress_reason : QuarantineKind → Protocol → Route → EgressError → QuarantineReason
  egress_reason kind protocol route e = record {
    kind = kind;
    traffic = some (record { direction = egress; protocol = protocol; route = route });
    node = none;
    differences = [];
    truncated = false;
    detail = print e;
  }

  -- What `forward` leaves to the background: the hash of the request is added, or the reference is
  -- abandoned and the candidate quarantined. None is a blocked delivery.
  unfoldable pub hashed :
      Protocol
      → Route
      → EgressQueue
      → Reference
      → Result Text Hash
      → Option EgressQueue × Option QuarantineReason
  unfolding abandon_at egress_reason add
  hashed protocol route q pending (ok hash) = (add q hash pending, none)
  hashed protocol route q pending (failed e) = (
    some (abandon_at q pending),
    some (egress_reason unable protocol route (identify_reference e)),
  )

  -- `match`, from the results of its stages: the hash, the claim and the wait.
  unfoldable pub matched :
      Result Text Hash
      → Result EgressError Reference
      → Result EgressError Raw
      → Result (QuarantineKind × EgressError) Raw
  matched (failed e) claimed waited = failed (unable, identify_candidate e)
  matched (ok hash) (failed e) waited = failed (unmatched, e)
  matched (ok hash) (ok pending) (failed e) = failed (unable, e)
  matched (ok hash) (ok pending) (ok raw) = ok raw

  -- `intercept`, from the result of `match` and whether the context is done: the decision, and the
  -- quarantine.
  unfoldable pub intercept :
      Protocol
      → Route
      → Bool
      → Result (QuarantineKind × EgressError) Raw
      → Result EgressError Raw × Option QuarantineReason
  unfolding egress_reason
  intercept protocol route done (ok raw) = (ok raw, none)
  intercept protocol route done (failed (kind, e)) =
      (failed e, if done then none else some (egress_reason kind protocol route e))
