-- ===== src/Protocol/Egress/Interleaved.antt =====
-- internal/protocol/egress.go: the maps of queues, whatever interleaves.
use mathlib.Core.Path.{subst}
use spectre.Prelude.{refl, nat_eq, text_eq, ap, sym}
use spectre.Prelude.Assoc.{lookup}
use spectre.Protocol.Egress.{
  new_egress_queue, abandon_at, finish_at, forward, start_hashing, arrive, new_egress_waiter, wait,
}
use spectre.Protocol.Egress.Steps.{
  System, new_system, Step, forwards, hashes, hash_fails, hash_ends, arrives, unidentified,
  claims_one, queues, receives, gives_up, expires, abandons, takes, finishes, waits_out,
  stops_waiting, Reach, starts, continues,
}
use spectre.Protocol.Egress.Inversions.{receive_inversion, take_inversion, finish_inversion}
use spectre.Protocol.Egress.Paired.{
  QueueIsPaired, add-IsPaired, claim-IsPaired, queues-IsPaired, expire-IsPaired, give_up-IsPaired,
}

-- The steps keep the two maps of queues in order and apart.
step-IsPaired : {s t : System} → Step s t → QueueIsPaired s.queue → QueueIsPaired t.queue
unfolding forward start_hashing abandon_at finish_at arrive new_egress_waiter wait
step-IsPaired (forwards exchange fresh) h = h
step-IsPaired {s} (hashes i pending hash q at e) h = add-IsPaired s.queue q hash pending e h
step-IsPaired (hash_fails i pending at) h = h
step-IsPaired {s} (hash_ends n q l e) h =
    let (m, c, same) = finish_inversion s.queue q e in subst QueueIsPaired (sym same) h
step-IsPaired {s} (arrives w q e) h = subst QueueIsPaired (ap (λ r. r.0) e) h
step-IsPaired (unidentified i) h = h
step-IsPaired {s} (claims_one i w hash pending q at e) h =
    claim-IsPaired s.queue q hash w pending e h
step-IsPaired {s} (queues i w hash q at e) h = queues-IsPaired s.queue q hash w e h
step-IsPaired {s} (receives w pending q e) h =
    let (full, same) = receive_inversion s.queue q w pending e in subst QueueIsPaired (sym same) h
step-IsPaired {s} (gives_up w hash) h = give_up-IsPaired s.queue hash w h
step-IsPaired {s} (expires hash pending q e) h = expire-IsPaired s.queue q hash pending e h
step-IsPaired (abandons i pending at) h = h
step-IsPaired {s} (takes exchange pending outcome q e) h =
    let (found, same) = take_inversion s.queue q exchange pending e in
    subst QueueIsPaired (sym same) h
step-IsPaired (finishes i pending outcome at) h = h
step-IsPaired (waits_out i pending e outcome at cell set) h = h
step-IsPaired (stops_waiting i pending reason at) h = h

-- Whatever interleaves, no hash has both unused references and waiting candidates, each queue is
-- in order of arrival, and the maps keep no empty queue.
pub Reach-IsPaired : (s : System) → Reach s → QueueIsPaired s.queue
unfolding new_system new_egress_queue lookup
Reach-IsPaired _ starts = ((tt, tt, λ h. tt), (tt, tt, λ h. tt), λ h. refl)
Reach-IsPaired _ (continues s t before step) = step-IsPaired step (Reach-IsPaired s before)
