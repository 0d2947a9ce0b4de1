-- ===== src/Protocol/Egress/Counts.antt =====
-- internal/protocol/egress.go: each forwarded reference is in one place, kept by each step until it expires.
use mathlib.Core.Path.{subst}
use spectre.Prelude.{
  ℕ, ◌+◌, ◌≤◌, ◌≡◌, true, none, some, List, [], ◌∷◌, length-append, Text, nat_eq, text_eq, length,
  get_elem?, remove_at, arith, if◌then◌else◌, ap, sym, ◌==◌, ltb, inl, inr,
}
use spectre.Protocol.Queues.{
  Hash, queued, occurs, total-set_queue, occurs-remove_at, index_of-found,
}
use spectre.Protocol.Exchanges.{new_egress_exchange, abandon, expire_after, stop_expiry}
use spectre.Protocol.Egress.{
  EgressQueue, Reference, EgressWaiter, add, claim, receive, expire_unused, abandon_at,
  is_reference, forward, start_hashing, arrive, new_egress_waiter,
}
use spectre.Protocol.Egress.Steps.{System}
use spectre.Protocol.Egress.Inversions.{
  add_inversion, claim_inversion, receive_inversion, expire_inversion,
}
use spectre.Protocol.Egress.Places.{length-modify, occurs-last, valued-last, valued-long}
use spectre.Protocol.Egress.Paired.{QueueIsPaired}
use spectre.Protocol.Egress.References.{
  has_number, slot_has, abandoned_flag, abandoned_of, in_queue, abandoned_of-abandon, unused_counts,
  handed_counts, received_counts, claimed_counts,
}

abbrev pub places : ℕ → System → ℕ
places p s =
    occurs (has_number p) s.hashings
    + in_queue p s.queue
    + occurs (has_number p) s.claims
    + occurs (has_number p) s.expiring
    + occurs (has_number p) s.forsaken

abbrev pub living : ℕ → System → ℕ
living p s =
    occurs (has_number p) s.waits
    + occurs (has_number p) s.hashings
    + in_queue p s.queue
    + occurs (has_number p) s.expiring

abbrev pub Counts : ℕ → System → Type 0
Counts p s =
    (places p s ≡ (if ltb p (length s.queue.references) then 1 else 0))
    × (occurs (has_number p) s.waits ≤ occurs (has_number p) s.claims)
    × (living p s + abandoned_of p s.queue.references ≤ 1)

abbrev pub number : ℕ → Reference → ℕ
number p pending = if pending.pointer == p then 1 else 0

pub removed :
    (p i : ℕ) (pending : Reference) (list : List Reference)
    → get_elem? list i ≡ some pending
    → number p pending + occurs (has_number p) (remove_at list i) ≡ occurs (has_number p) list
removed p i pending list = occurs-remove_at (has_number p) pending i list

same_number : (p : ℕ) (r s : Reference) → is_reference r s ≡ true → number p s ≡ number p r
same_number p r s e = ground (arith)

pub forwards-Counts :
    (p : ℕ) (s : System) (exchange : Text)
    → Counts p s
    → Counts p (record s {
      queue = (forward s.queue exchange).0;
      hashings = (forward s.queue exchange).1 ∷ s.hashings;
    })
unfolding forward start_hashing new_egress_exchange
forwards-Counts p s exchange h = ground (
  arith,
  h,
  valued-last abandoned_flag s.queue.references new_egress_exchange p,
  length-append s.queue.references (new_egress_exchange ∷ []),
  valued-long abandoned_flag s.queue.references p,
)

pub hashes-Counts :
    (p : ℕ) (s : System) (i : ℕ) (pending : Reference) (hash : Hash) (q : EgressQueue)
    → QueueIsPaired s.queue
    → get_elem? s.hashings i ≡ some pending
    → add s.queue hash pending ≡ some q
    → Counts p s
    → Counts p (record s { queue = q; hashings = remove_at s.hashings i; leaving = s.leaving + 1 })
hashes-Counts p s i pending hash q paired at e h = elim (add_inversion s.queue q hash pending e) [
  | inl (none_wait, same) ↦ subst result (sym same) (
      ground (
        arith,
        h,
        removed p i pending s.hashings at,
        unused_counts p s.queue hash pending paired.0,
        length-modify (expire_after hash) s.queue.references pending.pointer,
      ))
  | inr (w, ws, first, empty, same) ↦ subst result (sym same) (
      ground
        (arith, h, removed p i pending s.hashings at, handed_counts p s.queue w.slot pending empty))
]
  where
    result : EgressQueue → Type 0
    result q =
        Counts p
          (record s { queue = q; hashings = remove_at s.hashings i; leaving = s.leaving + 1 })

pub hash_fails-Counts :
    (p : ℕ) (s : System) (i : ℕ) (pending : Reference)
    → get_elem? s.hashings i ≡ some pending
    → Counts p s
    → Counts p (record s {
      queue = abandon_at s.queue pending;
      hashings = remove_at s.hashings i;
      leaving = s.leaving + 1;
      forsaken = pending ∷ s.forsaken;
    })
unfolding abandon_at
hash_fails-Counts p s i pending at h = ground (
  arith,
  h,
  removed p i pending s.hashings at,
  abandoned_of-abandon p pending.pointer s.queue.references,
  length-modify abandon s.queue.references pending.pointer,
)

pub arrives-Counts :
    (p : ℕ) (s : System) (w : EgressWaiter) (q : EgressQueue)
    → new_egress_waiter (arrive s.queue).0 (arrive s.queue).1 ≡ (q, w)
    → Counts p s
    → Counts p (record s { queue = q; arriving = w ∷ s.arriving })
unfolding new_egress_waiter arrive
arrives-Counts p s w q e h =
    subst (λ r. Counts p (record s { queue = r; arriving = w ∷ s.arriving })) (ap (λ r. r.0) e)
      (ground (arith, h, occurs-last (slot_has p) s.queue.slots none))

pub claims-Counts :
    (p : ℕ) (s : System) (i : ℕ) (w : EgressWaiter) (hash : Hash) (pending : Reference)
    (q : EgressQueue)
    → QueueIsPaired s.queue
    → claim s.queue hash w ≡ (q, some pending)
    → Counts p s
    → Counts p (record s {
      queue = q;
      arriving = remove_at s.arriving i;
      waits = pending ∷ s.waits;
      claims = pending ∷ s.claims;
    })
claims-Counts p s i w hash pending q paired e h =
    let (others, first, same) = claim_inversion s.queue q hash w pending e in
    subst
      (λ r. Counts p (record s {
        queue = r;
        arriving = remove_at s.arriving i;
        waits = pending ∷ s.waits;
        claims = pending ∷ s.claims;
      }))
      (sym same)
      (ground (
        arith,
        h,
        claimed_counts p s.queue hash pending others paired.0 first,
        length-modify stop_expiry s.queue.references pending.pointer,
      ))

pub receives-Counts :
    (p : ℕ) (s : System) (w : EgressWaiter) (pending : Reference) (q : EgressQueue)
    → receive s.queue w ≡ (q, some pending)
    → Counts p s
    → Counts p (record s { queue = q; waits = pending ∷ s.waits; claims = pending ∷ s.claims })
receives-Counts p s w pending q e h =
    let (full, same) = receive_inversion s.queue q w pending e in
    subst
      (λ r.
        Counts p (record s { queue = r; waits = pending ∷ s.waits; claims = pending ∷ s.claims }))
      (sym same) (ground (arith, h, received_counts p s.queue w.slot pending full))

pub expires-Counts :
    (p : ℕ) (s : System) (hash : Hash) (pending : Reference) (q : EgressQueue)
    → QueueIsPaired s.queue
    → expire_unused s.queue hash pending ≡ (q, true)
    → Counts p s
    → Counts p (record s { queue = q; expiring = pending ∷ s.expiring })
expires-Counts p s hash pending q paired e h =
    let (i, found, same) = expire_inversion s.queue q hash pending e in
    let unused = queued hash s.queue.unused in
    let (x, at, test) = index_of-found (is_reference pending) i unused found in
    subst (λ r. Counts p (record s { queue = r; expiring = pending ∷ s.expiring })) (sym same)
      (ground (
        arith,
        h,
        same_number p pending x test,
        removed p i x unused at,
        total-set_queue (has_number p) hash (remove_at unused i) s.queue.unused paired.0.0,
      ))
