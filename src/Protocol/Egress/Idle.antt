-- ===== src/Protocol/Egress/Idle.antt =====
-- internal/protocol/egress.go: the count of hashes in progress, and the channel that shutdown waits on.
use mathlib.Core.Path.{subst}
use spectre.Prelude.{
  ℕ, zero, suc, ◌+◌, ◌≡◌, refl, Bool, true, false, none, some, List, [], ◌∷◌, text_eq, nat_eq, ◌==◌,
  arith, ap, sym, inl, inr, length, remove_at, if◌then◌else◌, get_elem?,
}
use spectre.Protocol.Queues.{Hash}
use spectre.Protocol.Egress.{
  EgressQueue, Reference, new_egress_queue, forward, start_hashing, add, finish_hashing, finish_one,
  abandon_at, finish_at, arrive, new_egress_waiter, wait, wait_result,
}
use spectre.Protocol.Egress.Steps.{
  System, new_system, Step, forwards, hashes, hash_fails, hash_ends, arrives, unidentified,
  claims_one, queues, receives, gives_up, expires, abandons, takes, finishes, waits_out,
  stops_waiting, Reach, starts, continues,
}
use spectre.Protocol.Egress.Inversions.{
  add_inversion, claim_inversion, queues_inversion, receive_inversion, expire_inversion,
  give_up_inversion, take_inversion, finish_inversion,
}

-- The count is that of the hashes that started and are not counted out, and the channel is closed
-- just when it is zero.
abbrev pub IsIdle : System → Type 0
IsIdle s =
    (s.queue.hashing ≡ length s.hashings + s.leaving)
    × (s.queue.idle_closed ≡ (s.queue.hashing == 0))

length-remove_at :
    (i : ℕ) (list : List Reference) (r : Reference)
    → get_elem? list i ≡ some r
    → length list ≡ length (remove_at list i) + 1
length-remove_at i [] r e = cc
length-remove_at zero (x ∷ xs) r e = omega arith
length-remove_at (suc i) (x ∷ xs) r e = omega (arith, length-remove_at i xs r e)

add_keeps :
    (q r : EgressQueue) (hash : Hash) (pending : Reference)
    → add q hash pending ≡ some r
    → (r.hashing ≡ q.hashing) × (r.idle_closed ≡ q.idle_closed)
add_keeps q r hash pending e = elim (add_inversion q r hash pending e) [
  | inl (none_wait, same) ↦ (ap (λ q. q.hashing) same, ap (λ q. q.idle_closed) same)
  | inr (w, ws, first, empty, same) ↦ (ap (λ q. q.hashing) same, ap (λ q. q.idle_closed) same)
]

step-IsIdle : {s t : System} → Step s t → IsIdle s → IsIdle t
unfolding forward start_hashing abandon_at finish_at arrive new_egress_waiter wait wait_result
step-IsIdle {s} (forwards exchange fresh) h = ground (arith, h)
step-IsIdle {s} (hashes i pending hash q at e) h =
    ground (arith, h, add_keeps s.queue q hash pending e, length-remove_at i s.hashings pending at)
step-IsIdle {s} (hash_fails i pending at) h =
    ground (arith, h, length-remove_at i s.hashings pending at)
step-IsIdle {s} (hash_ends n q l e) h =
    let (m, c, same) = finish_inversion s.queue q e in
    subst (λ r. IsIdle (record s { queue = r; leaving = n })) (sym same) (ground (arith, h))
step-IsIdle {s} (arrives w q e) h =
    subst (λ r. IsIdle (record s { queue = r.0; arriving = w ∷ s.arriving })) e h
step-IsIdle (unidentified i) h = h
step-IsIdle {s} (claims_one i w hash pending q at e) h =
    let (others, first, same) = claim_inversion s.queue q hash w pending e in
    ground (arith, h, ap (λ q. q.hashing) same, ap (λ q. q.idle_closed) same)
step-IsIdle {s} (queues i w hash q at e) h =
    let (none_unused, same) = queues_inversion s.queue q hash w e in
    ground (arith, h, ap (λ q. q.hashing) same, ap (λ q. q.idle_closed) same)
step-IsIdle {s} (receives w pending q e) h =
    let (full, same) = receive_inversion s.queue q w pending e in
    ground (arith, h, ap (λ q. q.hashing) same, ap (λ q. q.idle_closed) same)
step-IsIdle {s} (gives_up w hash) h = elim (give_up_inversion s.queue hash w) [
  | inl (none_left, same) ↦
      ground (arith, h, ap (λ r. r.0.hashing) same, ap (λ r. r.0.idle_closed) same)
  | inr (i, found, same) ↦
      ground (arith, h, ap (λ r. r.0.hashing) same, ap (λ r. r.0.idle_closed) same)
]
step-IsIdle {s} (expires hash pending q e) h =
    let (i, found, same) = expire_inversion s.queue q hash pending e in
    ground (arith, h, ap (λ q. q.hashing) same, ap (λ q. q.idle_closed) same)
step-IsIdle (abandons i pending at) h = h
step-IsIdle {s} (takes exchange pending outcome q e) h =
    let (found, same) = take_inversion s.queue q exchange pending e in
    ground (arith, h, ap (λ q. q.hashing) same, ap (λ q. q.idle_closed) same)
step-IsIdle (finishes i pending outcome at) h = h
step-IsIdle (waits_out i pending e outcome at cell set) h = h
step-IsIdle (stops_waiting i pending reason at) h = h

pub Reach-IsIdle : (s : System) → Reach s → IsIdle s
unfolding new_system new_egress_queue
Reach-IsIdle _ starts = ground arith
Reach-IsIdle _ (continues s t before step) = step-IsIdle step (Reach-IsIdle s before)

-- Whatever interleaves, a hash that ends is counted out without a panic: the channel is not closed
-- twice.
pub finish_hashing-total :
    (s : System) (n : ℕ)
    → Reach s
    → s.leaving ≡ suc n
    → (q : EgressQueue) × (finish_hashing s.queue ≡ some q)
unfolding finish_hashing
finish_hashing-total s n r e = go s.queue.hashing refl s.queue.idle_closed refl
  where
    idle : IsIdle s
    idle = Reach-IsIdle s r

    close :
        (closed : Bool)
        → closed ≡ false
        → (q : EgressQueue) × ((if closed
              then none
              else some (record s.queue { hashing = 0; idle_closed = true }))
            ≡ some q)
    close true same = cc
    close false same = (_, refl)

    go :
        (hashing : ℕ)
        → s.queue.hashing ≡ hashing
        → (closed : Bool) → s.queue.idle_closed ≡ closed
        → (q : EgressQueue) × (finish_one hashing s.queue ≡ some q)
    go zero eh closed ec = absurd (omega (arith, idle.0))
    go (suc zero) eh closed ec = close s.queue.idle_closed (ground (arith, idle))
    go (suc (suc m)) eh closed ec = (_, refl)
