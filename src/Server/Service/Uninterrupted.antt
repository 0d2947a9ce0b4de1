-- ===== src/Server/Service/Uninterrupted.antt =====
-- internal/server/service.go: what `Update` does with a message, when nothing comes between its calls of
-- the store, is a sequence of steps of the server.
use spectre.Prelude.{
  ℕ, zero, suc, ◌≡◌, refl, sym, ap, some, List, [], ◌∷◌, ok, get_elem?, set, Bool-cases, inl, inr,
}
use mathlib.Core.Path.{subst}
use spectre.Model.{Direction, Quarantine, State}
use spectre.Server.Storage.{Quoting}
use spectre.Server.Storage.Memory.{Memory, put, record_divergence}
use spectre.Server.Wire.{PbUpdateRequest}
use spectre.Server.Service.{
  Stream, next_state, measured_at, aged, adds_no_quarantine, divergence_of, record_all,
  record_quarantines, store_current, receive,
}
use spectre.Server.Service.Covered.{memory_store, record_all_ok}
use spectre.Server.Service.Steps.{
  Session, Server, Reach, continues, puts, records, after_put, to_record,
}

get-set {ℓ} :
    {A : Type ℓ} (xs : List A) (i : ℕ) (x y : A)
    → get_elem? xs i ≡ some x
    → get_elem? (set xs i y) i ≡ some y
get-set [] i x y e = cc
get-set (z ∷ xs) zero x y e = refl
get-set (z ∷ xs) (suc i) x y e = get-set xs i x y e

set-get {ℓ} : {A : Type ℓ} (xs : List A) (i : ℕ) (x : A) → get_elem? xs i ≡ some x → set xs i x ≡ xs
set-get [] i x e = refl
set-get (z ∷ xs) zero x e = let same : z ≡ x = cc in ap (λ y. y ∷ xs) (sym same)
set-get (z ∷ xs) (suc i) x e = ap (λ ys. z ∷ ys) (set-get xs i x e)

set-set {ℓ} : {A : Type ℓ} (xs : List A) (i : ℕ) (x y : A) → set (set xs i x) i y ≡ set xs i y
set-set [] i x y = refl
set-set (z ∷ xs) zero x y = refl
set-set (z ∷ xs) (suc i) x y = ap (λ ys. z ∷ ys) (set-set xs i x y)

module _ (q : Quoting) where
  recorded-Reach :
      (m : Memory) (sessions : List Session) (i : ℕ) (stream : Stream) (current : State)
      (pending : List (Direction × Quarantine))
      → get_elem? sessions i ≡ some (record { stream = stream; pending = pending })
      → stream.state ≡ some current
      → Reach q (record { memory = m; sessions = sessions })
      → Reach q (record {
        memory = (record_all (memory_store q) m current pending).0;
        sessions = set sessions i (record { stream = stream; pending = [] });
      })
  unfolding record_all memory_store
  recorded-Reach m sessions i stream current [] at is r =
      subst (λ l. Reach q (record { memory = m; sessions = l }))
        (sym (set-get sessions i (record { stream = stream; pending = [] }) at)) r
  recorded-Reach m sessions i stream current (h ∷ rest) at is r =
      let next = record_divergence q m (divergence_of current h) in
      let left : Session = record { stream = stream; pending = rest } in
      let step =
        records (record { memory = m; sessions = sessions }) i
          (record { stream = stream; pending = h ∷ rest }) current h rest at is refl in
      let after =
        recorded-Reach next (set sessions i left) i stream current rest
          (get-set sessions i (record { stream = stream; pending = h ∷ rest }) left at) is
          (continues _ _ r step) in
      subst
        (λ l.
          Reach q
            (record { memory = (record_all (memory_store q) next current rest).0; sessions = l }))
        (set-set sessions i left (record { stream = stream; pending = [] })) after

  received-memory :
      (m : Memory) (stream : Stream) (msg : PbUpdateRequest) (now : ℕ) (current : State)
      → next_state stream.state msg ≡ ok current
      → (record_all
          (memory_store q)
          (put q m (aged current now (measured_at msg now stream.measured)) now)
          current
          (to_record msg current)).0
        ≡ (receive (memory_store q) m stream msg now).0
  unfolding receive store_current record_quarantines memory_store record_all
  received-memory m stream msg now current next =
      let stored = put q m (aged current now (measured_at msg now stream.measured)) now in
      elim (Bool-cases (adds_no_quarantine msg)) [
        | inl quiet ↦ rw (next, quiet) refl
        | inr loud ↦ rw (next, loud, record_all_ok q stored current current.quarantines) refl
      ]

  -- From a state that a server reaches it also reaches the one after a whole message of a stream, as
  -- `receive` has it.
  pub receive-Reach :
      (s : Server) (i : ℕ) (stream : Stream) (msg : PbUpdateRequest) (now : ℕ) (current : State)
      → Reach q s
      → get_elem? s.sessions i ≡ some (record { stream = stream; pending = [] })
      → next_state stream.state msg ≡ ok current
      → Reach q (record {
        memory = (receive (memory_store q) s.memory stream msg now).0;
        sessions = set s.sessions i (record {
          stream = record { state = some current; measured = measured_at msg now stream.measured };
          pending = [];
        });
      })
  receive-Reach s i stream msg now current r at next =
      let session : Session = record { stream = stream; pending = [] } in
      let begun = after_put session msg now current in
      let idle : Session = record { stream = begun.stream; pending = [] } in
      let stored = put q s.memory (aged current now (measured_at msg now stream.measured)) now in
      let put_done = continues _ _ r (puts s i session msg now current at refl next) in
      let after =
        recorded-Reach stored (set s.sessions i begun) i begun.stream current begun.pending
          (get-set s.sessions i session begun at) refl put_done in
      subst
        (λ l.
          Reach q (record {
            memory = (receive (memory_store q) s.memory stream msg now).0;
            sessions = l;
          }))
        (set-set s.sessions i begun idle)
        (subst
          (λ m. Reach q (record { memory = m; sessions = set (set s.sessions i begun) i idle }))
          (received-memory s.memory stream msg now current next) after)
