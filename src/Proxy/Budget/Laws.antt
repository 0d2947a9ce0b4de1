-- ===== src/Proxy/Budget/Laws.antt =====
-- The budget against a plain account of the bytes reserved.
use spectre.Prelude.{
  ℕ, ◌+◌, ◌-◌, ◌≤◌, ◌<◌, ◌≡◌, ◌∙◌, sym, ap, refl, Bool, Option, none, some, List, [], ◌∷◌, arith,
  leb, if◌then◌else◌, dec_lt,
}
use spectre.Proxy.Budget.{Semaphore, Budget, new_budget, reserve, release}

pub data Call : Type 0 where
  reserves releases : ℕ → Call

-- What a reservation answers comes before what later ones do.
abbrev pub answered {ℓ} : {A : Type ℓ} → Bool → Option (A × List Bool) → Option (A × List Bool)
answered fits none = none
answered fits (some (a, answers)) = some (a, fits ∷ answers)

-- The bytes reserved after a history, with the answer of each reservation: it counts, and is told to fit,
-- if it fits; a release must be covered.
unfoldable pub account : ℕ → ℕ → List Call → Option (ℕ × List Bool)
account limit used [] = some (used, [])
account limit used (reserves n ∷ calls) =
    let fits = leb (n + used) limit in
    answered fits (account limit (if fits then n + used else used) calls)
account limit used (releases n ∷ calls) =
    let rest = account limit (used - n) calls in if leb n used then rest else none

account-le :
    (limit used : ℕ) (calls : List Call) (left : ℕ) (answers : List Bool)
    → used ≤ limit
    → account limit used calls ≡ some (left, answers)
    → left ≤ limit
unfolding account
account-le limit used [] left answers h e = ground arith
account-le limit used (reserves n ∷ calls) left answers h e =
    go (leb (n + used) limit)
      (account limit (if leb (n + used) limit then n + used else used) calls)
      (λ l a.
        account-le limit (if leb (n + used) limit then n + used else used) calls l a (ground arith))
      e
  where
    go :
        (fits : Bool) (rest : Option (ℕ × List Bool))
        → ((l : ℕ) (a : List Bool) → rest ≡ some (l, a) → l ≤ limit)
        → answered fits rest ≡ some (left, answers)
        → left ≤ limit
    go fits none ih e = absurd (cc)
    go fits (some (l, a)) ih e = let same : l ≡ left = cc in ground (arith, ih l a refl, same)
account-le limit used (releases n ∷ calls) left answers h e =
    ground (arith, account-le limit (used - n) calls left answers)

module _ (s : Semaphore) where
  open s use {held, size}

  -- The budget after a history, with what `Reserve` returned.
  unfoldable pub run : Budget s → List Call → Option (Budget s × List Bool)
  run b [] = some (b, [])
  run b (reserves n ∷ calls) = answered (reserve s b n).1 (run (reserve s b n).0 calls)
  run b (releases n ∷ calls) = elim (release s b n) [ none ↦ none | some c ↦ run c calls ]

  abbrev pub reserved : Option (Budget s × List Bool) → Option (ℕ × List Bool)
  reserved none = none
  reserved (some (b, answers)) = some (held b.available, answers)

  reserved-answered :
      (fits : Bool) (r : Option (Budget s × List Bool))
      → reserved (answered fits r) ≡ answered fits (reserved r)
  reserved-answered fits none = refl
  reserved-answered fits (some (b, answers)) = refl

  release-none : (b : Budget s) (n : ℕ) → held b.available < n → release s b n ≡ none
  unfolding release
  release-none b n h = rw (s.release_panics b.available n h, release)

  release-some :
      (b : Budget s) (n : ℕ) (w : s.Weighted)
      → s.release b.available n ≡ some w
      → release s b n ≡ some (record b { available = w })
  unfolding release
  release-some b n w h = rw (h, release)

  reserve-size : (b : Budget s) (n : ℕ) → size (reserve s b n).0.available ≡ size b.available
  unfolding reserve
  reserve-size b n = elim (dec_lt (size b.available) (n + held b.available)) [
    | yes over ↦ rw (s.acquire_fails b.available n over)
    | no fits ↦ (s.acquire_fits b.available n (omega arith)).2
  ]

  -- A reservation that does not fit changes nothing.
  pub reserve-held :
      (b : Budget s) (n : ℕ)
      → ((reserve s b n).1 ≡ leb (n + held b.available) (size b.available))
        × (held (reserve s b n).0.available ≡ (
            if leb (n + held b.available) (size b.available)
            then n + held b.available
            else held b.available))
  unfolding reserve
  reserve-held b n = elim (dec_lt (size b.available) (n + held b.available)) [
    | yes over ↦ rw (s.acquire_fails b.available n over) (ground arith, ground arith)
    | no fits ↦
        let (yes', more, _) = s.acquire_fits b.available n (omega arith) in
        (ground arith, ground arith)
  ]

  run-account :
      (calls : List Call) (b : Budget s) (limit used : ℕ)
      → size b.available ≡ limit
      → held b.available ≡ used
      → reserved (run b calls) ≡ account limit used calls
  unfolding run account
  run-account [] b limit used h u = ground arith
  run-account (reserves n ∷ calls) b limit used h u =
      let ih =
        run-account calls (reserve s b n).0 limit (if leb (n + used) limit then n + used else used)
          (reserve-size b n ∙ h) (ground (arith, (reserve-held b n).1)) in
      let told : (reserve s b n).1 ≡ leb (n + used) limit = ground (arith, (reserve-held b n).0) in
      reserved-answered (reserve s b n).1 (run (reserve s b n).0 calls)
      ∙ (ap (answered (reserve s b n).1) ih
          ∙ ap
              (λ fits.
                answered fits
                  (account limit (if leb (n + used) limit then n + used else used) calls))
              told)
  run-account (releases n ∷ calls) b limit used h u = elim (dec_lt (held b.available) n) [
    | yes over ↦ rw (release-none b n over, run) (ground arith)
    | no fits ↦
        let (w, e, less, same) = s.release_held b.available n (omega arith) in
        let c : Budget s = record b { available = w } in
        rw (release-some b n w e, run)
          (run-account calls c limit (used - n) (same ∙ h) (ground arith) ∙ ground arith)
  ]

  -- After any history the bytes reserved are those of the account, and `Reserve` has returned whether each
  -- reservation fitted in what was left of the limit, which is never exceeded; the history panics exactly
  -- if it releases more than is reserved.
  pub run-new-account :
      (limit : ℕ) (calls : List Call)
      → (reserved (run (new_budget s limit) calls) ≡ account limit 0 calls)
        × ((b : Budget s) (answers : List Bool)
            → run (new_budget s limit) calls ≡ some (b, answers)
            → held b.available ≤ limit)
  unfolding new_budget
  run-new-account limit calls =
      let e =
        run-account calls (record { limit = limit; available = s.new_weighted limit }) limit 0
          (s.new_size limit) (s.new_held limit) in
      (
        e,
        λ b answers h.
            account-le limit 0 calls (held b.available) answers (omega arith)
              (sym e ∙ ap reserved h),
      )
