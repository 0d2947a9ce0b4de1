-- ===== src/Proxy/Calls/Laws.antt =====
-- What the counts say of a history of requests.
use spectre.Prelude.{
  ℕ, suc, ◌+◌, ◌^◌, ◌≤◌, ◌<◌, ◌≡◌, refl, none, some, List, [], ◌∷◌, arith, text_eq, ◌==◌, eq_iff,
  length, if◌then◌else◌, Option-cases, inl, inr, lt→ltb, le→ltb, dec_lt,
}
use spectre.Prelude.Assoc.{lookup, insert, IsMap, lookup-insert, insert-IsMap}
use spectre.Model.{Route, Calls}
use spectre.Proxy.Calls.{max_counted_routes, increment, new_call_counter, count, count_all}

-- How often a route was requested.
abbrev pub requests : Route → List Route → ℕ
requests route [] = 0
requests route (r ∷ rs) = if r == route then suc (requests route rs) else requests route rs

requests-le-length : (route : Route) (rs : List Route) → requests route rs ≤ length rs
requests-le-length route [] = omega arith
requests-le-length route (r ∷ rs) = ground (arith, requests-le-length route rs)

pub total : List (Route × ℕ) → ℕ
total [] = 0
total ((r, n) ∷ m) = n + total m

length-insert_new :
    (r : Route) (n : ℕ) (m : List (Route × ℕ))
    → lookup r m ≡ none
    → length (insert r n m) ≡ suc (length m)
unfolding insert lookup
length-insert_new r n [] h = refl
length-insert_new r n ((j, k) ∷ m) h = ground (arith, length-insert_new r n m)

length-insert_old :
    (r : Route) (n k : ℕ) (m : List (Route × ℕ))
    → lookup r m ≡ some k
    → length (insert r n m) ≡ length m
unfolding insert lookup
length-insert_old r n k [] h = cc
length-insert_old r n k ((j, i) ∷ m) h = ground (arith, length-insert_old r n k m)

total-insert_new :
    (r : Route) (n : ℕ) (m : List (Route × ℕ))
    → lookup r m ≡ none
    → total (insert r n m) ≡ total m + n
unfolding insert lookup total
total-insert_new r n [] h = omega arith
total-insert_new r n ((j, k) ∷ m) h = ground (arith, total-insert_new r n m)

total-insert_old :
    (r : Route) (n k : ℕ) (m : List (Route × ℕ))
    → lookup r m ≡ some k
    → total (insert r n m) + k ≡ total m + n
unfolding insert lookup total
total-insert_old r n k [] h = cc
total-insert_old r n k ((j, i) ∷ m) h = ground (arith, total-insert_old r n k m)

-- What a counter knows of the requests so far.
pub record Counts (c : Calls) (rs : List Route) : Type 0 where
  pub is_map : IsMap c.routes
  pub bounded : length c.routes ≤ max_counted_routes
  -- The count of a tracked route is exact.
  pub exact : (r : Route) (n : ℕ) → lookup r c.routes ≡ some n → n ≡ requests r rs
  -- A route is left out only by a full counter.
  pub complete :
      (r : Route)
      → length c.routes < max_counted_routes
      → lookup r c.routes ≡ none
      → requests r rs ≡ 0
  -- Nothing is lost.
  pub sum : total c.routes + c.other ≡ length rs

new-Counts : Counts new_call_counter []
unfolding new_call_counter total lookup
new-Counts = record {
  is_map = tt;
  bounded = omega arith;
  exact = λ r n h. ground (arith, h);
  complete = λ r h e. refl;
  sum = refl;
}

increment-suc : (n : ℕ) → suc n < 2 ^ 64 → increment n ≡ suc n
unfolding increment
increment-suc n h = omega arith

module _ (c : Calls) (r : Route) (rs : List Route) (v : Counts c rs)
    (small : suc (length rs) < 2 ^ 64) where
  count-old : (k : ℕ) → lookup r c.routes ≡ some k → Counts (count c r) (r ∷ rs)
  unfolding count
  count-old k e =
      let i = increment-suc k (omega (arith, v.exact r k e, requests-le-length r rs)) in
      rw (e, count)
        (rw i (record {
          is_map = insert-IsMap r (suc k) c.routes v.is_map;
          bounded = omega (arith, v.bounded, length-insert_old r (suc k) k c.routes e);
          exact = λ q n h.
              ground
                (arith, lookup-insert r q (suc k) c.routes, eq_iff r q, v.exact q n, v.exact r k e);
          complete = λ q room h. ground (
            arith,
            lookup-insert r q (suc k) c.routes,
            eq_iff r q,
            length-insert_old r (suc k) k c.routes e,
            v.complete q,
          );
          sum = omega (arith, v.sum, total-insert_old r (suc k) k c.routes e);
        }))

  count-new :
      lookup r c.routes ≡ none → length c.routes < max_counted_routes → Counts (count c r) (r ∷ rs)
  unfolding count
  count-new e room =
      let i = increment-suc 0 (omega arith) in
      let full = lt→ltb (length c.routes) max_counted_routes room in
      rw (e, count)
        (rw full (
          rw i (record {
            is_map = insert-IsMap r 1 c.routes v.is_map;
            bounded = omega (arith, length-insert_new r 1 c.routes e);
            exact = λ q n h.
                ground (
                  arith,
                  lookup-insert r q 1 c.routes,
                  eq_iff r q,
                  v.exact q n,
                  v.complete r room e,
                );
            complete = λ q less h. ground (
              arith,
              lookup-insert r q 1 c.routes,
              eq_iff r q,
              length-insert_new r 1 c.routes e,
              v.complete q room,
            );
            sum = omega (arith, v.sum, total-insert_new r 1 c.routes e);
          })))

  count-other :
      lookup r c.routes ≡ none → max_counted_routes ≤ length c.routes → Counts (count c r) (r ∷ rs)
  unfolding count
  count-other e full =
      let i = increment-suc c.other (omega (arith, v.sum)) in
      let stop = le→ltb (length c.routes) max_counted_routes full in
      rw (e, count)
        (rw stop (record {
          is_map = v.is_map;
          bounded = v.bounded;
          exact = λ q n h. ground (arith, eq_iff r q, v.exact q n h);
          complete = λ q less h. absurd (omega arith);
          sum = omega (arith, v.sum, i);
        }))

  count-Counts : Counts (count c r) (r ∷ rs)
  count-Counts = elim (Option-cases (lookup r c.routes)) [
    | inl e ↦ elim (dec_lt (length c.routes) max_counted_routes) [
      | yes room ↦ count-new e room
      | no full ↦ count-other e (omega arith)
    ]
    | inr (k, e) ↦ count-old k e
  ]

-- After any history of fewer than 2^64 requests: at most 100 routes are tracked, the count of each
-- tracked route is the number of its requests, a route is left out only when 100 are tracked, and
-- the counts with `Other` add up to the number of requests.
pub count_all-Counts : (rs : List Route) → length rs < 2 ^ 64 → Counts (count_all rs) rs
unfolding count_all
count_all-Counts [] h = new-Counts
count_all-Counts (r ∷ rs) h = count-Counts (count_all rs) r rs (count_all-Counts rs (omega arith)) h
