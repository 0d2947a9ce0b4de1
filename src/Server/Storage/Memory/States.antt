-- ===== src/Server/Storage/Memory/States.antt =====
-- Which states are listed.
use spectre.Prelude.{
  ℕ, ◌≤◌, ◌≡◌, refl, not, ◌&&◌, none, some, List, [], ◌∷◌, map, arith, Text, text_eq, ◌==◌, ltb,
  select, if◌then◌else◌,
}
use spectre.Prelude.Assoc.{
  lookup, insert, IsMap, lookup-insert, lookup-keep, insert-IsMap, select-IsMap,
}
use spectre.Model.{State}
use spectre.Server.Storage.{Quoting, Received, state_key, state_key_iff}
use spectre.Server.Storage.Memory.{Memory, is_stale, states, put}

select-select :
    (since later : ℕ) (m : List (Text × Received))
    → since ≤ later
    → select (λ e. not (is_stale later e)) (select (λ e. not (is_stale since e)) m)
      ≡ select (λ e. not (is_stale later e)) m
select-select since later [] h = refl
select-select since later (e ∷ m) h = ground (arith, select-select since later m h)

-- That old states are forgotten is not seen: a listing gives the same whether or not an earlier one,
-- for a time that is no later, has deleted the states that were too old for it.
pub states-states :
    (m : Memory) (since later : ℕ)
    → since ≤ later
    → (states (states m since).0 later).1 ≡ (states m later).1
unfolding states
states-states m since later h = cc (select-select since later m.states h)

module _ (q : Quoting) where
  -- A listing after a state is stored, in a store that is a map: for the service environment of the
  -- state it keeps that state, or none if it was received before `since`; for every other service
  -- environment it keeps what it would have kept before. What is listed is what is kept, and that is
  -- a map again.
  pub states-put :
      (m : Memory) (s : State) (at since : ℕ) (service environment : Text)
      → IsMap m.states
      → (lookup (state_key q service environment) (states (put q m s at) since).0.states ≡ (
          if s.service == service && s.environment == environment
          then (if ltb at since then none else some (record { state = s; at = at }))
          else lookup (state_key q service environment) (states m since).0.states))
        × ((states (put q m s at) since).1
            ≡ map (λ (e : Text × Received). e.1.state) (states (put q m s at) since).0.states)
        × IsMap (states (put q m s at) since).0.states
  unfolding states put
  states-put m s at since service environment v =
      let stored : Received = record { state = s; at = at } in
      let key = state_key q s.service s.environment in
      let k = state_key q service environment in
      let w = insert-IsMap key stored m.states v in
      (
        ground (
          arith,
          lookup-keep (λ e. not (is_stale since e)) k (insert key stored m.states) w,
          lookup-keep (λ e. not (is_stale since e)) k m.states v,
          lookup-insert key k stored m.states,
          state_key_iff q s.service service s.environment environment,
        ),
        refl,
        select-IsMap (λ e. not (is_stale since e)) (insert key stored m.states) w,
      )
