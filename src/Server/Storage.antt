-- ===== src/Server/Storage.antt =====
-- internal/server/storage/storage.go: what the backends of the server's store share. The `Store`
-- interface has one model, the memory backend; Redis is a service behind a third-party client.
pub mod Quotes
pub mod Memory
use spectre.Prelude.{
  ℕ, ◌≡◌, Bool, true, false, not, ◌||◌, ◌&&◌, ◌↔◌, Option, none, some, ◌++◌, List, Text, text,
  arith, Eq, ◌==◌, eq_iff, text_eq, ltb, refl, sym, ap, [], Bool-cases, inl, inr, ◌∙◌,
}
use spectre.Model.{Direction, direction_eq, Quarantine, State}

-- `strconv.Quote`, which a prefix parser (`strconv.QuotedPrefix`, then `Unquote`) undoes.
pub record Quoting : Type 0 where
  pub quote : Text → Text
  pub unquote : Text → Option (Text × Text)
  pub unquote-quote : (s rest : Text) → unquote (quote s ++ rest) ≡ some (s, rest)

-- `received`: a state as stored, with when the server received it.
pub record Received : Type 0 where
  pub state : State
  pub at : ℕ

-- `sourceKey`.
pub record SourceKey : Type 0 where
  pub service : Text
  pub environment : Text
  pub direction : Direction

abbrev pub source_key_beq : SourceKey → SourceKey → Bool
source_key_beq a b =
    a.service == b.service && (a.environment == b.environment && a.direction == b.direction)

pub source_key_beq_iff : (a b : SourceKey) → (source_key_beq a b ≡ true) ↔ (a ≡ b)
source_key_beq_iff a b =
    let s = eq_iff a.service b.service in
    let e = eq_iff a.environment b.environment in
    let d = eq_iff a.direction b.direction in
    (λ h. ground (arith, s, e, d), λ h. ground (arith, s, e, d))

instance abbrev pub source_key_eq : Eq SourceKey
source_key_eq = record { beq = source_key_beq; beq_iff = source_key_beq_iff }

-- `existing.Since.After(incoming.Since)`, if there is a stored quarantine.
abbrev pub began_later : Option Quarantine → Quarantine → Bool
began_later none incoming = false
began_later (some existing) incoming = ltb incoming.since existing.since

-- `!incoming.Since.After(at)`, if there was a clear.
abbrev pub began_before : Option ℕ → Quarantine → Bool
began_before none incoming = false
began_before (some at) incoming = not (ltb at incoming.since)

-- `ignored`.
unfoldable pub ignored : Option Quarantine → Option ℕ → Quarantine → Bool
ignored stored cleared incoming = began_later stored incoming || began_before cleared incoming

module _ (q : Quoting) where
  open q use {quote, unquote, unquote-quote}

  -- `stateKey`.
  unfoldable pub state_key : Text → Text → Text
  state_key service environment = quote service ++ (text " " ++ quote environment)

  -- The key is unambiguous whatever characters its parts hold.
  pub state_key-injective : (s t e f : Text) → state_key s e ≡ state_key t f → (s ≡ t) × (e ≡ f)
  unfolding state_key
  state_key-injective s t e f h = (cc first, cc (first, unquote-quote e [], unquote-quote f []))
    where
      first :
          ◌≡◌ {A = Option (Text × Text)}
            (some (s, text " " ++ quote e))
            (some (t, text " " ++ quote f))
      first =
          sym (unquote-quote s (text " " ++ quote e))
          ∙ ap unquote h
          ∙ unquote-quote t (text " " ++ quote f)

  pub state_key_iff : (s t e f : Text) → (state_key s e == state_key t f) ≡ (s == t && e == f)
  state_key_iff s t e f =
      let k = eq_iff (state_key s e) (state_key t f) in
      elim (Bool-cases (state_key s e == state_key t f)) [
        | inl same ↦
            let (p, r) = state_key-injective s t e f (k.0 same) in
            rw same (ground (arith, eq_iff s t, eq_iff e f))
        | inr apart ↦ rw apart (ground (arith, eq_iff s t, eq_iff e f, k))
      ]
