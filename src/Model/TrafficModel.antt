-- ===== src/Model/TrafficModel.antt =====
-- internal/model/traffic.go. `Protocol` and `Route` are strings in the source.
use spectre.Prelude.{
  Bool, true, false, ◌≡◌, ◌↔◌, ◌&&◌, ◌++◌, refl, arith, Text, text, Eq, ◌==◌, eq_iff, text_eq,
}

pub data Direction : Type 0 where
  ingress egress : Direction

abbrev pub direction_beq : Direction → Direction → Bool
direction_beq ingress ingress = true
direction_beq egress egress = true
direction_beq _ _ = false

pub direction_beq_iff : (a b : Direction) → (direction_beq a b ≡ true) ↔ (a ≡ b)
direction_beq_iff ingress ingress = (λ _. refl, λ _. refl)
direction_beq_iff ingress egress = (λ h. cc, λ h. cc)
direction_beq_iff egress ingress = (λ h. cc, λ h. cc)
direction_beq_iff egress egress = (λ _. refl, λ _. refl)

instance abbrev pub direction_eq : Eq Direction
direction_eq = record { beq = direction_beq; beq_iff = direction_beq_iff }

-- The text of the constant.
abbrev pub direction_text : Direction → Text
direction_text ingress = text "ingress"
direction_text egress = text "egress"

abbrev pub Protocol : Type 0
Protocol = Text

abbrev pub Route : Type 0
Route = Text

pub record IoKind : Type 0 where
  pub direction : Direction
  pub protocol : Protocol

-- `k == kind` on two IO kinds.
abbrev pub io_kind_beq : IoKind → IoKind → Bool
io_kind_beq a b = a.direction == b.direction && a.protocol == b.protocol

pub io_kind_beq_iff : (a b : IoKind) → (io_kind_beq a b ≡ true) ↔ (a ≡ b)
io_kind_beq_iff a b =
    let d = eq_iff a.direction b.direction in
    let p = eq_iff a.protocol b.protocol in (λ h. ground (arith, d, p), λ h. ground (arith, d, p))

instance abbrev pub io_kind_eq : Eq IoKind
io_kind_eq = record { beq = io_kind_beq; beq_iff = io_kind_beq_iff }

-- `IOKind.String`: "ingress[http]".
unfoldable pub io_kind_string : IoKind → Text
io_kind_string k = direction_text k.direction ++ (text "[" ++ (k.protocol ++ text "]"))

pub record Traffic : Type 0 where
  pub direction : Direction
  pub protocol : Protocol
  pub route : Route
