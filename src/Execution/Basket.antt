-- ===== src/Execution/Basket.antt =====
-- `BasketExecutor` (modules/execution_engine/basket_executor.py). A basket id is the caller's (`uuid4`), and
-- the log holds the writes and publications in their order; `Execution.Basket.Restore` writes them.
pub mod Submit
pub mod Laws
pub mod Asked
pub mod Outcome
pub mod Cancel
pub mod Restore
pub mod Written
pub mod Placed
pub mod Withdrawn
pub mod Kept
pub mod Opened
pub mod Mirror
pub mod Cancelled
use poly_bob.Base.{
  ℕ, zero, suc, ◌+◌, ◌-◌, ◌*◌, ◌/◌, ◌%◌, ◌≤◌, ◌<◌, ◌≡◌, refl, sym, ap, ◌∙◌, ◌≢◌, ◌↔◌, ◌⊎◌, inl, inr,
  Bool, true, false, not, ◌&&◌, ◌||◌, Option, some, none, if◌then◌else◌, arith, String, List, [],
  ◌∷◌, ◌++◌, map, append-nil, append_assoc, ◌==◌, Eq, nat_eq, string_eq, get_or, or_else, All,
  All-imp, All-append, is_some, is_empty, length, any, all, keep, count, Bool-cases, Option-cases,
  ltb, leb, length-append, found, some_pair, or_str, is_text,
}
use poly_bob.Base.Dict.{
  Dict, lookup, insert, erase, IsUnique, insert-IsUnique, lookup-insert, lookup-insert_self,
  lookup-insert_ne, lookup-erase, erase-IsUnique,
}
use poly_bob.Base.Float.{
  Floats, Float, ◌≤f◌, ◌<f◌, ◌+f◌, ◌-f◌, ◌*f◌, ◌/f◌, ◌==f◌, lit, 0f, 1f, abs, lt_asymm, ==f_iff,
}
use poly_bob.Execution.Orders.{
  OrderStatus, pending, submitted, filled, cancelled, OrderType, limit, market, ContractExecutor,
  execute_trade, cancel_trade, get_order_status,
}

pub data Venue : Type 0 where
  polymarket binance hyperliquid paper : Venue

abbrev pub venue_beq : Venue → Venue → Bool
venue_beq polymarket polymarket = true
venue_beq binance binance = true
venue_beq hyperliquid hyperliquid = true
venue_beq paper paper = true
venue_beq _ _ = false

pub venue_beq_iff : (a b : Venue) → (venue_beq a b ≡ true) ↔ (a ≡ b)
venue_beq_iff a b = ground arith

instance abbrev pub venue_eq : Eq Venue
venue_eq = record { beq = venue_beq; beq_iff = venue_beq_iff }

-- The statuses that a leg has while the process runs: of `OrderStatus` in libs/schemas, of the order
-- manager, and the two texts that this module writes.
pub data LegStatus : Type 0 where
  pending_submit rejected unavailable : LegStatus
  order : OrderStatus → LegStatus

module _ ⦃fl : Floats⦄ where
  -- A `leg_id` that is none stands for the text `{basket_id}:leg{index}`, with indices from 1.
  pub record OrderLeg : Type 0 where
    pub leg_id : Option String
    pub venue : Venue
    pub symbol : String
    pub side : String
    pub quantity : Float
    pub limit_price : Option Float
    pub status : LegStatus
    pub client_order_id : Option ℕ

  pub data BasketStatus : Type 0 where
    submitting partial_failure partial : BasketStatus
    all_submitted all_cancelled : BasketStatus

  pub record OrderBasket : Type 0 where
    pub basket_id : String
    pub parent_intent_id : String
    pub status : BasketStatus
    pub legs : List OrderLeg

  -- A leg as it is asked for; no venue is a text that names none (ValueError).
  pub record LegRequest : Type 0 where
    pub leg_id : Option String
    pub venue : Option Venue
    pub symbol : String
    pub side : String
    pub quantity : Float
    pub limit_price : Option Float

  -- Repository writes and publications.
  pub data Effect : Type 0 where
    saved : OrderBasket → Effect
    leg_saved : (basket_id : String) (index : ℕ) (leg : OrderLeg) (fill : Bool) → Effect
    status_saved : (basket_id : String) (status : BasketStatus) → Effect
    leg_updated : (basket_id : String) (status : LegStatus) (client_order_id : Option ℕ) → Effect
    basket_submitted :
        (basket_id parent_intent_id : String) (status : BasketStatus) (legs : ℕ) → Effect

  pub record BasketExecutor : Type 0 where
    pub executors : Dict Venue ContractExecutor
    pub has_repository : Bool
    pub baskets : Dict String OrderBasket
    pub log : List Effect

  -- A write goes to the repository if there is one.
  abbrev pub persist : Bool → Effect → List Effect
  persist true e = e ∷ []
  persist false e = []

  -- `"submitted" in status`, `"filled" in status` and the others, on the texts of these statuses.
  abbrev pub is_submitted : LegStatus → Bool
  is_submitted (order submitted) = true
  is_submitted _ = false

  abbrev pub is_filled : LegStatus → Bool
  is_filled (order filled) = true
  is_filled _ = false

  abbrev pub is_cancelled : LegStatus → Bool
  is_cancelled (order cancelled) = true
  is_cancelled _ = false

  abbrev pub is_rejected : LegStatus → Bool
  is_rejected rejected = true
  is_rejected _ = false

  unfoldable pub derive_status : List OrderLeg → BasketStatus
  derive_status legs =
      if not (is_empty legs) && all (λ l. is_cancelled l.status) legs
      then all_cancelled
      else if any (λ l. is_rejected l.status) legs
      then partial_failure
      else if not (is_empty legs) && all (λ l. is_submitted l.status || is_filled l.status) legs
      then all_submitted
      else partial

  -- The counts of `serialize_basket`.
  pub record Metrics : Type 0 where
    pub submitted_legs : ℕ
    pub cancelled_legs : ℕ
    pub rejected_legs : ℕ
    pub residual_legs : ℕ

  abbrev pub is_residual : LegStatus → Bool
  is_residual s = not (is_submitted s || is_cancelled s || is_filled s)

  unfoldable pub metrics : OrderBasket → Metrics
  metrics b = record {
    submitted_legs = count (λ l. is_submitted l.status) b.legs;
    cancelled_legs = count (λ l. is_cancelled l.status) b.legs;
    rejected_legs = count (λ l. is_rejected l.status) b.legs;
    residual_legs = count (λ l. is_residual l.status) b.legs;
  }
