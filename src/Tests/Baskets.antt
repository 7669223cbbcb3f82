-- ===== src/Tests/Baskets.antt =====
-- Baskets over their repository, on concrete values. The JSON of a basket is the basket.
use poly_bob.Base.{◌≡◌, refl, Option, some, none, if◌then◌else◌, nat_eq, string_eq, [], ◌∷◌}
use poly_bob.Base.Dict.{lookup, Dict}
use poly_bob.Execution.Orders.{ContractExecutor}
use poly_bob.Execution.Basket.{Venue, venue_eq, paper, OrderLeg, OrderBasket}
use poly_bob.Execution.Basket.Restore.{restore_state, BasketDesk, submit_stored, cancel_stored}
use poly_bob.Execution.Basket.Written.{is_known}
use poly_bob.Execution.Basket.Mirror.{
  new_executor, Reached, begun, submitting_one, cancelling_one, restore_basket_roundtrip,
}
use poly_bob.Tests.Samples.{fixed_floats}
use poly_bob.Tests.Orders.{executor, two_legs}

abbrev whole_basket : OrderBasket → OrderBasket
whole_basket b = b

abbrev whole_leg : OrderLeg → OrderLeg
whole_leg l = l

abbrev read_basket : OrderBasket → Option OrderBasket
read_basket b = some b

abbrev read_leg : OrderLeg → Option OrderLeg
read_leg l = if is_known l.status then some l else none

abbrev venues : Dict Venue ContractExecutor
venues = (paper, executor) ∷ []

abbrev opened : BasketDesk whole_basket whole_leg read_basket read_leg
opened = record { executor = new_executor venues; rows = [] }

abbrev submitted : BasketDesk whole_basket whole_leg read_basket read_leg
submitted = submit_stored whole_basket whole_leg read_basket read_leg 5 "b1" "i1" two_legs opened

abbrev over : BasketDesk whole_basket whole_leg read_basket read_leg
over = cancel_stored whole_basket whole_leg read_basket read_leg 9 "b1" submitted

new_id : lookup "b1" opened.rows ≡ none
unfolding lookup
new_id = refl

over_reached : Reached whole_basket whole_leg read_basket read_leg over
over_reached =
    cancelling_one submitted 9 "b1"
      (submitting_one opened 5 "b1" "i1" two_legs (begun venues) new_id)

restore_basket_roundtrip_example :
    lookup "b1"
      (restore_state whole_basket whole_leg read_basket read_leg over.rows
        (new_executor venues)).baskets
    ≡ lookup "b1" over.executor.baskets
restore_basket_roundtrip_example =
    restore_basket_roundtrip whole_basket whole_leg read_basket read_leg (λ l. refl) (λ b new. refl)
      over over_reached venues "b1"
