-- ===== src/Tests/Topics.antt =====
-- A bus with one subscriber of a lossy topic and one of a critical topic; payloads are texts that are
-- their own key.
use poly_bob.Base.{
  ◌+◌, ◌≡◌, refl, Bool, true, false, Option, some, none, String, [], ◌∷◌, nat_eq, string_eq, get_or,
}
use poly_bob.Base.Dict.{lookup, insert, erase}
use poly_bob.Events.Topics.{fill_update, name, is_critical, is_lossy}
use poly_bob.Events.Subscription.{
  payload, Field, asset_id, Shape, dict, coalesce_key, Subscription, fresh, enqueue_lossy,
  enqueue_lossless, enqueue_keyed, enqueue_new, make_room, dequeue,
}
use poly_bob.Events.Bus.{
  Subscriber, Counters, EventBus, subscribers_of, subscribe, publish, consume,
}
use poly_bob.Events.Invariant.{IsConsistent, fresh-IsConsistent, enqueue_lossy-IsConsistent}
use poly_bob.Events.View.{view, offer, enqueue_lossy-refines, dequeue-refines}
use poly_bob.Events.Steps.{consume_counts, subscribed, publishes, here, next, Reach-IsSound}
use poly_bob.Events.Safety.{IsSound, Grown, publish_critical}

abbrev by_asset : String → Field → Option String
by_asset s asset_id = some s
by_asset s _ = none

abbrev as_dict : String → Shape
as_dict s = dict (by_asset s)

-- A queue of at most one item, in which "a" waits.
abbrev one_queued : Subscription String
one_queued = (enqueue_lossy as_dict (fresh 1) "a").0

one_queued-IsConsistent : IsConsistent one_queued
one_queued-IsConsistent = enqueue_lossy-IsConsistent as_dict (fresh 1) "a" (fresh-IsConsistent 1)

-- The full queue drops "a" for "b".
enqueue_lossy-refines_example :
    view (enqueue_lossy as_dict one_queued "b").0
    ≡ offer one_queued.maxsize (coalesce_key (as_dict "b")) "b" (view one_queued)
enqueue_lossy-refines_example = enqueue_lossy-refines as_dict one_queued "b" one_queued-IsConsistent

abbrev emptied : Subscription String
emptied = record { maxsize = 1; queue = []; latest = []; pending_keys = []; busy = true }

takes_a : dequeue one_queued ≡ some (emptied, some "a")
unfolding dequeue enqueue_lossy enqueue_keyed enqueue_new make_room coalesce_key fresh lookup insert
    erase
takes_a = refl

dequeue-refines_example :
    (k : Option String) × (d : String) × (some "a" ≡ some d)
    × (view one_queued ≡ (k, some d) ∷ view emptied)
    × IsConsistent emptied
dequeue-refines_example =
    dequeue-refines one_queued emptied (some "a") one_queued-IsConsistent takes_a

abbrev no_counts : Counters
no_counts = record {
  published = 0;
  delivered = 0;
  handler_errors = [];
  dropped = [];
  coalesced = [];
}

abbrev raises : Option String → Bool
raises o = false

abbrev one_error : Counters
one_error = record no_counts { handler_errors = ("marketdata.bbo", 1) ∷ [] }

raises_a :
    consume raises "marketdata.bbo" one_queued no_counts
    ≡ some (record emptied { busy = false }, one_error)
unfolding consume dequeue enqueue_lossy enqueue_keyed enqueue_new make_room coalesce_key fresh
    lookup insert erase
raises_a = refl

consume_counts_example :
    (k : Option String) × (d : String) × (view one_queued
      ≡ (k, some d) ∷ view (record emptied { busy = false }))
    × (raises (some d) ≡ true
        → (one_error.delivered ≡ no_counts.delivered + 1)
          × (one_error.handler_errors ≡ no_counts.handler_errors))
    × (raises (some d) ≡ false
        → (one_error.delivered ≡ no_counts.delivered)
          × (lookup "marketdata.bbo" one_error.handler_errors
              ≡ some (get_or (lookup "marketdata.bbo" no_counts.handler_errors) 0 + 1)))
consume_counts_example =
    consume_counts raises "marketdata.bbo" one_queued (record emptied { busy = false }) no_counts
      one_error one_queued-IsConsistent raises_a

abbrev quiet : EventBus String
quiet = record { default_maxsize = 8; subscribers = []; counters = no_counts }

abbrev listening : EventBus String
listening = subscribe fill_update 1 2 quiet

abbrev told : EventBus String
told = record {
  default_maxsize = 8;
  subscribers =
      (
        "orders.fills",
        record {
          handler = 1;
          sub = record {
            maxsize = 2;
            queue = payload "f" ∷ [];
            latest = [];
            pending_keys = [];
            busy = false;
          };
        }
            ∷ [],
      )
      ∷ [];
  counters = record no_counts { published = 1 };
}

tells : publish as_dict fill_update "f" listening ≡ some told
unfolding publish subscribe is_lossy name poly_bob.Events.Bus.put_all enqueue_lossless fresh lookup
    insert
tells = refl

publish_critical_example :
    Grown "f" (subscribers_of fill_update listening) (subscribers_of fill_update told)
    × (told.counters.dropped ≡ listening.counters.dropped)
    × (told.counters.coalesced ≡ listening.counters.coalesced)
unfolding is_critical
publish_critical_example = publish_critical as_dict fill_update "f" listening told refl tells

Reach-IsSound_example : IsSound told
Reach-IsSound_example = Reach-IsSound as_dict {b = quiet} {c = told} refl (
    next {b = listening} (next {b = quiet} here (subscribed fill_update 1 2))
      (publishes fill_update "f" told tells))
