-- ===== src/Events/Bus.antt =====
-- The bus over its subscriptions (libs/events/__init__.py): `subscribe`, `unsubscribe`, `publish`,
-- the counters, and the rounds of the consumer tasks. A handler is named by a number; whether it
-- answers or raises is a parameter of a round. Locks, tasks and the event loop are the runtime's.
use poly_bob.Base.{
  ℕ, zero, suc, ◌+◌, Bool, false, not, Option, some, none, if◌then◌else◌, String, List, [], ◌∷◌,
  ◌++◌, ◌==◌, nat_eq, string_eq, get_or, is_empty, all, keep,
}
use poly_bob.Base.Dict.{Dict, lookup, insert}
use poly_bob.Events.Topics.{Topic, name, is_lossy}
use poly_bob.Events.Subscription.{
  Subscription, fresh, idle, Shape, Outcome, coalesced, queued, enqueue_lossy, enqueue_lossless,
  dequeue,
}

pub record Subscriber (D : Type 0) : Type 0 where
  pub handler : ℕ
  pub sub : Subscription D

-- `stats()`: the counters, without the queue depths.
pub record Counters : Type 0 where
  pub published : ℕ
  pub delivered : ℕ
  pub handler_errors : Dict String ℕ
  pub dropped : Dict String ℕ
  pub coalesced : Dict String ℕ

pub record EventBus (D : Type 0) : Type 0 where
  pub default_maxsize : ℕ
  pub subscribers : Dict String (List (Subscriber D))
  pub counters : Counters

-- `d[topic] = d.get(topic, 0) + n`, where no key is made for nothing.
abbrev pub add_count : String → ℕ → Dict String ℕ → Dict String ℕ
add_count topic zero d = d
add_count topic (suc n) d = insert topic (get_or (lookup topic d) 0 + suc n) d

abbrev pub counted : String → Outcome → Counters → Counters
counted topic coalesced c = record c { coalesced = add_count topic 1 c.coalesced }
counted topic (queued drops) c = record c { dropped = add_count topic drops c.dropped }

abbrev pub count_published : Counters → Counters
count_published c = record c { published = c.published + 1 }

module _ {D : Type 0} where
  abbrev pub subscribers_of : Topic → EventBus D → List (Subscriber D)
  subscribers_of topic bus = get_or (lookup (name topic) bus.subscribers) []

  -- `maxsize or default`
  unfoldable pub subscribe : Topic → (handler : ℕ) (maxsize : ℕ) → EventBus D → EventBus D
  subscribe topic handler maxsize bus = record bus {
    subscribers =
        insert (name topic)
          (subscribers_of topic bus
            ++ record {
              handler = handler;
              sub = fresh (if maxsize == 0 then bus.default_maxsize else maxsize);
            }
              ∷ [])
          bus.subscribers;
  }

  -- Every subscription of the handler; a topic with no list is left without one.
  unfoldable pub unsubscribe : Topic → (handler : ℕ) → EventBus D → EventBus D
  unsubscribe topic handler bus = elim (lookup (name topic) bus.subscribers) [
    | none ↦ bus
    | some subs ↦ record bus {
      subscribers =
          insert (name topic) (keep (λ s. not (s.handler == handler)) subs) bus.subscribers;
    }
  ]

  -- The loop of `publish` on a lossy topic.
  unfoldable pub offer_all :
      (D → Shape) → String → D → List (Subscriber D) → Counters → List (Subscriber D) × Counters
  offer_all shape topic data' [] c = ([], c)
  offer_all shape topic data' (s ∷ subs) c =
      let (sub, outcome) = enqueue_lossy shape s.sub data' in
      let (rest, c') = offer_all shape topic data' subs (counted topic outcome c) in
      (record s { sub = sub } ∷ rest, c')

  -- The loop on any other topic, as far as it goes without waiting; `none` is a producer that waits.
  unfoldable pub put_all : D → List (Subscriber D) → Option (List (Subscriber D))
  put_all data' [] = some []
  put_all data' (s ∷ subs) = elim (enqueue_lossless s.sub data') [
    | none ↦ none
    | some sub ↦ elim (put_all data' subs) [
      | none ↦ none
      | some rest ↦ some (record s { sub = sub } ∷ rest)
    ]
  ]

  -- `publish`; `none` is a producer that some full queue holds up.
  unfoldable pub publish : (D → Shape) → Topic → D → EventBus D → Option (EventBus D)
  publish shape topic data' bus =
      let subs = subscribers_of topic bus in
      if is_empty subs
      then some bus
      else if is_lossy topic
      then (let (subs', c) =
            offer_all shape (name topic) data' subs (count_published bus.counters) in
          some
            (record bus { subscribers = insert (name topic) subs' bus.subscribers; counters = c }))
      else elim (put_all data' subs) [
        | none ↦ none
        | some subs' ↦ some (record bus {
          subscribers = insert (name topic) subs' bus.subscribers;
          counters = count_published bus.counters;
        })
      ]

  -- One round of `_consume` for one subscriber: the handler gets the payload and answers or raises.
  unfoldable pub consume :
      (Option D → Bool) → String → Subscription D → Counters → Option (Subscription D × Counters)
  consume handler topic sub c = elim (dequeue sub) [
    | none ↦ none
    | some (sub', data') ↦ some (
      record sub' { busy = false },
      if handler data'
          then record c { delivered = c.delivered + 1 }
          else record c { handler_errors = add_count topic 1 c.handler_errors },
    )
  ]

  -- The test of `drain`.
  unfoldable pub is_drained : EventBus D → Bool
  is_drained bus = all (λ e. all (λ s. idle s.sub) e.1) bus.subscribers
