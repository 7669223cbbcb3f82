-- ===== src/Events/Steps.antt =====
-- Steps of the bus (libs/events/__init__.py): what a sequence of them leaves, and what a consumer's
-- round counts.
use poly_bob.Base.{
  ℕ, ◌+◌, ◌≡◌, inl, inr, Bool, true, false, Option, some, arith, String, List, [], ◌∷◌, ◌++◌,
  nat_eq, string_eq, get_or, All-append, Option-cases,
}
use poly_bob.Base.Dict.{lookup, insert, lookup-insert_self}
use poly_bob.Events.Topics.{Topic, name}
use poly_bob.Events.Subscription.{Subscription, Shape, dequeue}
use poly_bob.Events.Invariant.{IsConsistent}
use poly_bob.Events.View.{view, dequeue-refines}
use poly_bob.Events.Bus.{Subscriber, Counters, EventBus, subscribe, unsubscribe, publish, consume}
use poly_bob.Events.Safety.{
  AllConsistent, IsSound, IsSound-insert, subscribe-IsSound, unsubscribe-IsSound, published,
  published-IsSound,
}

module _ {D : Type 0} where
  -- What can happen to a bus: a subscription, its end, a publication, and a round of a consumer, whose
  -- handler may raise.
  pub data Step (shape : D → Shape) (bus : EventBus D) : EventBus D → Type 0 where
    subscribed :
        (t : Topic) (handler maxsize : ℕ) → Step shape bus (subscribe t handler maxsize bus)
    unsubscribed : (t : Topic) (handler : ℕ) → Step shape bus (unsubscribe t handler bus)
    publishes :
        (t : Topic) (d : D) (bus' : EventBus D)
        → publish shape t d bus ≡ some bus'
        → Step shape bus bus'
    consumes :
        (t : Topic) (handle : Option D → Bool) (before after : List (Subscriber D))
        (s : Subscriber D) (sub : Subscription D) (c : Counters)
        → lookup (name t) bus.subscribers ≡ some (before ++ s ∷ after)
        → consume handle (name t) s.sub bus.counters ≡ some (sub, c)
        → Step shape bus (record bus {
          subscribers = insert (name t) (before ++ record s { sub = sub } ∷ after) bus.subscribers;
          counters = c;
        })

  pub data Reach (shape : D → Shape) (bus : EventBus D) : EventBus D → Type 0 where
    here : Reach shape bus bus
    next : {b c : EventBus D} → Reach shape bus b → Step shape b c → Reach shape bus c

  All-cut :
      (before after : List (Subscriber D)) (s : Subscriber D)
      → AllConsistent (before ++ s ∷ after)
      → AllConsistent before × IsConsistent s.sub × AllConsistent after
  All-cut [] after s h = (tt, h.0, h.1)
  All-cut (b ∷ before) after s h = let (x, y, z) = All-cut before after s h.1 in ((h.0, x), y, z)

  consume-IsConsistent :
      (handle : Option D → Bool) (t : String) (sub sub' : Subscription D) (c c' : Counters)
      → IsConsistent sub
      → consume handle t sub c ≡ some (sub', c')
      → IsConsistent sub'
  unfolding consume
  consume-IsConsistent handle t sub sub' c c' v e = elim (Option-cases (dequeue sub)) [
    | inl waits ↦ absurd (ground arith)
    | inr ((taken, o), es) ↦
        let e' : record taken { busy = false } ≡ sub' = ground arith in
        let (_, _, _, _, w) = dequeue-refines sub taken o v es in
        rw (← e')
          (record { distinct = w.distinct; pending = w.pending; latest = w.latest; fits = w.fits })
  ]

  -- One round of a consumer of a consistent queue hands the handler the payload that stands first in
  -- the queue, and counts a delivery if the handler answers, and an error of its topic if it raises.
  pub consume_counts :
      (handle : Option D → Bool) (t : String) (sub sub' : Subscription D) (c c' : Counters)
      → IsConsistent sub
      → consume handle t sub c ≡ some (sub', c')
      → (k : Option String) × (d : D) × (view sub ≡ (k, some d) ∷ view sub')
        × (handle (some d) ≡ true
            → (c'.delivered ≡ c.delivered + 1) × (c'.handler_errors ≡ c.handler_errors))
        × (handle (some d) ≡ false
            → (c'.delivered ≡ c.delivered)
              × (lookup t c'.handler_errors ≡ some (get_or (lookup t c.handler_errors) 0 + 1)))
  unfolding consume
  consume_counts handle t sub sub' c c' v e = elim (Option-cases (dequeue sub)) [
    | inl waits ↦ absurd (ground arith)
    | inr ((taken, o), es) ↦
        let (k, d, eo, ev, _) = dequeue-refines sub taken o v es in
        let e' : record taken { busy = false } ≡ sub' = ground arith in
        (
          k,
          d,
          rw (← e') ev,
          (λ h. ground arith),
          (λ h. ground (
            arith,
            lookup-insert_self t (get_or (lookup t c.handler_errors) 0 + 1) c.handler_errors,
          )),
        )
  ]

  -- Every step of the bus keeps all its queues consistent.
  Step-IsSound : (shape : D → Shape) {b c : EventBus D} → IsSound b → Step shape b c → IsSound c
  Step-IsSound shape {b} h (subscribed t handler maxsize) = subscribe-IsSound t handler maxsize b h
  Step-IsSound shape {b} h (unsubscribed t handler) = unsubscribe-IsSound t handler b h
  Step-IsSound shape {b} h (publishes t d bus' e) =
      published-IsSound shape t d b bus' h (published shape t d b bus' e)
  Step-IsSound shape {b} h (consumes t handle before after s sub c e er) =
      let (x, y, z) = All-cut before after s (h (name t) _ e) in
      IsSound-insert (name t) _ b
        (All-append (λ (s : Subscriber D). IsConsistent s.sub) before _ x
          (consume-IsConsistent handle (name t) s.sub sub b.counters c y er, z))
        h

  -- From a bus with no subscriber, every sequence of steps leaves all queues consistent: no queue is
  -- longer than its bound, no key waits twice, and the two dictionaries hold exactly the keys that wait.
  pub Reach-IsSound :
      (shape : D → Shape) {b c : EventBus D} → b.subscribers ≡ [] → Reach shape b c → IsSound c
  unfolding lookup
  Reach-IsSound shape e here = λ t subs h. absurd (ground arith)
  Reach-IsSound shape e (next r st) = Step-IsSound shape (Reach-IsSound shape e r) st
