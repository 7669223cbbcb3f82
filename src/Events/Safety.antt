-- ===== src/Events/Safety.antt =====
-- Calls on the bus: they keep its queues consistent, and a critical topic loses nothing.
use poly_bob.Base.{
  ℕ, ◌≡◌, refl, inl, inr, Bool, true, false, some, none, arith, String, List, [], ◌∷◌, ◌++◌, ◌==◌,
  nat_eq, string_eq, All, All-append, is_empty, keep, Bool-cases, Option-cases,
}
use poly_bob.Base.Dict.{lookup, insert, lookup-insert, lookup-insert_self}
use poly_bob.Events.Topics.{Topic, name, is_lossy, is_critical}
use poly_bob.Events.Subscription.{payload, Subscription, Shape, enqueue_lossless, has_room}
use poly_bob.Events.Invariant.{
  IsConsistent, fresh-IsConsistent, enqueue_lossy-IsConsistent, enqueue_lossless-IsConsistent,
}
use poly_bob.Events.View.{view, map_append}
use poly_bob.Events.Bus.{
  Subscriber, Counters, EventBus, subscribers_of, subscribe, unsubscribe, count_published,
  offer_all, put_all, publish,
}

empty_list : {A : Type 0} (xs : List A) → is_empty xs ≡ true → xs ≡ []
empty_list [] h = refl
empty_list (x ∷ xs) h = cc

critical_lossless : (t : Topic) → is_critical t ≡ true → is_lossy t ≡ false
unfolding is_critical is_lossy
critical_lossless t h = ground arith

module _ {D : Type 0} where
  abbrev pub AllConsistent : List (Subscriber D) → Type 0
  AllConsistent subs = All (λ (s : Subscriber D). IsConsistent s.sub) subs

  -- Every queue of the bus is consistent.
  abbrev pub IsSound : EventBus D → Type 0
  IsSound bus =
      (t : String) (subs : List (Subscriber D))
      → lookup t bus.subscribers ≡ some subs
      → AllConsistent subs

  pub IsSound-insert :
      (t : String) (subs : List (Subscriber D)) (bus : EventBus D)
      → AllConsistent subs
      → IsSound bus
      → IsSound (record bus { subscribers = insert t subs bus.subscribers })
  IsSound-insert t subs bus h k u found' e = elim (Bool-cases (t == u)) [
    | inl same ↦
        let e' : some subs ≡ some found' = ground (arith, lookup-insert t u subs bus.subscribers) in
        let e'' : subs ≡ found' = cc in rw (← e'') h
    | inr other ↦ k u found' (ground (arith, lookup-insert t u subs bus.subscribers))
  ]

  of_topic : (t : Topic) (bus : EventBus D) → IsSound bus → AllConsistent (subscribers_of t bus)
  of_topic t bus h = elim (Option-cases (lookup (name t) bus.subscribers)) [
    | inl e ↦ rw e tt
    | inr (subs, e) ↦ rw e (h (name t) subs e)
  ]

  -- Subscribing keeps every queue consistent.
  pub subscribe-IsSound :
      (t : Topic) (handler maxsize : ℕ) (bus : EventBus D)
      → IsSound bus
      → IsSound (subscribe t handler maxsize bus)
  unfolding subscribe
  subscribe-IsSound t handler maxsize bus h =
      IsSound-insert (name t) _ bus
        (All-append (λ (s : Subscriber D). IsConsistent s.sub) (subscribers_of t bus) _
          (of_topic t bus h) (fresh-IsConsistent _, tt))
        h

  keep-All :
      (p : Subscriber D → Bool) (subs : List (Subscriber D))
      → AllConsistent subs
      → AllConsistent (keep p subs)
  keep-All p [] h = tt
  keep-All p (s ∷ subs) h = elim (Bool-cases (p s)) [
    | inl e ↦ rw e (h.0, keep-All p subs h.1)
    | inr e ↦ rw e (keep-All p subs h.1)
  ]

  pub unsubscribe-IsSound :
      (t : Topic) (handler : ℕ) (bus : EventBus D)
      → IsSound bus
      → IsSound (unsubscribe t handler bus)
  unfolding unsubscribe
  unsubscribe-IsSound t handler bus h = elim (Option-cases (lookup (name t) bus.subscribers)) [
    | inl e ↦ rw (e, unsubscribe) h
    | inr (subs, e) ↦
        rw (e, unsubscribe) (IsSound-insert (name t) _ bus (keep-All _ subs (h (name t) subs e)) h)
  ]

  offer_all-AllConsistent :
      (shape : D → Shape) (t : String) (d : D) (subs : List (Subscriber D)) (c : Counters)
      → AllConsistent subs
      → AllConsistent (offer_all shape t d subs c).0
  unfolding offer_all
  offer_all-AllConsistent shape t d [] c h = tt
  offer_all-AllConsistent shape t d (s ∷ subs) c h =
      (enqueue_lossy-IsConsistent shape s.sub d h.0, offer_all-AllConsistent shape t d subs _ h.1)

  put_all-AllConsistent :
      (d : D) (subs subs' : List (Subscriber D))
      → AllConsistent subs
      → put_all d subs ≡ some subs'
      → AllConsistent subs'
  unfolding put_all
  put_all-AllConsistent d [] subs' h e = let e' : [] ≡ subs' = cc in rw (← e') tt
  put_all-AllConsistent d (s ∷ subs) subs' h e = elim (Option-cases (enqueue_lossless s.sub d)) [
    | inl held ↦ absurd (ground arith)
    | inr (sub, es) ↦ elim (Option-cases (put_all d subs)) [
      | inl held ↦ absurd (ground arith)
      | inr (rest, er) ↦
          let e' : record s { sub = sub } ∷ rest ≡ subs' = ground arith in
          rw (← e') (
            enqueue_lossless-IsConsistent s.sub sub d h.0 es,
            put_all-AllConsistent d subs rest h.1 er,
          )
    ]
  ]

  -- A publication that goes through is one of three: to nobody, through the lossy queues, or into
  -- every queue.
  pub data Published (shape : D → Shape) (t : Topic) (d : D) (bus bus' : EventBus D) : Type 0 where
    nobody : subscribers_of t bus ≡ [] → bus' ≡ bus → Published shape t d bus bus'
    offered :
        is_lossy t ≡ true
        → bus' ≡ (
            let (subs, c) =
              offer_all shape (name t) d (subscribers_of t bus) (count_published bus.counters) in
            record bus { subscribers = insert (name t) subs bus.subscribers; counters = c })
        → Published shape t d bus bus'
    put :
        (subs : List (Subscriber D))
        → is_lossy t ≡ false
        → put_all d (subscribers_of t bus) ≡ some subs
        → bus' ≡ record bus {
          subscribers = insert (name t) subs bus.subscribers;
          counters = count_published bus.counters;
        }
        → Published shape t d bus bus'

  pub published :
      (shape : D → Shape) (t : Topic) (d : D) (bus bus' : EventBus D)
      → publish shape t d bus ≡ some bus'
      → Published shape t d bus bus'
  unfolding publish
  published shape t d bus bus' e = elim (Bool-cases (is_empty (subscribers_of t bus))) [
    | inl none_there ↦ nobody (empty_list (subscribers_of t bus) none_there) (ground arith)
    | inr there ↦ elim (Bool-cases (is_lossy t)) [
      | inl lossy ↦ offered lossy (ground arith)
      | inr lossless ↦ elim (Option-cases (put_all d (subscribers_of t bus))) [
        | inl held ↦ absurd (ground arith)
        | inr (subs, es) ↦ put subs lossless es (ground arith)
      ]
    ]
  ]

  pub published-IsSound :
      (shape : D → Shape) (t : Topic) (d : D) (bus bus' : EventBus D)
      → IsSound bus
      → Published shape t d bus bus'
      → IsSound bus'
  published-IsSound shape t d bus bus' h (nobody _ e) = rw e h
  published-IsSound shape t d bus bus' h (offered _ e) = rw e (
      IsSound-insert (name t) _ bus
        (offer_all-AllConsistent shape (name t) d (subscribers_of t bus) _ (of_topic t bus h)) h)
  published-IsSound shape t d bus bus' h (put subs _ es e) = rw e (
      IsSound-insert (name t) subs bus
        (put_all-AllConsistent d (subscribers_of t bus) subs (of_topic t bus h) es) h)

  -- How the queues of a lossless topic grow: by the payload, at the end, and by nothing else.
  abbrev pub Grown : D → List (Subscriber D) → List (Subscriber D) → Type 0
  Grown d [] [] = Unit
  Grown d (s ∷ subs) (s' ∷ subs') =
      (s'.handler ≡ s.handler)
      × (view s'.sub ≡ view s.sub ++ (none, some d) ∷ [])
      × Grown d subs subs'
  Grown d _ _ = ⊥

  view-enqueue_lossless :
      (sub sub' : Subscription D) (d : D)
      → enqueue_lossless sub d ≡ some sub'
      → view sub' ≡ view sub ++ (none, some d) ∷ []
  unfolding enqueue_lossless
  view-enqueue_lossless sub sub' d e = elim (Bool-cases (has_room sub.maxsize sub.queue)) [
    | inr full ↦ absurd (ground arith)
    | inl room ↦
        let e' : record sub { queue = sub.queue ++ payload d ∷ [] } ≡ sub' = ground arith in
        rw (← e') (map_append sub.latest sub.queue (payload d ∷ []))
  ]

  put_all-Grown :
      (d : D) (subs subs' : List (Subscriber D)) → put_all d subs ≡ some subs' → Grown d subs subs'
  unfolding put_all
  put_all-Grown d [] subs' e = let e' : [] ≡ subs' = cc in rw (← e') tt
  put_all-Grown d (s ∷ subs) subs' e = elim (Option-cases (enqueue_lossless s.sub d)) [
    | inl held ↦ absurd (ground arith)
    | inr (sub, es) ↦ elim (Option-cases (put_all d subs)) [
      | inl held ↦ absurd (ground arith)
      | inr (rest, er) ↦
          let e' : record s { sub = sub } ∷ rest ≡ subs' = ground arith in
          rw (← e') (refl, view-enqueue_lossless s.sub sub d es, put_all-Grown d subs rest er)
    ]
  ]

  lossless_published :
      (shape : D → Shape) (t : Topic) (d : D) (bus bus' : EventBus D)
      → is_lossy t ≡ false
      → Published shape t d bus bus'
      → Grown d (subscribers_of t bus) (subscribers_of t bus')
        × (bus'.counters.dropped ≡ bus.counters.dropped)
        × (bus'.counters.coalesced ≡ bus.counters.coalesced)
  lossless_published shape t d bus bus' l (nobody n e) = rw (e, n) (tt, refl, refl)
  lossless_published shape t d bus bus' l (offered lossy e) = absurd (cc)
  lossless_published shape t d bus bus' l (put subs _ es e) =
      rw (e, lookup-insert_self (name t) subs bus.subscribers)
        (put_all-Grown d (subscribers_of t bus) subs es, refl, refl)

  -- On a critical topic a publication that goes through puts the payload at the end of every
  -- subscriber's queue and changes nothing else in it, and drops and coalesces nothing.
  pub publish_critical :
      (shape : D → Shape) (t : Topic) (d : D) (bus bus' : EventBus D)
      → is_critical t ≡ true
      → publish shape t d bus ≡ some bus'
      → Grown d (subscribers_of t bus) (subscribers_of t bus')
        × (bus'.counters.dropped ≡ bus.counters.dropped)
        × (bus'.counters.coalesced ≡ bus.counters.coalesced)
  publish_critical shape t d bus bus' c e =
      lossless_published shape t d bus bus' (critical_lossless t c) (published shape t d bus bus' e)
