-- ===== src/Events/View.antt =====
-- What a subscriber is promised of a lossy topic: a queue that keeps, for each key, the latest
-- payload in the place of the first, and that drops from the front when it is full. The two
-- dictionaries and the marked items of `_Subscription` implement it.
use poly_bob.Base.{
  ℕ, suc, ◌+◌, ◌≡◌, refl, sym, ap, ◌∙◌, inl, inr, Bool, true, false, ◌||◌, Option, some, none,
  if◌then◌else◌, arith, String, List, [], ◌∷◌, ◌++◌, map, ◌==◌, nat_eq, string_eq, length,
  Bool-cases, ltb, found, some_pair,
}
use poly_bob.Base.Dict.{
  Dict, lookup, insert, erase, IsUnique, insert-IsUnique, lookup-insert, lookup-insert_self,
  lookup-erase, erase-IsUnique,
}
use mathlib.Core.Path.{ap₂}
use poly_bob.Events.Subscription.{
  Item, key, payload, Subscription, Shape, coalesce_key, has_room, forget, make_room, is_pending,
  enqueue_new, enqueue_keyed, enqueue_lossy, dequeue_from, dequeue,
}
use poly_bob.Events.Invariant.{
  has_key, IsDistinct, Covers, IsConsistent, Fits, IsDistinct-tail, Covers-forget, IsDistinct-left,
  IsDistinct-right, has_key-append, new-IsDistinct,
}

-- A waiting payload with its key; the payload is there unless the queue is inconsistent.
abbrev pub Entry : Type 0 → Type 0
Entry D = Option String × Option D

module _ {D : Type 0} where
  abbrev pub entry : Dict String D → Item D → Entry D
  entry latest (key k) = (some k, lookup k latest)
  entry latest (payload d) = (none, some d)

  abbrev pub view : Subscription D → List (Entry D)
  view sub = map (entry sub.latest) sub.queue

  abbrev pub waits : String → List (Entry D) → Bool
  waits k [] = false
  waits k ((some j, _) ∷ q) = k == j || waits k q
  waits k ((none, _) ∷ q) = waits k q

  -- The specification: the payload of the key is replaced in its place.
  abbrev pub replace : String → D → List (Entry D) → List (Entry D)
  replace k d [] = []
  replace k d ((some j, x) ∷ q) = (some j, if k == j then some d else x) ∷ replace k d q
  replace k d ((none, x) ∷ q) = (none, x) ∷ replace k d q

  -- The specification: from the front, until one more fits.
  abbrev pub drop_front : ℕ → List (Entry D) → List (Entry D)
  drop_front maxsize [] = []
  drop_front maxsize (e ∷ q) =
      let rest = drop_front maxsize q in
      if maxsize == 0 || ltb (length (e ∷ q)) maxsize then e ∷ q else rest

  abbrev pub offer : ℕ → Option String → D → List (Entry D) → List (Entry D)
  offer maxsize none d q = drop_front maxsize q ++ (none, some d) ∷ []
  offer maxsize (some k) d q =
      if waits k q then replace k d q else drop_front maxsize q ++ (some k, some d) ∷ []

  length_view :
      (latest : Dict String D) (queue : List (Item D))
      → length (map (entry latest) queue) ≡ length queue
  length_view latest [] = refl
  length_view latest (x ∷ queue) = ap suc (length_view latest queue)

  waits_view :
      (k : String) (latest : Dict String D) (queue : List (Item D))
      → waits k (map (entry latest) queue) ≡ has_key k queue
  waits_view k latest [] = refl
  waits_view k latest (key j ∷ queue) = ground (arith, waits_view k latest queue)
  waits_view k latest (payload _ ∷ queue) = waits_view k latest queue

  replace_view :
      (k : String) (d : D) (latest : Dict String D) (queue : List (Item D))
      → map (entry (insert k d latest)) queue ≡ replace k d (map (entry latest) queue)
  replace_view k d latest [] = refl
  replace_view k d latest (key j ∷ queue) =
      ground (arith, replace_view k d latest queue, lookup-insert k j d latest)
  replace_view k d latest (payload _ ∷ queue) = ground (arith, replace_view k d latest queue)

  erase_view :
      (k : String) (latest : Dict String D) (queue : List (Item D))
      → IsUnique latest
      → has_key k queue ≡ false
      → map (entry (erase k latest)) queue ≡ map (entry latest) queue
  erase_view k latest [] u h = refl
  erase_view k latest (key j ∷ queue) u h =
      ground (arith, erase_view k latest queue u, lookup-erase k j latest u)
  erase_view k latest (payload _ ∷ queue) u h = ground (arith, erase_view k latest queue u)

  insert_view :
      (k : String) (d : D) (latest : Dict String D) (queue : List (Item D))
      → has_key k queue ≡ false
      → map (entry (insert k d latest)) queue ≡ map (entry latest) queue
  insert_view k d latest [] h = refl
  insert_view k d latest (key j ∷ queue) h =
      ground (arith, insert_view k d latest queue, lookup-insert k j d latest)
  insert_view k d latest (payload _ ∷ queue) h = ground (arith, insert_view k d latest queue)

  forget_view :
      (old : Item D) (latest : Dict String D) (queue : List (Item D))
      → IsUnique latest
      → IsDistinct (old ∷ queue)
      → map (entry (forget old latest)) queue ≡ map (entry latest) queue
  forget_view (key k) latest queue u h = erase_view k latest queue u h.0
  forget_view (payload _) latest queue u h = refl

  forget-IsUnique :
      (old : Item D) (latest : Dict String D) → IsUnique latest → IsUnique (forget old latest)
  forget-IsUnique (key k) latest u = erase-IsUnique k latest u
  forget-IsUnique (payload _) latest u = u

  pub map_append :
      (latest : Dict String D) (xs ys : List (Item D))
      → map (entry latest) (xs ++ ys) ≡ map (entry latest) xs ++ map (entry latest) ys
  map_append latest [] ys = refl
  map_append latest (x ∷ xs) ys = ap (λ q. entry latest x ∷ q) (map_append latest xs ys)

  has_key_right :
      (k : String) (xs ys : List (Item D)) → has_key k (xs ++ ys) ≡ false → has_key k ys ≡ false
  has_key_right k xs ys h = ground (arith, has_key-append k xs ys)

  old_rest :
      (old : Item D) (xs ys : List (Item D)) → IsDistinct (old ∷ xs ++ ys) → IsDistinct (old ∷ ys)
  old_rest (key k) xs ys h = (has_key_right k xs ys h.0, IsDistinct-right xs ys h.1)
  old_rest (payload _) xs ys h = IsDistinct-right xs ys h

  -- The loop drops from the front of the view. `rest` is what will be put behind it.
  make_room_view :
      (maxsize : ℕ) (queue rest : List (Item D)) (latest : Dict String D)
      (pending : Dict String (Unit {0})) (drops : ℕ)
      → IsUnique latest
      → IsDistinct (queue ++ rest)
      → let room = make_room maxsize queue latest pending drops in
        map (entry room.latest) (room.kept ++ rest)
        ≡ drop_front maxsize (map (entry latest) queue) ++ map (entry latest) rest
  unfolding make_room
  make_room_view maxsize [] rest latest pending drops u h = refl
  make_room_view maxsize (old ∷ queue) rest latest pending drops u h =
      elim (Bool-cases (has_room maxsize (old ∷ queue))) [
        | inl room ↦
            rw (room, length_view latest queue, room) (map_append latest (old ∷ queue) rest)
        | inr full ↦
            rw (full, length_view latest queue, full)
              (make_room_view maxsize queue rest (forget old latest) (forget old pending)
                  (drops + 1) (forget-IsUnique old latest u) (IsDistinct-tail old (queue ++ rest) h)
                ∙ ap₂ (λ a b. drop_front maxsize a ++ b)
                    (forget_view old latest queue u (IsDistinct-left (old ∷ queue) rest h))
                    (forget_view old latest rest u (old_rest old queue rest h)))
      ]

  kept_latest :
      (k : String) (sub : Subscription D)
      → IsConsistent sub
      → is_pending (some k) sub ≡ waits k (view sub)
  kept_latest k sub v = v.pending.1 k ∙ sym (waits_view k sub.latest sub.queue)

  new_view :
      (k : Option String) (d : D) (sub : Subscription D)
      → IsConsistent sub
      → is_pending k sub ≡ false
      → view (enqueue_new sub k d).0 ≡ drop_front sub.maxsize (view sub) ++ (k, some d) ∷ []
  unfolding enqueue_new
  new_view none d sub v h =
      make_room_view sub.maxsize sub.queue (payload d ∷ []) sub.latest sub.pending_keys 0 v.latest.0
        (new-IsDistinct none d sub v h)
  new_view (some k) d sub v h =
      make_room_view sub.maxsize sub.queue (key k ∷ []) (insert k d sub.latest) sub.pending_keys 0
        (insert-IsUnique k d sub.latest v.latest.0) (new-IsDistinct (some k) d sub v h)
      ∙ ap₂ (λ a b. drop_front sub.maxsize a ++ (some k, b) ∷ [])
          (insert_view k d sub.latest sub.queue (sym (v.pending.1 k) ∙ h))
          (lookup-insert_self k d sub.latest)

  keyed_view :
      (k : Option String) (d : D) (sub : Subscription D)
      → IsConsistent sub
      → view (enqueue_keyed sub k d).0 ≡ offer sub.maxsize k d (view sub)
  unfolding enqueue_keyed
  keyed_view none d sub v = new_view none d sub v refl
  keyed_view (some k) d sub v = elim (Bool-cases (is_pending (some k) sub)) [
    | inl old ↦ rw (old, sym (kept_latest k sub v) ∙ old) (replace_view k d sub.latest sub.queue)
    | inr new ↦ rw (new, sym (kept_latest k sub v) ∙ new) (new_view (some k) d sub v new)
  ]

  -- On a consistent queue the lossy enqueue is the specification's `offer` on what waits: a payload
  -- whose key waits replaces the one there, in its place; any other drops from the front until it
  -- fits and goes to the end.
  pub enqueue_lossy-refines :
      (shape : D → Shape) (sub : Subscription D) (d : D)
      → IsConsistent sub
      → view (enqueue_lossy shape sub d).0 ≡ offer sub.maxsize (coalesce_key (shape d)) d (view sub)
  unfolding enqueue_lossy
  enqueue_lossy-refines shape sub d v = keyed_view (coalesce_key (shape d)) d sub v

  abbrev Took : List (Item D) → Subscription D → Type 0
  Took queue sub =
      (sub' : Subscription D) × (k : Option String) × (d : D) × (dequeue_from queue sub
        ≡ some (sub', some d))
      × (map (entry sub.latest) queue ≡ (k, some d) ∷ view sub')
      × IsConsistent sub'

  fits_rest :
      (maxsize : ℕ) (x : Item D) (queue : List (Item D))
      → Fits maxsize (x ∷ queue)
      → Fits maxsize queue
  fits_rest maxsize x queue (inl e) = inl e
  fits_rest maxsize x queue (inr h) = inr (omega arith)

  has_latest :
      (k : String) (queue : List (Item D)) (latest : Dict String D)
      → Covers latest (key k ∷ queue)
      → (d : D) × (lookup k latest ≡ some d)
  has_latest k queue latest c =
      found (lookup k latest) (ground (arith, c.1 k, string_eq.beq_iff k k))

  took :
      (x : Item D) (queue : List (Item D)) (sub : Subscription D)
      → IsConsistent (record sub { queue = x ∷ queue })
      → Took (x ∷ queue) sub
  took (key k) queue sub v =
      let (d, e) = has_latest k queue sub.latest v.latest in
      (
        record sub {
          queue = queue;
          pending_keys = erase k sub.pending_keys;
          latest = erase k sub.latest;
          busy = true;
        },
        some k,
        d,
        rw e,
        rw (e, erase_view k sub.latest queue v.latest.0 v.distinct.0),
        record {
          distinct = v.distinct.1;
          pending = Covers-forget (key k) queue sub.pending_keys v.distinct v.pending;
          latest = Covers-forget (key k) queue sub.latest v.distinct v.latest;
          fits = fits_rest sub.maxsize (key k) queue v.fits;
        },
      )
  took (payload d) queue sub v = (
    record sub { queue = queue; busy = true },
    none,
    d,
    refl,
    refl,
    record {
      distinct = v.distinct;
      pending = v.pending;
      latest = v.latest;
      fits = fits_rest sub.maxsize (payload d) queue v.fits;
    },
  )

  took_all :
      (queue : List (Item D)) (sub sub' : Subscription D) (o : Option D)
      → IsConsistent (record sub { queue = queue })
      → dequeue_from queue sub ≡ some (sub', o)
      → (k : Option String) × (d : D) × (o ≡ some d)
        × (map (entry sub.latest) queue ≡ (k, some d) ∷ view sub')
        × IsConsistent sub'
  took_all [] sub sub' o v h = absurd (cc)
  took_all (x ∷ queue) sub sub' o v h =
      let (s, k, d, e, w, c) = took x queue sub v in
      let (es, eo) = some_pair (sym e ∙ h) in (k, d, sym eo, rw (← es) w, rw (← es) c)

  -- Taking an item off a consistent queue hands the handler a payload, never None: the one that
  -- stands first in the view. What stays in the view is the rest, and the queue stays consistent.
  pub dequeue-refines :
      (sub sub' : Subscription D) (o : Option D)
      → IsConsistent sub
      → dequeue sub ≡ some (sub', o)
      → (k : Option String) × (d : D) × (o ≡ some d)
        × (view sub ≡ (k, some d) ∷ view sub')
        × IsConsistent sub'
  unfolding dequeue
  dequeue-refines sub sub' o v h = took_all sub.queue sub sub' o v h
