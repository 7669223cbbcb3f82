-- ===== src/Events/Invariant.antt =====
-- The invariant of a subscriber's queue, and that every operation keeps it.
use poly_bob.Base.{
  ℕ, ◌+◌, ◌≤◌, ◌<◌, ◌≡◌, refl, sym, ◌∙◌, ◌⊎◌, inl, inr, Bool, true, false, ◌||◌, Option, some, none,
  arith, String, List, [], ◌∷◌, ◌++◌, ◌==◌, nat_eq, string_eq, is_some, length, Bool-cases,
  length-append,
}
use poly_bob.Base.Dict.{
  Dict, lookup, insert, IsUnique, insert-IsUnique, lookup-insert, lookup-erase, erase-IsUnique,
}
use poly_bob.Events.Subscription.{
  Item, key, payload, Subscription, fresh, Shape, coalesce_key, has_room, Room, forget, make_room,
  mark, remember, item_of, is_pending, enqueue_new, enqueue_keyed, enqueue_lossy, enqueue_lossless,
}

module _ {D : Type 0} where
  abbrev pub has_key : String → List (Item D) → Bool
  has_key k [] = false
  has_key k (key j ∷ queue) = k == j || has_key k queue
  has_key k (payload _ ∷ queue) = has_key k queue

  -- No key waits twice.
  abbrev pub IsDistinct : List (Item D) → Type 0
  IsDistinct [] = Unit
  IsDistinct (key k ∷ queue) = (has_key k queue ≡ false) × IsDistinct queue
  IsDistinct (payload _ ∷ queue) = IsDistinct queue

  -- A dictionary has exactly the keys that wait.
  abbrev pub Covers : {V : Type 0} → Dict String V → List (Item D) → Type 0
  Covers d queue = IsUnique d × ((k : String) → is_some (lookup k d) ≡ has_key k queue)

  abbrev pub Fits : ℕ → List (Item D) → Type 0
  Fits maxsize queue = (maxsize ≡ 0) ⊎ (length queue ≤ maxsize)

  pub record IsConsistent (sub : Subscription D) : Type 0 where
    pub distinct : IsDistinct sub.queue
    pub pending : Covers sub.pending_keys sub.queue
    pub latest : Covers sub.latest sub.queue
    pub fits : Fits sub.maxsize sub.queue

  pub fresh-IsConsistent : (maxsize : ℕ) → IsConsistent (fresh maxsize)
  unfolding fresh lookup
  fresh-IsConsistent maxsize = record {
    distinct = tt;
    pending = (tt, λ k. refl);
    latest = (tt, λ k. refl);
    fits = inr (omega arith);
  }

  pub has_key-append :
      (k : String) (xs ys : List (Item D)) → has_key k (xs ++ ys) ≡ (has_key k xs || has_key k ys)
  has_key-append k [] ys = refl
  has_key-append k (key j ∷ xs) ys = ground (arith, has_key-append k xs ys)
  has_key-append k (payload _ ∷ xs) ys = has_key-append k xs ys

  IsDistinct-append :
      (xs : List (Item D)) (k : String)
      → IsDistinct xs
      → has_key k xs ≡ false
      → IsDistinct (xs ++ key k ∷ [])
  IsDistinct-append [] k h n = (refl, tt)
  IsDistinct-append (key j ∷ xs) k h n = (
    ground (arith, has_key-append j xs (key k ∷ []), string_eq.beq_iff j k, string_eq.beq_iff k j),
    IsDistinct-append xs k h.1 (ground arith),
  )
  IsDistinct-append (payload _ ∷ xs) k h n = IsDistinct-append xs k h n

  IsDistinct-payload :
      (xs : List (Item D)) (d : D) → IsDistinct xs → IsDistinct (xs ++ payload d ∷ [])
  IsDistinct-payload [] d h = tt
  IsDistinct-payload (key j ∷ xs) d h =
      (ground (arith, has_key-append j xs (payload d ∷ [])), IsDistinct-payload xs d h.1)
  IsDistinct-payload (payload _ ∷ xs) d h = IsDistinct-payload xs d h

  -- Dropping the oldest item and its key.
  pub Covers-forget :
      {V : Type 0} (item : Item D) (queue : List (Item D)) (d : Dict String V)
      → IsDistinct (item ∷ queue)
      → Covers d (item ∷ queue)
      → Covers (forget item d) queue
  Covers-forget (key j) queue d h (u, c) = (
    erase-IsUnique j d u,
    λ k. ground (arith, c k, lookup-erase j k d u, string_eq.beq_iff j k, string_eq.beq_iff k j),
  )
  Covers-forget (payload _) queue d h c = c

  Covers-mark :
      {V : Type 0} (k : String) (v : V) (queue : List (Item D)) (d : Dict String V)
      → Covers d queue
      → Covers (insert k v d) (queue ++ key k ∷ [])
  Covers-mark k v queue d (u, c) = (
    insert-IsUnique k v d u,
    λ j. ground (
      arith,
      c j,
      lookup-insert k j v d,
      has_key-append j queue (key k ∷ []),
      string_eq.beq_iff j k,
      string_eq.beq_iff k j,
    ),
  )

  length_snoc : (xs : List (Item D)) (x : Item D) → length (xs ++ x ∷ []) ≡ length xs + 1
  length_snoc xs x = length-append xs (x ∷ [])

  -- What `make_room` leaves has room for one more item, and lost the keys of what it dropped. `rest`
  -- is what will be put behind it.
  pub record IsRoomy (maxsize : ℕ) (rest : List (Item D)) (room : Room D) : Type 0 where
    pub distinct : IsDistinct (room.kept ++ rest)
    pub pending : Covers room.pending_keys room.kept
    pub latest : Covers room.latest (room.kept ++ rest)
    pub fits : (maxsize ≡ 0) ⊎ (length room.kept < maxsize)

  pub IsDistinct-right : (xs ys : List (Item D)) → IsDistinct (xs ++ ys) → IsDistinct ys
  IsDistinct-right [] ys h = h
  IsDistinct-right (key k ∷ xs) ys h = IsDistinct-right xs ys h.1
  IsDistinct-right (payload _ ∷ xs) ys h = IsDistinct-right xs ys h

  pub IsDistinct-left : (xs ys : List (Item D)) → IsDistinct (xs ++ ys) → IsDistinct xs
  IsDistinct-left [] ys h = tt
  IsDistinct-left (key k ∷ xs) ys h =
      (ground (arith, has_key-append k xs ys), IsDistinct-left xs ys h.1)
  IsDistinct-left (payload _ ∷ xs) ys h = IsDistinct-left xs ys h

  pub IsDistinct-tail : (x : Item D) (xs : List (Item D)) → IsDistinct (x ∷ xs) → IsDistinct xs
  IsDistinct-tail (key k) xs h = h.1
  IsDistinct-tail (payload _) xs h = h

  roomy :
      (maxsize : ℕ) (queue : List (Item D))
      → has_room maxsize queue ≡ true
      → (maxsize ≡ 0) ⊎ (length queue < maxsize)
  roomy maxsize queue h = ground arith

  make_room-IsRoomy :
      (maxsize : ℕ) (queue rest : List (Item D)) (latest : Dict String D)
      (pending : Dict String (Unit {0})) (drops : ℕ)
      → IsDistinct (queue ++ rest)
      → Covers pending queue
      → Covers latest (queue ++ rest)
      → IsRoomy maxsize rest (make_room maxsize queue latest pending drops)
  unfolding make_room
  make_room-IsRoomy maxsize [] rest latest pending drops h p l = record {
    distinct = h;
    pending = p;
    latest = l;
    fits = omega arith;
  }
  make_room-IsRoomy maxsize (old ∷ queue) rest latest pending drops h p l =
      elim (Bool-cases (has_room maxsize (old ∷ queue))) [
        | inl room ↦ rw room (record {
          distinct = h;
          pending = p;
          latest = l;
          fits = roomy maxsize (old ∷ queue) room;
        })
        | inr full ↦ rw full (
            make_room-IsRoomy maxsize queue rest (forget old latest) (forget old pending)
              (drops + 1) (IsDistinct-tail old (queue ++ rest) h)
              (Covers-forget old queue pending (IsDistinct-left (old ∷ queue) rest h) p)
              (Covers-forget old (queue ++ rest) latest h l))
      ]

  Covers-payload :
      {V : Type 0} (queue : List (Item D)) (d : D) (m : Dict String V)
      → Covers m queue
      → Covers m (queue ++ payload d ∷ [])
  Covers-payload queue d m (u, c) =
      (u, λ k. ground (arith, c k, has_key-append k queue (payload d ∷ [])))

  fits_snoc :
      (maxsize : ℕ) (queue : List (Item D)) (x : Item D)
      → (maxsize ≡ 0) ⊎ (length queue < maxsize)
      → Fits maxsize (queue ++ x ∷ [])
  fits_snoc maxsize queue x (inl e) = inl e
  fits_snoc maxsize queue x (inr h) = inr (omega (arith, length_snoc queue x))

  new_pending :
      (k : Option String) (d : D) (queue : List (Item D)) (m : Dict String (Unit {0}))
      → Covers m queue
      → Covers (mark k m) (queue ++ item_of k d ∷ [])
  new_pending none d queue m c = Covers-payload queue d m c
  new_pending (some k) d queue m c = Covers-mark k tt queue m c

  pub new_latest :
      (k : Option String) (d : D) (queue : List (Item D)) (m : Dict String D)
      → Covers m queue
      → Covers (remember k d m) (queue ++ item_of k d ∷ [])
  new_latest none d queue m c = Covers-payload queue d m c
  new_latest (some k) d queue m c = Covers-mark k d queue m c

  pub new-IsDistinct :
      (k : Option String) (d : D) (sub : Subscription D)
      → IsConsistent sub
      → is_pending k sub ≡ false
      → IsDistinct (sub.queue ++ item_of k d ∷ [])
  new-IsDistinct none d sub v h = IsDistinct-payload sub.queue d v.distinct
  new-IsDistinct (some k) d sub v h =
      IsDistinct-append sub.queue k v.distinct (sym (v.pending.1 k) ∙ h)

  enqueue_new-IsConsistent :
      (k : Option String) (d : D) (sub : Subscription D)
      → IsConsistent sub
      → is_pending k sub ≡ false
      → IsConsistent (enqueue_new sub k d).0
  unfolding enqueue_new
  enqueue_new-IsConsistent k d sub v h =
      let room = make_room sub.maxsize sub.queue (remember k d sub.latest) sub.pending_keys 0 in
      let r : IsRoomy sub.maxsize (item_of k d ∷ []) room =
        make_room-IsRoomy sub.maxsize sub.queue (item_of k d ∷ []) (remember k d sub.latest)
          sub.pending_keys 0 (new-IsDistinct k d sub v h) v.pending
          (new_latest k d sub.queue sub.latest v.latest) in
      record {
        distinct = r.distinct;
        pending = new_pending k d room.kept room.pending_keys r.pending;
        latest = r.latest;
        fits = fits_snoc sub.maxsize room.kept (item_of k d) r.fits;
      }

  replaced :
      (k : Option String) (d : D) (sub : Subscription D)
      → IsConsistent sub
      → is_pending k sub ≡ true
      → IsConsistent (record sub { latest = remember k d sub.latest })
  replaced none d sub v h = cc
  replaced (some k) d sub v h = record {
    distinct = v.distinct;
    pending = v.pending;
    latest = (
      insert-IsUnique k d sub.latest v.latest.0,
      λ j. ground (
        arith,
        v.latest.1 j,
        v.pending.1 k,
        lookup-insert k j d sub.latest,
        string_eq.beq_iff k j,
      ),
    );
    fits = v.fits;
  }

  -- The lossy enqueue keeps the invariant, whatever is published.
  pub enqueue_lossy-IsConsistent :
      (shape : D → Shape) (sub : Subscription D) (d : D)
      → IsConsistent sub
      → IsConsistent (enqueue_lossy shape sub d).0
  unfolding enqueue_lossy enqueue_keyed
  enqueue_lossy-IsConsistent shape sub d v =
      elim (Bool-cases (is_pending (coalesce_key (shape d)) sub)) [
        | inl old ↦ rw old (replaced (coalesce_key (shape d)) d sub v old)
        | inr new ↦ rw new (enqueue_new-IsConsistent (coalesce_key (shape d)) d sub v new)
      ]

  pub enqueue_lossless-IsConsistent :
      (sub sub' : Subscription D) (d : D)
      → IsConsistent sub
      → enqueue_lossless sub d ≡ some sub'
      → IsConsistent sub'
  unfolding enqueue_lossless
  enqueue_lossless-IsConsistent sub sub' d v h =
      elim (Bool-cases (has_room sub.maxsize sub.queue)) [
        | inl room ↦
            let e : record sub { queue = sub.queue ++ payload d ∷ [] } ≡ sub' = ground arith in
            rw (← e) (record {
              distinct = IsDistinct-payload sub.queue d v.distinct;
              pending = Covers-payload sub.queue d sub.pending_keys v.pending;
              latest = Covers-payload sub.queue d sub.latest v.latest;
              fits = fits_snoc sub.maxsize sub.queue (payload d) (roomy sub.maxsize sub.queue room);
            })
        | inr full ↦ absurd (ground arith)
      ]
