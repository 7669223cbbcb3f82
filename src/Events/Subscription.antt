-- ===== src/Events/Subscription.antt =====
-- One subscriber's queue (libs/events/__init__.py): `_Subscription`, `_coalesce_key`,
-- `_enqueue_lossy` and the dequeue of `_consume`. `D` is the type of what is published, and `shape`
-- is what `isinstance` and attribute access tell of it.
use poly_bob.Base.{
  ℕ, ◌+◌, Bool, true, false, not, ◌&&◌, ◌||◌, Option, some, none, if◌then◌else◌, String, List, [],
  ◌∷◌, ◌++◌, ◌==◌, nat_eq, string_eq, or_else, is_some, is_empty, length, ltb,
}
use poly_bob.Base.Dict.{Dict, lookup, insert, erase}

-- `_COALESCE_KEY_FIELDS`, in the order in which they are tried.
pub data Field : Type 0 where
  asset_id market_id pair_id symbol : Field

abbrev pub coalesce_key_fields : List Field
coalesce_key_fields = asset_id ∷ market_id ∷ pair_id ∷ symbol ∷ []

-- What `getattr(data, field, None)` finds on an object.
pub data Attribute : Type 0 where
  missing method unhashable : Attribute
  value : String → Attribute

-- A dict (with the id fields that are there and not None), a scalar or sequence, or another object.
pub data Shape : Type 0 where
  dict : (Field → Option String) → Shape
  scalar : Shape
  object : (Field → Attribute) → Shape

abbrev usable : Attribute → Option String
usable (value k) = some k
usable _ = none

abbrev pub first_key : (Field → Option String) → List Field → Option String
first_key get [] = none
first_key get (f ∷ fs) = or_else (get f) (first_key get fs)

unfoldable pub coalesce_key : Shape → Option String
coalesce_key (dict get) = first_key get coalesce_key_fields
coalesce_key scalar = none
coalesce_key (object attribute) = first_key (λ f. usable (attribute f)) coalesce_key_fields

-- `("key", key)` or `("payload", data)`
pub data Item (D : Type 0) : Type 0 where
  key : String → Item D
  payload : D → Item D

-- `handler`, `task` and the event loop are the runtime's. `pending_keys` is a set. A maxsize of 0
-- is an unbounded `asyncio.Queue`.
pub record Subscription (D : Type 0) : Type 0 where
  pub maxsize : ℕ
  pub queue : List (Item D)
  pub latest : Dict String D
  pub pending_keys : Dict String (Unit {0})
  pub busy : Bool

-- What `_enqueue_lossy` changes while it drops the oldest items.
pub record Room (D : Type 0) : Type 0 where
  pub kept : List (Item D)
  pub latest : Dict String D
  pub pending_keys : Dict String (Unit {0})
  pub drops : ℕ

-- What the call did to the counters: a coalesced payload, or a number of drops.
pub data Outcome : Type 0 where
  coalesced : Outcome
  queued : (drops : ℕ) → Outcome

abbrev pub mark : Option String → Dict String (Unit {0}) → Dict String (Unit {0})
mark none d = d
mark (some k) d = insert k tt d

module _ {D : Type 0} where
  -- `__init__`, and `reset` of an old one.
  unfoldable pub fresh : ℕ → Subscription D
  fresh maxsize = record {
    maxsize = maxsize;
    queue = [];
    latest = [];
    pending_keys = [];
    busy = false;
  }

  unfoldable pub reset : Subscription D → Subscription D
  unfolding fresh
  reset sub = fresh sub.maxsize

  unfoldable pub idle : Subscription D → Bool
  idle sub = is_empty sub.queue && not sub.busy

  -- `put_nowait` does not raise QueueFull.
  abbrev pub has_room : ℕ → List (Item D) → Bool
  has_room maxsize queue = maxsize == 0 || ltb (length queue) maxsize

  abbrev pub forget : {V : Type 0} → Item D → Dict String V → Dict String V
  forget (key k) d = erase k d
  forget (payload _) d = d

  -- The `while True` loop: `get_nowait` and retry until the item fits. An empty queue has room.
  unfoldable pub make_room : ℕ → List (Item D) → Dict String D → Dict String (Unit {0}) → ℕ → Room D
  make_room maxsize [] latest pending drops = record {
    kept = [];
    latest = latest;
    pending_keys = pending;
    drops = drops;
  }
  make_room maxsize (old ∷ queue) latest pending drops =
      let dropped = make_room maxsize queue (forget old latest) (forget old pending) (drops + 1) in
      if has_room maxsize (old ∷ queue)
      then record { kept = old ∷ queue; latest = latest; pending_keys = pending; drops = drops }
      else dropped

  abbrev pub remember : Option String → D → Dict String D → Dict String D
  remember none data' d = d
  remember (some k) data' d = insert k data' d

  abbrev pub item_of : Option String → D → Item D
  item_of none data' = payload data'
  item_of (some k) data' = key k

  abbrev pub is_pending : Option String → Subscription D → Bool
  is_pending none sub = false
  is_pending (some k) sub = is_some (lookup k sub.pending_keys)

  -- The part of `_enqueue_lossy` for a payload that replaces no pending one.
  unfoldable pub enqueue_new : Subscription D → Option String → D → Subscription D × Outcome
  enqueue_new sub k data' =
      let room = make_room sub.maxsize sub.queue (remember k data' sub.latest) sub.pending_keys 0 in
      (
        record sub {
          queue = room.kept ++ item_of k data' ∷ [];
          latest = room.latest;
          pending_keys = mark k room.pending_keys;
        },
        queued room.drops,
      )

  unfoldable pub enqueue_keyed : Subscription D → Option String → D → Subscription D × Outcome
  enqueue_keyed sub k data' =
      if is_pending k sub
      then (record sub { latest = remember k data' sub.latest }, coalesced)
      else enqueue_new sub k data'

  unfoldable pub enqueue_lossy : (D → Shape) → Subscription D → D → Subscription D × Outcome
  enqueue_lossy shape sub data' = enqueue_keyed sub (coalesce_key (shape data')) data'

  -- `await sub.queue.put(("payload", data))`, at a moment at which it can go on; `none` is a
  -- producer that waits.
  unfoldable pub enqueue_lossless : Subscription D → D → Option (Subscription D)
  enqueue_lossless sub data' =
      if has_room sub.maxsize sub.queue
      then some (record sub { queue = sub.queue ++ payload data' ∷ [] })
      else none

  abbrev pub take_item : Item D → Subscription D → Subscription D × Option D
  take_item (key k) sub = (
    record sub { pending_keys = erase k sub.pending_keys; latest = erase k sub.latest },
    lookup k sub.latest,
  )
  take_item (payload data') sub = (sub, some data')

  -- The head of the loop of `_consume`, up to the call of the handler; `none` waits for an item.
  abbrev pub dequeue_from : List (Item D) → Subscription D → Option (Subscription D × Option D)
  dequeue_from [] sub = none
  dequeue_from (item ∷ queue) sub =
      let (sub', data') = take_item item (record sub { queue = queue }) in
      some (record sub' { busy = true }, data')

  unfoldable pub dequeue : Subscription D → Option (Subscription D × Option D)
  dequeue sub = dequeue_from sub.queue sub
