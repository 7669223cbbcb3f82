-- ===== src/Execution/Intent/Dedupe.antt =====
-- Repeated calls of `create_intent` and of `submit_intent`.
use poly_bob.Base.{
  ℕ, ◌≡◌, refl, ap, inl, inr, Bool, true, Option, some, none, arith, String, List, [], ◌∷◌, nat_eq,
  string_eq, Bool-cases, Option-cases,
}
use poly_bob.Base.Dict.{Dict, lookup, insert, lookup-insert, lookup-insert_self}
use poly_bob.Base.Float.{Floats}
use poly_bob.Promotion.Registry.{PromotionRecord}
use poly_bob.Execution.Intent.{
  Formats, TradeIntent, submitted, IntentService, StoredIntent, IntentRequest, require_promoted,
  create_intent, create_allowed, create_new, make_intent_legs, find_existing_intent, find_in_memory,
  take_stored,
}
use poly_bob.Execution.Intent.Submit.{submit_intent}

module _ ⦃fl : Floats⦄ where
  find_in_memory-insert :
      (key : String) (keys : Dict String String) (intents : Dict String TradeIntent) (id : String)
      (i : TradeIntent)
      → find_in_memory key keys intents ≡ none
      → find_in_memory key (insert id key keys) (insert id i intents) ≡ some i
  unfolding find_in_memory insert
  find_in_memory-insert key keys [] id i h =
      ground (arith, lookup-insert_self id key keys, string_eq.beq_iff key key)
  find_in_memory-insert key keys ((j, w) ∷ intents) id i h = ground (
    arith,
    find_in_memory-insert key keys intents id i,
    lookup-insert id j key keys,
    string_eq.beq_iff id j,
    string_eq.beq_iff key key,
  )

  find_in_memory-key :
      (key : String) (keys : Dict String String) (intents : Dict String TradeIntent) (id : String)
      (i : TradeIntent)
      → find_in_memory key keys intents ≡ none
      → lookup id intents ≡ some i
      → find_in_memory key (insert id key keys) intents ≡ some i
  unfolding find_in_memory lookup
  find_in_memory-key key keys [] id i h l = ground (arith)
  find_in_memory-key key keys ((j, w) ∷ intents) id i h l = ground (
    arith,
    find_in_memory-key key keys intents id i,
    lookup-insert id j key keys,
    string_eq.beq_iff id j,
    string_eq.beq_iff key key,
  )

  -- A key under which an intent is found makes every later call with it return that intent.
  HasKey : String → IntentService → TradeIntent → Type 0
  HasKey key s i = find_in_memory key s.idempotency_keys s.intents ≡ some i

  create_new-HasKey :
      (fm : Formats) (id : String) (q : IntentRequest) (s s' : IntentService) (key : String)
      (i : TradeIntent)
      → q.idempotency_key ≡ some key
      → find_in_memory key s.idempotency_keys s.intents ≡ none
      → create_new fm id q s ≡ (s', some i)
      → HasKey key s' i
  unfolding HasKey
  create_new-HasKey fm id q s s' key i k fresh made =
      elim (Option-cases (make_intent_legs fm id 1 q.legs)) [
        | inl h ↦ ground (arith)
        | inr (legs, h) ↦
            ground (arith, find_in_memory-insert key s.idempotency_keys s.intents id i)
      ]

  take_stored-HasKey :
      (key : String) (row : StoredIntent) (s s' : IntentService) (i : TradeIntent)
      → find_in_memory key s.idempotency_keys s.intents ≡ none
      → take_stored key row s ≡ (s', some i)
      → HasKey key s' i
  unfolding HasKey
  take_stored-HasKey key row s s' i fresh made =
      elim (Option-cases (lookup row.intent_id s.intents)) [
        | inl h ↦ elim (Option-cases row.payload) [
          | inl bad ↦ ground (arith)
          | inr (j, good) ↦
              ground (arith, find_in_memory-insert key s.idempotency_keys s.intents row.intent_id j)
        ]
        | inr (j, h) ↦
            ground (arith, find_in_memory-key key s.idempotency_keys s.intents row.intent_id j)
      ]

  find_existing_intent-HasKey :
      (key : String) (stored : Option StoredIntent) (s s' : IntentService) (i : TradeIntent)
      → find_existing_intent key stored s ≡ (s', some i)
      → HasKey key s' i
  unfolding HasKey find_existing_intent
  find_existing_intent-HasKey key stored s s' i found_it =
      elim (Option-cases (find_in_memory key s.idempotency_keys s.intents)) [
        | inl h ↦ elim (Option-cases stored) [
          | inl gone ↦ ground (arith)
          | inr (row, there) ↦ ground (arith, take_stored-HasKey key row s s' i)
        ]
        | inr (j, h) ↦ ground (arith)
      ]

  -- Where nothing is found, nothing changes.
  find_existing_intent-none :
      (key : String) (stored : Option StoredIntent) (s s' : IntentService)
      → find_existing_intent key stored s ≡ (s', none)
      → (s' ≡ s) × (find_in_memory key s.idempotency_keys s.intents ≡ none)
  unfolding find_existing_intent
  find_existing_intent-none key stored s s' h =
      elim (Option-cases (find_in_memory key s.idempotency_keys s.intents)) [
        | inl fresh ↦ elim (Option-cases stored) [
          | inl gone ↦ ground (arith)
          | inr (row, there) ↦ elim (Option-cases (lookup row.intent_id s.intents)) [
            | inl unknown ↦ elim (Option-cases row.payload) [
              | inl bad ↦ ground (arith)
              | inr (j, good) ↦ ground (arith)
            ]
            | inr (j, known) ↦ ground (arith)
          ]
        ]
        | inr (j, known) ↦ ground (arith)
      ]

  create_allowed-HasKey :
      (fm : Formats) (stored : Option StoredIntent) (id : String) (q : IntentRequest)
      (s s' : IntentService) (key : String) (i : TradeIntent)
      → q.idempotency_key ≡ some key
      → create_allowed fm stored id q s ≡ (s', some i)
      → HasKey key s' i
  create_allowed-HasKey fm stored id q s s' key i k made =
      let t : IntentService = (find_existing_intent key stored s).0 in
      elim (Option-cases (find_existing_intent key stored s).1) [
        | inl new ↦
            let (same, fresh) = find_existing_intent-none key stored s t (ap (λ o. (t, o)) new) in
            let made' : create_new fm id q t ≡ (s', some i) = ground (arith) in
            let made_of : create_new fm id q s ≡ (s', some i) = rw (← same) made' in
            create_new-HasKey fm id q s s' key i k fresh made_of
        | inr (j, old) ↦
            let made' : find_existing_intent key stored s ≡ (s', some i) = ground (arith) in
            find_existing_intent-HasKey key stored s s' i made'
      ]

  create_intent_again :
      (require : Bool) (day_of : String → Option ℕ) (today : ℕ) (registry : List PromotionRecord)
      (fm : Formats) (stored : Option StoredIntent) (id : String) (q : IntentRequest)
      (s : IntentService) (key : String) (i : TradeIntent)
      → HasKey key s i
      → q.idempotency_key ≡ some key
      → require_promoted require day_of today registry q.strategy_id ≡ true
      → create_intent require day_of today registry fm stored id q s ≡ (s, some i)
  unfolding HasKey create_intent find_existing_intent
  create_intent_again require day_of today registry fm stored id q s key i h k passes =
      ground (arith)

  -- Once `create_intent` has returned an intent for an idempotency key, the next call with that key,
  -- whatever else it asks for and whatever the repository holds, returns the same intent and changes
  -- nothing, if its strategy passes the promotion gate.
  pub create_intent_idempotent :
      (require : Bool) (day_of : String → Option ℕ) (today : ℕ) (registry : List PromotionRecord)
      (fm : Formats) (stored stored' : Option StoredIntent) (id id' : String) (q q' : IntentRequest)
      (s s' : IntentService) (key : String) (i : TradeIntent)
      → q.idempotency_key ≡ some key
      → q'.idempotency_key ≡ some key
      → require_promoted require day_of today registry q'.strategy_id ≡ true
      → create_intent require day_of today registry fm stored id q s ≡ (s', some i)
      → create_intent require day_of today registry fm stored' id' q' s' ≡ (s', some i)
  unfolding create_intent
  create_intent_idempotent require day_of today registry fm stored stored' id id' q q' s s' key i k
        k' passes made =
      let allowed : create_allowed fm stored id q s ≡ (s', some i) =
        elim (Bool-cases (require_promoted require day_of today registry q.strategy_id)) [
          | inl p ↦ ground (arith)
          | inr p ↦ ground (arith)
        ] in
      create_intent_again require day_of today registry fm stored' id' q' s' key i
        (create_allowed-HasKey fm stored id q s s' key i k allowed) k' passes

  -- A second `submit_intent` of an intent that is submitted returns and changes nothing, at any time.
  pub submit_intent_again :
      (fm : Formats) (id basket_id : String) (now : ℕ) (s : IntentService) (intent : TradeIntent)
      → lookup id s.intents ≡ some intent
      → lookup id s.intent_status ≡ some submitted
      → submit_intent fm id basket_id now s ≡ (s, true)
  unfolding submit_intent
  submit_intent_again fm id basket_id now s intent h status = rw (submit_intent, h, status) refl
