-- ===== src/Execution/Intent/Created.antt =====
-- The writes of `create_intent` keep the repository a mirror of the service.
use poly_bob.Base.{
  ℕ, ◌≡◌, refl, ◌∙◌, subst, inl, inr, false, Option, some, none, arith, String, nat_eq, string_eq,
  Option-cases,
}
use poly_bob.Base.Dict.{lookup, insert, insert-IsUnique, lookup-insert}
use poly_bob.Base.Float.{Floats}
use poly_bob.Execution.Intent.{
  Formats, TradeIntent, IntentStatus, created, IntentError, IntentService, IntentRequest,
  make_intent_legs, create_allowed, create_new, put_created, find_existing_intent, find_in_memory,
}
use poly_bob.Store.Intents.{IntentRow, takes, save, saved_row, key_taken, find_by_idempotency_key}
use poly_bob.Store.IntentLaws.{find_by_idempotency_key_free, find_by_idempotency_key-lookup}
use poly_bob.Execution.Intent.Restore.{persist_effect, persist_effects, find_stored, Desk, commit}
use poly_bob.Execution.Intent.Mirror.{view_of, Mirrors, quiet}

module _ ⦃fl : Floats⦄ {P : Type 0} (dump : TradeIntent → P)
    (validate : P → Option TradeIntent) where
  made-Mirrors :
      ((i : TradeIntent) → validate (dump i) ≡ some i)
      → (now : ℕ) (q : IntentRequest) (i : TradeIntent) (d : Desk dump validate)
      → Mirrors dump validate d
      → lookup i.intent_id d.rows ≡ none
      → takes q.idempotency_key i.intent_id d.rows ≡ false
      → Mirrors dump validate (commit dump validate now d (put_created q i d.service))
  unfolding persist_effects persist_effect save
  made-Mirrors inverse now q i d m fresh free =
      let row : IntentRow P IntentStatus IntentError =
        saved_row none (dump i) created none none q.idempotency_key now in
      let s' = put_created q i d.service in
      let wrote : persist_effects dump validate now s'.effects d.rows
          ≡ insert i.intent_id row d.rows =
        rw m.written (rw (free, fresh) refl) in
      record {
        each = λ j. ground (
          arith,
          wrote,
          lookup-insert i.intent_id j row d.rows,
          lookup-insert i.intent_id j i d.service.intents,
          lookup-insert i.intent_id j created d.service.intent_status,
          inverse i,
          m.each j,
          m.each i.intent_id,
          fresh,
          string_eq.beq_iff i.intent_id j,
        );
        valid = λ j r there.
            ground
              (arith, wrote, lookup-insert i.intent_id j row d.rows, there, inverse i, m.valid j r);
        unique = rw wrote (insert-IsUnique i.intent_id row d.rows m.unique);
        unique_errors = m.unique_errors;
        written = refl;
      }

  -- A key that is in no row of the table finds nothing to return.
  find_stored_free :
      (key id : String) (d : Desk dump validate) (s' : IntentService)
      → Mirrors dump validate d
      → find_existing_intent key (find_stored dump validate (some key) d.rows) d.service
        ≡ (s', none)
      → (s' ≡ d.service) × (key_taken key id d.rows ≡ false)
  unfolding find_existing_intent
  find_stored_free key id d s' m h =
      elim (Option-cases (find_in_memory key d.service.idempotency_keys d.service.intents)) [
        | inr (i, here) ↦ ground (arith)
        | inl absent ↦ elim (Option-cases (find_by_idempotency_key key d.rows)) [
          | inl free ↦ (ground (arith), find_by_idempotency_key_free key id d.rows free)
          | inr ((j, row), there) ↦
              let known = find_by_idempotency_key-lookup key d.rows j row there m.unique in
              ground (arith, known, m.valid j row, m.each j)
        ]
      ]

  find_stored_found :
      (key : String) (d : Desk dump validate) (s' : IntentService) (i : TradeIntent)
      → Mirrors dump validate d
      → find_existing_intent key (find_stored dump validate (some key) d.rows) d.service
        ≡ (s', some i)
      → (s'.effects ≡ d.service.effects)
        × (s'.intent_errors ≡ d.service.intent_errors)
        × ((k : String) → view_of k s' ≡ view_of k d.service)
  unfolding find_existing_intent
  find_stored_found key d s' i m h =
      elim (Option-cases (find_in_memory key d.service.idempotency_keys d.service.intents)) [
        | inr (i, here) ↦ (ground (arith), ground (arith), λ k. ground (arith))
        | inl absent ↦ elim (Option-cases (find_by_idempotency_key key d.rows)) [
          | inl free ↦ (ground (arith), ground (arith), λ k. ground (arith))
          | inr ((j, row), there) ↦
              let known = find_by_idempotency_key-lookup key d.rows j row there m.unique in
              elim (Option-cases (lookup j d.service.intents)) [
                | inl lost ↦ absurd (ground (arith, known, m.valid j row, m.each j))
                | inr (w, kept) ↦ (ground (arith), ground (arith), λ k. ground (arith))
              ]
        ]
      ]

  module _ (inverse : (i : TradeIntent) → validate (dump i) ≡ some i) (fm : Formats) (now : ℕ)
      (id : String) (q : IntentRequest) (d : Desk dump validate) (m : Mirrors dump validate d) where
    Kept : IntentService × Option TradeIntent → Type 0
    Kept r = Mirrors dump validate (commit dump validate now d r.0)

    allowed : IntentService × Option TradeIntent
    allowed = create_allowed fm (find_stored dump validate q.idempotency_key d.rows) id q d.service

    Kept-allowed : (r : IntentService × Option TradeIntent) → r ≡ allowed → Kept r → Kept allowed
    Kept-allowed r e k = subst Kept e k

    create_new-Kept :
        lookup id d.rows ≡ none
        → takes q.idempotency_key id d.rows ≡ false
        → Kept (create_new fm id q d.service)
    unfolding Kept
    create_new-Kept fresh free = elim (Option-cases (make_intent_legs fm id 1 q.legs)) [
      | inl bad ↦
          rw (bad, create_new) (quiet dump validate now d d.service m m.written refl (λ j. refl))
      | inr (legs, good) ↦ rw (good, create_new) (made-Mirrors inverse now q _ d m fresh free)
    ]

    -- The two ways that a key's search ends.
    keyed-Kept :
        (key : String) (r : IntentService × Option TradeIntent)
        → lookup id d.rows ≡ none
        → q.idempotency_key ≡ some key
        → find_existing_intent key (find_stored dump validate (some key) d.rows) d.service ≡ r
        → Kept allowed
    unfolding Kept allowed
    keyed-Kept key (s', none) fresh keyed searched =
        let (same, free) = find_stored_free key id d s' m searched in
        Kept-allowed (create_new fm id q d.service) (ground (arith, keyed, searched, same))
          (create_new-Kept fresh (ground (arith, keyed, free)))
    keyed-Kept key (s', some i) fresh keyed searched =
        let (effects, errors, views) = find_stored_found key d s' i m searched in
        Kept-allowed (s', some i) (ground (arith, keyed, searched))
          (quiet dump validate now d s' m (effects ∙ m.written) errors views)

    create_allowed-Kept : lookup id d.rows ≡ none → Kept allowed
    unfolding Kept allowed
    create_allowed-Kept fresh = elim (Option-cases q.idempotency_key) [
      | inl unkeyed ↦
          Kept-allowed (create_new fm id q d.service) (ground (arith, unkeyed))
            (create_new-Kept fresh (ground (arith, unkeyed)))
      | inr (key, keyed) ↦
          keyed-Kept key
            (find_existing_intent key (find_stored dump validate (some key) d.rows) d.service) fresh
            keyed refl
    ]

    pub create_allowed-Mirrors :
        lookup id d.rows ≡ none
        → Mirrors dump validate (
            commit dump validate now d
              (create_allowed fm
                (find_stored dump validate q.idempotency_key d.rows)
                id
                q
                d.service).0)
    unfolding Kept allowed
    create_allowed-Mirrors fresh = create_allowed-Kept fresh
