-- ===== src/Book/Replay.antt =====
-- Replay of logged events (libs/polymarket/replay.py). `replay_from_log` hands the events that the
-- log gives for one asset to `replay_book_states`: here the list of events is the argument.
use poly_bob.Base.{
  ◌≡◌, refl, inl, inr, Option, some, none, arith, String, List, [], ◌∷◌, ◌++◌, append_assoc, nat_eq,
  string_eq, Option-cases, or_str,
}
use poly_bob.Base.Float.{Floats}
use poly_bob.Book.Values.{Time, Runtime}
use poly_bob.Book.State.{BookState}
use poly_bob.Book.Reducer.{
  Reducer, empty, Snapshot, PriceChange, apply_snapshot, apply_price_change, ◌>>=◌,
}
use poly_bob.Book.Reducer.Valid.{
  IsValid, empty-IsValid, apply_snapshot-IsValid, apply_price_change-Answers,
}

module _ ⦃fl : Floats⦄ ⦃rt : Runtime⦄ where
  -- The payload by its `event_type`; any other type is skipped.
  pub data Payload : Type 0 where
    book : Snapshot → Payload
    price_change : PriceChange → Payload
    other : Payload

  pub record RawEvent : Type 0 where
    pub asset_id : Option String
    pub payload : Payload
    pub receive_ts : Time

  abbrev yielded : Option BookState → List BookState
  yielded none = []
  yielded (some state) = state ∷ []

  -- One round of the loop: the reducer, and the states that it yields. The receive time of the event
  -- is always there, so no clock is read.
  unfoldable pub replay_event : RawEvent → Reducer → Option (Reducer × List BookState)
  replay_event e r = elim e.payload [
    | book m ↦
        let (r', state) =
          apply_snapshot m e.receive_ts (some e.receive_ts) (or_str e.asset_id m.asset_id) none r in
        some (r', yielded state)
    | price_change m ↦ apply_price_change m e.receive_ts (some e.receive_ts) r
    | other ↦ some (r, [])
  ]

  unfoldable pub replay_from : List RawEvent → Reducer → Option (Reducer × List BookState)
  replay_from [] r = some (r, [])
  replay_from (e ∷ events) r = replay_event e r >>= λ (r', states).
      replay_from events r' >>= λ (r'', more). some (r'', states ++ more)

  unfoldable pub replay_book_states : List RawEvent → Option (List BookState)
  replay_book_states events = replay_from events empty >>= λ (_, states). some states

  abbrev Runs : Option (Reducer × List BookState) → Type 0
  Runs o = (r' : Reducer) × (states : List BookState) × (o ≡ some (r', states)) × IsValid r'

  replay_event-Runs : (e : RawEvent) (r : Reducer) → IsValid r → Runs (replay_event e r)
  unfolding replay_event
  replay_event-Runs e r v = payload_runs e.payload refl
    where
      payload_runs : (p : Payload) → e.payload ≡ p → Runs (replay_event e r)
      payload_runs (book m) h = rw h (
        _,
        _,
        refl,
        apply_snapshot-IsValid m e.receive_ts (some e.receive_ts) (or_str e.asset_id m.asset_id)
            none v,
      )
      payload_runs (price_change m) h =
          let (r', states, answered, v', _) =
            apply_price_change-Answers m e.receive_ts (some e.receive_ts) r v in
          rw h (r', states, answered, v')
      payload_runs other h = rw h (r, [], refl, v)

  replay_from-Runs :
      (events : List RawEvent) (r : Reducer) → IsValid r → Runs (replay_from events r)
  unfolding replay_from
  replay_from-Runs [] r v = (r, [], refl, v)
  replay_from-Runs (e ∷ events) r v =
      let (r1, s1, e1, v1) = replay_event-Runs e r v in
      let (r2, s2, e2, v2) = replay_from-Runs events r1 v1 in rw (e1, e2) (r2, s1 ++ s2, refl, v2)

  replay_from-append :
      (xs ys : List RawEvent) (r r1 r2 : Reducer) (s1 s2 : List BookState)
      → replay_from xs r ≡ some (r1, s1)
      → replay_from ys r1 ≡ some (r2, s2)
      → replay_from (xs ++ ys) r ≡ some (r2, s1 ++ s2)
  unfolding replay_from
  replay_from-append [] ys r r1 r2 s1 s2 h k = ground arith
  replay_from-append (e ∷ xs) ys r r1 r2 s1 s2 h k = elim (Option-cases (replay_event e r)) [
    | inl failed ↦ absurd (cc)
    | inr ((ra, sa), ea) ↦ elim (Option-cases (replay_from xs ra)) [
      | inl failed ↦ absurd (ground arith)
      | inr ((rb, sb), eb) ↦
          rw (ea, replay_from-append xs ys ra rb r2 sb s2 eb (ground arith))
            (ground (arith, append_assoc sa sb s2))
    ]
  ]

  -- A replay answers for every log: it never raises KeyError, and the log cut in two at any place is
  -- replayed part by part, the second from the valid reducer that the first leaves.
  pub replay_book_states-append :
      (xs ys : List RawEvent)
      → (r : Reducer) × (r' : Reducer) × (s s' : List BookState) × IsValid r
        × (replay_from xs empty ≡ some (r, s))
        × (replay_from ys r ≡ some (r', s'))
        × (replay_book_states (xs ++ ys) ≡ some (s ++ s'))
  unfolding replay_book_states
  replay_book_states-append xs ys =
      let (r1, s1, e1, v1) = replay_from-Runs xs empty empty-IsValid in
      let (r2, s2, e2, _) = replay_from-Runs ys r1 v1 in
      (r1, r2, s1, s2, v1, e1, e2, rw (replay_from-append xs ys empty r1 r2 s1 s2 e1 e2))
