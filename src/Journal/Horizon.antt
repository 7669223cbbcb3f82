-- ===== src/Journal/Horizon.antt =====
-- An entry is due when its holding period is over, and only while it is open.
use poly_bob.Base.{
  ℕ, ◌+◌, ◌*◌, ◌/◌, ◌≡◌, refl, ◌∙◌, ◌≢◌, inl, inr, Bool, false, ◌&&◌, ◌||◌, Option, some, none,
  arith, String, List, [], ◌∷◌, ◌==◌, nat_eq, string_eq, is_some, any, keep, Bool-cases,
  Option-cases, leb,
}
use poly_bob.Base.Dict.{lookup, IsUnique, insert-IsUnique, lookup-insert_self}
use poly_bob.Base.Float.{Floats, Float}
use poly_bob.Journal.Entries.{
  sessions_to_calendar_days, date_of, planned_exit, JournalEntry, Journal, Plan, planned_row,
  open_entry, get, change, filled, record_fill, graded, left, close_entry, given_up, abandon,
}
use poly_bob.Journal.Measured.{entries, place, order_by, is_due, exits_before, due_for_exit}
use poly_bob.Journal.Filled.{
  Kept, empty, called, call_open, call_fill, call_close, call_abandon, Kept-IsSound,
}

any-keep :
    {A : Type 0} (p q : A → Bool) (xs : List A) → any p (keep q xs) ≡ any (λ x. p x && q x) xs
any-keep p q [] = refl
any-keep p q (x ∷ xs) = ground (arith, any-keep p q xs)

module _ ⦃fl : Floats⦄ where
  any-place :
      (p : JournalEntry → Bool) (before : JournalEntry → JournalEntry → Bool) (e : JournalEntry)
      (es : List JournalEntry)
      → any p (place before e es) ≡ (p e || any p es)
  unfolding place
  any-place p before e [] = ground (arith)
  any-place p before e (x ∷ es) = ground (arith, any-place p before e es)

  any-order_by :
      (p : JournalEntry → Bool) (before : JournalEntry → JournalEntry → Bool)
      (es : List JournalEntry)
      → any p (order_by before es) ≡ any p es
  unfolding order_by
  any-order_by p before [] = refl
  any-order_by p before (e ∷ es) =
      ground (arith, any-place p before e (order_by before es), any-order_by p before es)

  -- Whether an entry of this id is in the list.
  abbrev pub is_listed : String → List JournalEntry → Bool
  is_listed id es = any (λ e. e.entry_id == id) es

  NamesKeys : Journal → Type 0
  NamesKeys j = (k : String) (e : JournalEntry) → lookup k j ≡ some e → e.entry_id ≡ k

  any-entries :
      (q : JournalEntry → Bool) (id : String) (j : Journal)
      → IsUnique j
      → NamesKeys j
      → any (λ e. (e.entry_id == id) && q e) (entries j)
        ≡ (elim (lookup id j) [ none ↦ false | some e ↦ q e ])
  unfolding lookup NamesKeys
  any-entries q id [] u names = refl
  any-entries q id ((k, e) ∷ j) u names =
      let rest =
        any-entries q id j u.1
          (λ i w there. names i w (ground (arith, there, u.0, string_eq.beq_iff i k))) in
      let own : e.entry_id ≡ k = names k e (ground (arith, string_eq.beq_iff k k)) in
      ground (arith, rest, own, u.0, string_eq.beq_iff e.entry_id id, string_eq.beq_iff id k)

  change-IsUnique :
      (f : JournalEntry → JournalEntry) (id : String) (j : Journal)
      → IsUnique j
      → IsUnique (change f id j).0
  unfolding get
  change-IsUnique f id j u = elim (Option-cases (lookup id j)) [
    | inl absent ↦ rw (absent, change) u
    | inr (e, here) ↦ rw (here, change) (insert-IsUnique id (f e) j u)
  ]

  Kept-IsUnique : (j : Journal) → Kept j → IsUnique j
  unfolding open_entry record_fill close_entry abandon
  Kept-IsUnique _ empty = tt
  Kept-IsUnique _ (called _ _ k (call_open upper id opened_at p j)) =
      elim (Bool-cases (is_some (lookup id j))) [
        | inl there ↦ rw there (Kept-IsUnique j k)
        | inr new ↦
            rw new (insert-IsUnique id (planned_row upper id opened_at p) j (Kept-IsUnique j k))
      ]
  Kept-IsUnique _ (called _ _ k (call_fill id price qty fees filled_at j)) =
      change-IsUnique (filled price qty fees filled_at) id j (Kept-IsUnique j k)
  Kept-IsUnique _
        (called _ _ k (call_close id price reason fees funding benchmark_pct closed_at j)) =
      change-IsUnique (λ e. graded price (left price reason fees funding benchmark_pct closed_at e))
        id j (Kept-IsUnique j k)
  Kept-IsUnique _ (called _ _ k (call_abandon id note j)) =
      change-IsUnique (given_up note) id j (Kept-IsUnique j k)

  -- What is listed is decided by the entry under the id.
  is_listed-due_for_exit :
      (today : ℕ) (id : String) (j : Journal)
      → Kept j
      → is_listed id (due_for_exit today j)
        ≡ (elim (lookup id j) [ none ↦ false | some e ↦ is_due today e ])
  unfolding due_for_exit NamesKeys
  is_listed-due_for_exit today id j k =
      any-order_by (λ e. e.entry_id == id) exits_before (keep (is_due today) (entries j))
      ∙ any-keep (λ e. e.entry_id == id) (is_due today) (entries j)
      ∙ any-entries (is_due today) id j (Kept-IsUnique j k)
          (λ i e there. (Kept-IsSound j i e k there).same_id)

  lookup-change :
      (f : JournalEntry → JournalEntry) (id : String) (j : Journal) (e : JournalEntry)
      → lookup id j ≡ some e
      → lookup id (change f id j).0 ≡ some (f e)
  unfolding get
  lookup-change f id j e here = rw (here, change) (lookup-insert_self id (f e) j)

  lookup-open_entry :
      (upper : String → String) (id : String) (opened_at : ℕ) (p : Plan) (j : Journal)
      → lookup id j ≡ none
      → lookup id (open_entry upper id opened_at p j).0 ≡ some (planned_row upper id opened_at p)
  unfolding open_entry
  lookup-open_entry upper id opened_at p j new =
      rw new (lookup-insert_self id (planned_row upper id opened_at p) j)

  due_planned :
      (upper : String → String) (id : String) (opened_at : ℕ) (p : Plan) (today : ℕ) (j : Journal)
      → Kept j
      → lookup id j ≡ none
      → is_listed id (due_for_exit today (open_entry upper id opened_at p j).0) ≡ false
  due_planned upper id opened_at p today j k new =
      let j1 = (open_entry upper id opened_at p j).0 in
      ground (
        arith,
        is_listed-due_for_exit today id j1 (called j j1 k (call_open upper id opened_at p j)),
        lookup-open_entry upper id opened_at p j new,
      )

  module _ (upper : String → String) (id : String) (opened_at : ℕ) (p : Plan) (price : Float)
      (qty : Option Float) (fees : Float) (filled_at : ℕ) (j : Journal) where
    -- An entry that is opened and filled.
    abbrev pub bought : Journal
    bought = (record_fill id price qty fees filled_at (open_entry upper id opened_at p j).0).0

    bought-Kept : Kept j → Kept bought
    bought-Kept k =
        let j1 = (open_entry upper id opened_at p j).0 in
        called j1 bought (called j j1 k (call_open upper id opened_at p j))
          (call_fill id price qty fees filled_at j1)

    lookup-bought :
        lookup id j ≡ none
        → lookup id bought
          ≡ some (filled price qty fees filled_at (planned_row upper id opened_at p))
    unfolding record_fill
    lookup-bought new =
        lookup-change (filled price qty fees filled_at) id (open_entry upper id opened_at p j).0
          (planned_row upper id opened_at p) (lookup-open_entry upper id opened_at p j new)

    due_bought :
        (n today : ℕ)
        → Kept j
        → lookup id j ≡ none
        → p.hold_sessions ≡ some n
        → n ≢ 0
        → is_listed id (due_for_exit today bought)
          ≡ leb (date_of opened_at + sessions_to_calendar_days n) today
    unfolding planned_exit
    due_bought n today k new hold pos =
        ground
          (arith, is_listed-due_for_exit today id bought (bought-Kept k), lookup-bought new, hold)

    due_closed :
        (exit : Float) (reason : String) (costs funding : Float) (benchmark_pct : Option Float)
        (closed_at today : ℕ)
        → Kept j
        → lookup id j ≡ none
        → is_listed id (
            due_for_exit today
              (close_entry id exit reason costs funding benchmark_pct closed_at bought).0)
          ≡ false
    unfolding close_entry
    due_closed exit reason costs funding benchmark_pct closed_at today k new =
        let f : JournalEntry → JournalEntry =
          λ e. graded exit (left exit reason costs funding benchmark_pct closed_at e) in
        ground (
          arith,
          is_listed-due_for_exit today id (change f id bought).0 (
              called bought (change f id bought).0 (bought-Kept k)
                (call_close id exit reason costs funding benchmark_pct closed_at bought)),
          lookup-change f id bought
              (filled price qty fees filled_at (planned_row upper id opened_at p))
              (lookup-bought new),
        )

    -- An entry of a new id that is planned for n sessions, n not 0, is not due while it is only planned;
    -- once it is filled it is due exactly from n + 2 (n / 5) days after the day on which it was opened;
    -- and once it is closed it is due no more.
    pub due_for_exit_lem :
        (n today : ℕ) (exit : Float) (reason : String) (costs funding : Float)
        (benchmark_pct : Option Float) (closed_at : ℕ)
        → Kept j
        → lookup id j ≡ none
        → p.hold_sessions ≡ some n
        → n ≢ 0
        → (is_listed id (due_for_exit today (open_entry upper id opened_at p j).0) ≡ false)
          × (is_listed id (due_for_exit today bought)
              ≡ leb (date_of opened_at + n + (n / 5) * 2) today)
          × (is_listed id (
                due_for_exit today
                  (close_entry id exit reason costs funding benchmark_pct closed_at bought).0)
              ≡ false)
    unfolding sessions_to_calendar_days
    due_for_exit_lem n today exit reason costs funding benchmark_pct closed_at k new hold pos = (
      due_planned upper id opened_at p today j k new,
      ground (arith, due_bought n today k new hold pos),
      due_closed exit reason costs funding benchmark_pct closed_at today k new,
    )
