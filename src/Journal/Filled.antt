-- ===== src/Journal/Filled.antt =====
-- What holds of every entry of the journal after any calls.
use poly_bob.Base.{
  ℕ, ◌≡◌, refl, inl, inr, true, false, Option, some, arith, String, [], ◌==◌, nat_eq, string_eq,
  is_some, Bool-cases, Option-cases,
}
use poly_bob.Base.Dict.{lookup, insert, lookup-insert}
use poly_bob.Base.Float.{Floats, Float}
use poly_bob.Journal.Entries.{
  planned, opened, closed, JournalEntry, Journal, Plan, planned_row, open_entry, get, change,
  filled, record_fill, graded, left, close_entry, given_up, abandon,
}

module _ ⦃fl : Floats⦄ where
  -- An entry under its id is open only with a fill, closed only with an exit, and graded only with both;
  -- the two grades come together.
  pub record IsSound (id : String) (e : JournalEntry) : Type 0 where
    pub same_id : e.entry_id ≡ id
    pub planned_unfilled : e.status ≡ planned → is_some e.actual_entry ≡ false
    pub opened_filled : e.status ≡ opened → is_some e.actual_entry ≡ true
    pub closed_left : e.status ≡ closed → is_some e.actual_exit ≡ true
    pub graded_filled :
        is_some e.realized_pct ≡ true
        → (is_some e.actual_entry ≡ true) × (is_some e.actual_exit ≡ true)
    pub both_grades : is_some e.realized_pct ≡ is_some e.realized_pnl

  pub AllSound : Journal → Type 0
  AllSound j = (id : String) (e : JournalEntry) → lookup id j ≡ some e → IsSound id e

  insert-AllSound :
      (k : String) (e : JournalEntry) (j : Journal)
      → IsSound k e
      → AllSound j
      → AllSound (insert k e j)
  unfolding AllSound
  insert-AllSound k e j s h id w there = elim (Bool-cases (k == id)) [
    | inl same ↦ ground (arith, s, there, lookup-insert k id e j, string_eq.beq_iff k id)
    | inr other ↦ ground (arith, h id w, there, lookup-insert k id e j)
  ]

  planned_row-IsSound :
      (upper : String → String) (id : String) (opened_at : ℕ) (p : Plan)
      → IsSound id (planned_row upper id opened_at p)
  planned_row-IsSound upper id opened_at p = record {
    same_id = refl;
    planned_unfilled = λ h. refl;
    opened_filled = λ h. ground (arith);
    closed_left = λ h. ground (arith);
    graded_filled = λ h. ground (arith);
    both_grades = refl;
  }

  filled-IsSound :
      (price : Float) (qty : Option Float) (fees : Float) (filled_at : ℕ) (id : String)
      (e : JournalEntry)
      → IsSound id e
      → IsSound id (filled price qty fees filled_at e)
  filled-IsSound price qty fees filled_at id e s = record {
    same_id = s.same_id;
    planned_unfilled = λ h. ground (arith);
    opened_filled = λ h. refl;
    closed_left = λ h. ground (arith);
    graded_filled = λ h. (refl, (s.graded_filled h).1);
    both_grades = s.both_grades;
  }

  left-IsSound :
      (price : Float) (reason : String) (fees funding : Float) (benchmark_pct : Option Float)
      (closed_at : ℕ) (id : String) (e : JournalEntry)
      → IsSound id e
      → IsSound id (graded price (left price reason fees funding benchmark_pct closed_at e))
  left-IsSound price reason fees funding benchmark_pct closed_at id e s = record {
    same_id = ground (arith, s.same_id);
    planned_unfilled = λ h. ground (arith);
    opened_filled = λ h. ground (arith);
    closed_left = λ h. ground (arith);
    graded_filled = λ h. (ground (arith, s.graded_filled), ground (arith));
    both_grades = ground (arith, s.both_grades);
  }

  given_up-IsSound :
      (note id : String) (e : JournalEntry) → IsSound id e → IsSound id (given_up note e)
  given_up-IsSound note id e s = record {
    same_id = s.same_id;
    planned_unfilled = λ h. ground (arith);
    opened_filled = λ h. ground (arith);
    closed_left = λ h. ground (arith);
    graded_filled = s.graded_filled;
    both_grades = s.both_grades;
  }

  -- What the calls on an entry keep.
  change-AllSound :
      (f : JournalEntry → JournalEntry) (id : String) (j : Journal)
      → ((e : JournalEntry) → IsSound id e → IsSound id (f e))
      → AllSound j
      → AllSound (change f id j).0
  unfolding AllSound get
  change-AllSound f id j keeps h = elim (Option-cases (lookup id j)) [
    | inl absent ↦ rw (absent, change) h
    | inr (e, here) ↦ rw (here, change) (insert-AllSound id (f e) j (keeps e (h id e here)) h)
  ]

  -- A call that writes to the journal, also one that raises.
  pub data JournalCall : Journal → Journal → Type 0 where
    call_open :
        (upper : String → String) (id : String) (opened_at : ℕ) (p : Plan) (j : Journal)
        → JournalCall j (open_entry upper id opened_at p j).0
    call_fill :
        (id : String) (price : Float) (qty : Option Float) (fees : Float) (filled_at : ℕ)
        (j : Journal)
        → JournalCall j (record_fill id price qty fees filled_at j).0
    call_close :
        (id : String) (price : Float) (reason : String) (fees funding : Float)
        (benchmark_pct : Option Float) (closed_at : ℕ) (j : Journal)
        → JournalCall j (close_entry id price reason fees funding benchmark_pct closed_at j).0
    call_abandon : (id note : String) (j : Journal) → JournalCall j (abandon id note j).0

  pub data Kept : Journal → Type 0 where
    empty : Kept []
    called : (j j' : Journal) → Kept j → JournalCall j j' → Kept j'

  JournalCall-AllSound : (j j' : Journal) → JournalCall j j' → AllSound j → AllSound j'
  unfolding open_entry record_fill close_entry abandon
  JournalCall-AllSound _ _ (call_open upper id opened_at p j) h =
      elim (Bool-cases (is_some (lookup id j))) [
        | inl there ↦ rw there h
        | inr new ↦ rw new (
            insert-AllSound id (planned_row upper id opened_at p) j
              (planned_row-IsSound upper id opened_at p) h)
      ]
  JournalCall-AllSound _ _ (call_fill id price qty fees filled_at j) h =
      change-AllSound (filled price qty fees filled_at) id j
        (filled-IsSound price qty fees filled_at id) h
  JournalCall-AllSound _ _ (call_close id price reason fees funding benchmark_pct closed_at j) h =
      change-AllSound (λ e. graded price (left price reason fees funding benchmark_pct closed_at e))
        id j (left-IsSound price reason fees funding benchmark_pct closed_at id) h
  JournalCall-AllSound _ _ (call_abandon id note j) h =
      change-AllSound (given_up note) id j (given_up-IsSound note id) h

  Kept-AllSound : (j : Journal) → Kept j → AllSound j
  unfolding AllSound lookup
  Kept-AllSound _ empty = λ id e h. ground (arith)
  Kept-AllSound _ (called j j' k c) = JournalCall-AllSound j j' c (Kept-AllSound j k)

  -- After any calls on an empty journal, those that raise included, each entry stands under its own id; a
  -- planned one has no fill, an open one has one, a closed one has an exit price; and an entry has a
  -- realised percentage exactly where it has a realised profit, and only where it has both a fill and an
  -- exit price.
  pub Kept-IsSound :
      (j : Journal) (id : String) (e : JournalEntry) → Kept j → lookup id j ≡ some e → IsSound id e
  unfolding AllSound
  Kept-IsSound j id e k = Kept-AllSound j k id e
