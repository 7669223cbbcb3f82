-- ===== src/Journal/Entries.antt =====
-- `TradeJournal` (libs/db/trade_journal.py) over its table, whose rows are in the order of their
-- insertion and keyed by `entry_id`. A time is a number of microseconds since the epoch in UTC, and a
-- date a number of days. The extra data of an entry is a text, and `upper` is `str.upper`.
use poly_bob.Base.{
  ℕ, ◌+◌, ◌*◌, ◌/◌, Bool, true, false, Option, some, none, if◌then◌else◌, String, ◌==◌, nat_eq,
  string_eq, get_or, or_else, is_some,
}
use poly_bob.Base.Dict.{Dict, lookup, insert}
use poly_bob.Base.Float.{Floats, Float, ◌<f◌, ◌+f◌, ◌-f◌, ◌*f◌, ◌/f◌, lit, 0f, 1f, abs}

-- The texts of a status; the code has no others.
pub data EntryStatus : Type 0 where
  planned opened closed abandoned : EntryStatus

abbrev pub same_status : EntryStatus → EntryStatus → Bool
same_status planned planned = true
same_status opened opened = true
same_status closed closed = true
same_status abandoned abandoned = true
same_status _ _ = false

-- `status in OPEN_STATUSES`
abbrev pub is_open : EntryStatus → Bool
is_open planned = true
is_open opened = true
is_open _ = false

-- `_sessions_to_calendar_days`
unfoldable pub sessions_to_calendar_days : ℕ → ℕ
sessions_to_calendar_days sessions = sessions + (sessions / 5) * 2

abbrev pub day_length : ℕ
day_length = 86400 * 1000000

-- `datetime.date()`
unfoldable pub date_of : ℕ → ℕ
date_of time = time / day_length

-- `planned_exit_on` of a new entry: no period and a period of 0 give none.
unfoldable pub planned_exit : ℕ → Option ℕ → Option ℕ
planned_exit opened_at none = none
planned_exit opened_at (some n) =
    if n == 0 then none else some (date_of opened_at + sessions_to_calendar_days n)

module _ ⦃fl : Floats⦄ where
  pub record JournalEntry : Type 0 where
    pub entry_id : String
    pub edge_id : String
    pub symbol : String
    pub domain : String
    pub direction : String
    pub status : EntryStatus
    pub opened_at : ℕ
    pub intent_id : Option String
    pub planned_entry : Option Float
    pub planned_stop : Option Float
    pub planned_exit_on : Option ℕ
    pub hold_sessions : Option ℕ
    pub qty : Option Float
    pub actual_entry : Option Float
    pub entry_filled_at : Option ℕ
    pub actual_exit : Option Float
    pub exit_filled_at : Option ℕ
    pub exit_reason : Option String
    pub fees : Float
    pub funding : Float
    pub realized_pnl : Option Float
    pub realized_pct : Option Float
    pub benchmark_pct : Option Float
    pub research_pct : Option Float
    pub evidence : String
    pub note : String
    pub meta : String

  abbrev pub Journal : Type 0
  Journal = Dict String JournalEntry

  -- The arguments of `open_entry`.
  pub record Plan : Type 0 where
    pub edge_id : String
    pub symbol : String
    pub domain : String
    pub direction : String
    pub planned_entry : Option Float
    pub planned_stop : Option Float
    pub hold_sessions : Option ℕ
    pub qty : Option Float
    pub intent_id : Option String
    pub evidence : String
    pub research_pct : Option Float
    pub meta : String

  abbrev pub planned_row :
      (upper : String → String) → (entry_id : String) → (opened_at : ℕ) → Plan → JournalEntry
  planned_row upper entry_id opened_at p = record {
    entry_id = entry_id;
    edge_id = p.edge_id;
    symbol = upper p.symbol;
    domain = p.domain;
    direction = p.direction;
    status = planned;
    opened_at = opened_at;
    intent_id = p.intent_id;
    planned_entry = p.planned_entry;
    planned_stop = p.planned_stop;
    planned_exit_on = planned_exit opened_at p.hold_sessions;
    hold_sessions = p.hold_sessions;
    qty = p.qty;
    actual_entry = none;
    entry_filled_at = none;
    actual_exit = none;
    exit_filled_at = none;
    exit_reason = none;
    fees = 0f;
    funding = 0f;
    realized_pnl = none;
    realized_pct = none;
    benchmark_pct = none;
    research_pct = p.research_pct;
    evidence = p.evidence;
    note = "";
    meta = p.meta;
  }

  -- `open_entry` with a drawn id; none where `INSERT` raises, on an id that is there.
  unfoldable pub open_entry :
      (upper : String → String)
      → (entry_id : String) → (opened_at : ℕ) → Plan
      → Journal
      → Journal × Option JournalEntry
  open_entry upper entry_id opened_at p j =
      let entry = planned_row upper entry_id opened_at p in
      if is_some (lookup entry_id j) then (j, none) else (insert entry_id entry j, some entry)

  -- `get`
  unfoldable pub get : String → Journal → Option JournalEntry
  get entry_id j = lookup entry_id j

  -- What the three calls on an entry share: KeyError is none, and the changed entry is written.
  abbrev pub change :
      (JournalEntry → JournalEntry) → String → Journal → Journal × Option JournalEntry
  change f entry_id j = elim (get entry_id j) [
    | none ↦ (j, none)
    | some e ↦ (insert entry_id (f e) j, some (f e))
  ]

  abbrev pub filled :
      (price : Float)
      → (qty : Option Float) → (fees : Float) → (filled_at : ℕ) → JournalEntry
      → JournalEntry
  filled price qty fees filled_at e = record e {
    actual_entry = some price;
    entry_filled_at = some filled_at;
    fees = e.fees +f fees;
    qty = or_else qty e.qty;
    status = opened;
  }

  unfoldable pub record_fill :
      (entry_id : String)
      → (price : Float) → (qty : Option Float) → (fees : Float) → (filled_at : ℕ) → Journal
      → Journal × Option JournalEntry
  record_fill entry_id price qty fees filled_at j =
      change (filled price qty fees filled_at) entry_id j

  abbrev pub sign : String → Float
  sign direction = if direction == "short" then fl.neg 1f else 1f

  -- `realized_pct` and `realized_pnl` of an entry that filled at `entry` and left at `exit`.
  unfoldable pub realized_pct : JournalEntry → (entry exit : Float) → Float
  realized_pct e entry exit =
      let gross = sign e.direction *f (exit -f entry) /f entry in
      let notional = abs (get_or e.qty 0f) *f entry in
      let cost = if 0f <f notional then (e.fees -f e.funding) /f notional else 0f in
      fl.round_4 ((gross -f cost) *f lit 100 0)

  unfoldable pub realized_pnl : JournalEntry → (entry exit : Float) → Float
  realized_pnl e entry exit =
      fl.round_4
        (sign e.direction *f (exit -f entry) *f abs (get_or e.qty 0f) -f e.fees +f e.funding)

  -- The last part of `close_entry`: only an entry that filled at a positive price is graded.
  abbrev pub graded : (exit : Float) → JournalEntry → JournalEntry
  graded exit e = elim e.actual_entry [
    | none ↦ e
    | some entry ↦
        if 0f <f entry
        then record e {
          realized_pct = some (realized_pct e entry exit);
          realized_pnl = some (realized_pnl e entry exit);
        }
        else e
  ]

  abbrev pub left :
      (price : Float)
      → (reason : String) → (fees funding : Float) → (benchmark_pct : Option Float)
      → (closed_at : ℕ) → JournalEntry
      → JournalEntry
  left price reason fees funding benchmark_pct closed_at e = record e {
    actual_exit = some price;
    exit_filled_at = some closed_at;
    exit_reason = some reason;
    fees = e.fees +f fees;
    funding = e.funding +f funding;
    benchmark_pct = benchmark_pct;
    status = closed;
  }

  unfoldable pub close_entry :
      (entry_id : String)
      → (price : Float) → (reason : String) → (fees funding : Float)
      → (benchmark_pct : Option Float) → (closed_at : ℕ) → Journal
      → Journal × Option JournalEntry
  close_entry entry_id price reason fees funding benchmark_pct closed_at j =
      change (λ e. graded price (left price reason fees funding benchmark_pct closed_at e)) entry_id
        j

  abbrev pub given_up : (note : String) → JournalEntry → JournalEntry
  given_up note e = record e { status = abandoned; note = if note == "" then e.note else note }

  unfoldable pub abandon : (entry_id note : String) → Journal → Journal × Option JournalEntry
  abandon entry_id note j = change (given_up note) entry_id j
