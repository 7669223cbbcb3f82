-- ===== src/Journal/Measured.antt =====
-- What is read from the journal (libs/db/trade_journal.py): `list_entries`, `due_for_exit` and
-- `performance`. A list of rows is sorted stably, and `sum` is
-- Python's sum of a list of floats.
use poly_bob.Base.{
  ℕ, zero, suc, Bool, true, false, ◌&&◌, Option, some, none, if◌then◌else◌, String, List, [], ◌∷◌,
  ◌++◌, map, ◌==◌, nat_eq, string_eq, get_or, or_else, is_some, length, keep, count, leb, or_str,
}
use poly_bob.Base.Dict.{Dict, lookup, insert}
use poly_bob.Base.Float.{Floats, Float, ◌<f◌, ◌-f◌, ◌/f◌, lit, 0f}
use poly_bob.Journal.Entries.{
  EntryStatus, opened, closed, same_status, is_open, JournalEntry, Journal,
}

-- A limit of SQL, that is not negative.
unfoldable pub take {ℓ} : {A : Type ℓ} → ℕ → List A → List A
take zero xs = []
take (suc n) [] = []
take (suc n) (x ∷ xs) = x ∷ take n xs

module _ ⦃fl : Floats⦄ where
  abbrev pub entries : Journal → List JournalEntry
  entries j = map (λ e. e.1) j

  module _ (before : JournalEntry → JournalEntry → Bool) where
    -- `ORDER BY`: `before x y` says that x may stand before y.
    unfoldable pub place : JournalEntry → List JournalEntry → List JournalEntry
    place e [] = e ∷ []
    place e (x ∷ xs) = if before e x then e ∷ x ∷ xs else x ∷ place e xs

    unfoldable pub order_by : List JournalEntry → List JournalEntry
    order_by [] = []
    order_by (e ∷ es) = place e (order_by es)

  abbrev pub names_edge : Option String → JournalEntry → Bool
  names_edge edge_id e = elim (or_str edge_id none) [ none ↦ true | some edge ↦ e.edge_id == edge ]

  abbrev pub has_status : Option EntryStatus → JournalEntry → Bool
  has_status none e = true
  has_status (some status) e = same_status e.status status

  unfoldable pub list_entries :
      (edge_id : Option String)
      → (status : Option EntryStatus) → (limit : ℕ) → Journal
      → List JournalEntry
  list_entries edge_id status limit j = take limit (
      order_by (λ x y. leb y.opened_at x.opened_at)
        (keep (λ e. names_edge edge_id e && has_status status e) (entries j)))

  -- The `WHERE` of `due_for_exit`.
  abbrev pub is_due : (today : ℕ) → JournalEntry → Bool
  is_due today e =
      same_status e.status opened
      && (elim e.planned_exit_on [ none ↦ false | some day ↦ leb day today ])

  abbrev pub exits_before : JournalEntry → JournalEntry → Bool
  exits_before x y = leb (get_or x.planned_exit_on 0) (get_or y.planned_exit_on 0)

  unfoldable pub due_for_exit : (today : ℕ) → Journal → List JournalEntry
  due_for_exit today j = order_by exits_before (keep (is_due today) (entries j))

  -- `status == "closed" and realized_pct is not None`
  abbrev pub is_measured : JournalEntry → Bool
  is_measured e = same_status e.status closed && is_some e.realized_pct

  -- `by_edge.setdefault(edge, []).append(entry)`
  unfoldable pub group_by_edge :
      List JournalEntry → Dict String (List JournalEntry) → Dict String (List JournalEntry)
  group_by_edge [] groups = groups
  group_by_edge (e ∷ es) groups =
      group_by_edge es (insert e.edge_id (get_or (lookup e.edge_id groups) [] ++ e ∷ []) groups)

  -- The first research figure that a row has.
  unfoldable pub first_research : List JournalEntry → Option Float
  first_research [] = none
  first_research (e ∷ es) = or_else e.research_pct (first_research es)

  pub record Performance : Type 0 where
    pub closed_trades : ℕ
    pub win_rate : Float
    pub realized_mean_pct : Float
    pub research_pct : Option Float
    pub slippage_pct : Option Float
    pub total_fees : Float
    pub total_funding : Float
    pub open_positions : ℕ

  abbrev pub is_win : JournalEntry → Bool
  is_win e = 0f <f get_or e.realized_pct 0f

  module _ (sum : List Float → Float) where
    abbrev pub mean_pct : List JournalEntry → Float
    mean_pct rows = sum (map (λ e. get_or e.realized_pct 0f) rows) /f lit (length rows) 0

    -- What is said of an edge with these rows.
    unfoldable pub summary : Journal → String → List JournalEntry → Performance
    summary j edge rows = record {
      closed_trades = length rows;
      win_rate = fl.round_4 (lit (count is_win rows) 0 /f lit (length rows) 0);
      realized_mean_pct = fl.round_4 (mean_pct rows);
      research_pct = first_research rows;
      slippage_pct = elim (first_research rows) [
        | none ↦ none
        | some research ↦ some (fl.round_4 (mean_pct rows -f research))
      ];
      total_fees = fl.round_4 (sum (map (λ e. e.fees) rows));
      total_funding = fl.round_4 (sum (map (λ e. e.funding) rows));
      open_positions =
          length (keep (λ e. is_open e.status) (list_entries (some edge) none 10000 j));
    }

    unfoldable pub summaries : Journal → Dict String (List JournalEntry) → Dict String Performance
    summaries j [] = []
    summaries j ((edge, rows) ∷ groups) = (edge, summary j edge rows) ∷ summaries j groups

    unfoldable pub performance : (edge_id : Option String) → Journal → Dict String Performance
    performance edge_id j =
        summaries j (group_by_edge (keep is_measured (list_entries edge_id none 10000 j)) [])
