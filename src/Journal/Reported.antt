-- ===== src/Journal/Reported.antt =====
-- What `performance` reports of an edge (libs/db/trade_journal.py), said of the entries of the journal.
use poly_bob.Base.{
  ℕ, ◌≤◌, ◌≡◌, refl, sym, subst, ap, ◌∙◌, ◌⊎◌, inl, inr, Bool, true, ◌&&◌, ◌||◌, Option, some, none,
  if◌then◌else◌, arith, String, List, [], ◌∷◌, ◌++◌, map, ◌==◌, nat_eq, string_eq, get_or, or_else,
  is_some, is_empty, keep, count, length, All, All-imp, Bool-cases, Option-cases,
}
use poly_bob.Base.Dict.{lookup}
use mathlib.Core.List.{Perm}
use poly_bob.Base.Float.{Floats, Float, ◌<f◌, ◌-f◌, ◌/f◌, lit, 0f}
use poly_bob.Journal.Entries.{closed, same_status, is_open, JournalEntry, Journal}
use poly_bob.Journal.Measured.{
  entries, order_by, names_edge, has_status, list_entries, is_measured, is_win, first_research,
  Performance, mean_pct, summary, performance,
}
use poly_bob.Journal.Ordered.{
  keep-keep, keep_same, count-keep, length-keep, length-keep_le, All-keep_own, take_all,
  length-order_by, keep-order_by-perm, count-order_by, newest, IsNewestFirst,
  order_by-IsNewestFirst, keep-IsNewestFirst,
}
use poly_bob.Journal.Graded.{of_edge, lookup-performance}

module _ ⦃fl : Floats⦄ where
  -- An optional filter on the edge; an empty text is none.
  abbrev pub asks_for : Option String → JournalEntry → Bool
  asks_for none e = true
  asks_for (some edge) e = (edge == "") || (e.edge_id == edge)

  -- The closed and graded entries of an edge, among those asked for.
  abbrev pub is_reported : Option String → String → JournalEntry → Bool
  is_reported edge_id edge e =
      asks_for edge_id e
      && (e.edge_id == edge)
      && same_status e.status closed
      && is_some e.realized_pct

  -- The research figure of the first row that has one.
  abbrev pub IsFirstResearch : List JournalEntry → Option Float → Type 0
  IsFirstResearch rows none = All (λ e. e.research_pct ≡ none) rows
  IsFirstResearch rows (some x) =
      (before after : List JournalEntry) × (e : JournalEntry) × (rows ≡ before ++ e ∷ after)
      × All (λ e. e.research_pct ≡ none) before
      × (e.research_pct ≡ some x)

  abbrev pub slippage : Float → Option Float → Option Float
  slippage mean none = none
  slippage mean (some research) = some (fl.round_4 (mean -f research))

  -- A report on rows, with the number of open entries. A win is a return above 0, and the slippage is the
  -- mean return less the research figure.
  pub record Reports (sum : List Float → Float) (rows : List JournalEntry) (open_entries : ℕ)
      (p : Performance) : Type 0 where
    pub returns : List Float
    pub all_returns : map (λ e. e.realized_pct) rows ≡ map some returns
    pub trades : p.closed_trades ≡ length rows
    pub wins : p.win_rate ≡ fl.round_4 (lit (count (λ x. 0f <f x) returns) 0 /f lit (length rows) 0)
    pub mean : p.realized_mean_pct ≡ fl.round_4 (sum returns /f lit (length rows) 0)
    pub research : IsFirstResearch rows p.research_pct
    pub gap : p.slippage_pct ≡ slippage (sum returns /f lit (length rows) 0) p.research_pct
    pub fees : p.total_fees ≡ fl.round_4 (sum (map (λ e. e.fees) rows))
    pub funding : p.total_funding ≡ fl.round_4 (sum (map (λ e. e.funding) rows))
    pub positions : p.open_positions ≡ open_entries

  returns_of : List JournalEntry → List Float
  returns_of rows = map (λ e. get_or e.realized_pct 0f) rows

  IsGraded : JournalEntry → Type 0
  IsGraded e = is_some e.realized_pct ≡ true

  returns_of_lem :
      (rows : List JournalEntry)
      → All IsGraded rows
      → map (λ e. e.realized_pct) rows ≡ map some (returns_of rows)
  unfolding returns_of IsGraded
  returns_of_lem [] h = refl
  returns_of_lem (e ∷ rows) h = ground (arith, h.0, returns_of_lem rows h.1)

  count-returns_of :
      (rows : List JournalEntry) → count is_win rows ≡ count (λ x. 0f <f x) (returns_of rows)
  unfolding returns_of
  count-returns_of [] = refl
  count-returns_of (e ∷ rows) = ground (arith, count-returns_of rows)

  IsFirstResearch-cons :
      (e : JournalEntry) (rows : List JournalEntry) (o : Option Float)
      → e.research_pct ≡ none
      → IsFirstResearch rows o
      → IsFirstResearch (e ∷ rows) o
  IsFirstResearch-cons e rows none h rest = (h, rest)
  IsFirstResearch-cons e rows (some x) h (before, after, found, same, others, here) =
      (e ∷ before, after, found, ap (◌∷◌ e) same, (h, others), here)

  first_research_lem : (rows : List JournalEntry) → IsFirstResearch rows (first_research rows)
  unfolding first_research
  first_research_lem [] = tt
  first_research_lem (e ∷ rows) = elim (Option-cases e.research_pct) [
    | inl absent ↦
        subst (λ o. IsFirstResearch (e ∷ rows) (or_else o (first_research rows))) (sym absent)
          (IsFirstResearch-cons e rows (first_research rows) absent (first_research_lem rows))
    | inr (x, here) ↦
        subst (λ o. IsFirstResearch (e ∷ rows) (or_else o (first_research rows))) (sym here)
          ([], rows, e, refl, tt, here)
  ]

  asked_lem :
      (asked : Option String) (e : JournalEntry)
      → (names_edge asked e && has_status none e) ≡ asks_for asked e
  asked_lem none e = refl
  asked_lem (some edge) e = ground (arith)

  -- All entries that are asked for are read, where the journal is within the limit.
  list_entries_lem :
      (asked : Option String) (j : Journal)
      → length (entries j) ≤ 10000
      → list_entries asked none 10000 j ≡ order_by newest (keep (asks_for asked) (entries j))
  unfolding list_entries
  list_entries_lem asked j few =
      let q : JournalEntry → Bool = λ e. names_edge asked e && has_status none e in
      let same : keep q (entries j) ≡ keep (asks_for asked) (entries j) =
        keep_same q (asks_for asked) (entries j) (asked_lem asked) in
      take_all 10000 (order_by newest (keep q (entries j))) (
        ground
          (arith, few, length-order_by newest (keep q (entries j)), length-keep_le q (entries j)))
      ∙ ap (order_by newest) same

  list_open :
      (edge : String) (j : Journal)
      → length (entries j) ≤ 10000
      → length (keep (λ e. is_open e.status) (list_entries (some edge) none 10000 j))
        ≡ count (λ e. asks_for (some edge) e && is_open e.status) (entries j)
  list_open edge j few =
      let is_open_one : JournalEntry → Bool = λ e. is_open e.status in
      ap (λ es. length (keep is_open_one es)) (list_entries_lem (some edge) j few)
      ∙ length-keep is_open_one (order_by newest (keep (asks_for (some edge)) (entries j)))
      ∙ count-order_by newest is_open_one (keep (asks_for (some edge)) (entries j))
      ∙ count-keep is_open_one (asks_for (some edge)) (entries j)

  summary-slippage :
      (sum : List Float → Float) (j : Journal) (edge : String) (rows : List JournalEntry)
      → (summary sum j edge rows).slippage_pct ≡ slippage (mean_pct sum rows) (first_research rows)
  unfolding summary
  summary-slippage sum j edge rows = elim (Option-cases (first_research rows)) [
    | inl absent ↦ rw (absent, summary) refl
    | inr (x, here) ↦ rw (here, summary) refl
  ]

  summary_lem :
      (sum : List Float → Float) (j : Journal) (edge : String) (rows : List JournalEntry)
      → length (entries j) ≤ 10000
      → All IsGraded rows
      → Reports sum rows
          (count (λ e. asks_for (some edge) e && is_open e.status) (entries j))
          (summary sum j edge rows)
  unfolding summary returns_of
  summary_lem sum j edge rows few graded = record {
    returns = returns_of rows;
    all_returns = returns_of_lem rows graded;
    trades = refl;
    wins = ap (λ n. fl.round_4 (lit n 0 /f lit (length rows) 0)) (count-returns_of rows);
    mean = refl;
    research = first_research_lem rows;
    gap = summary-slippage sum j edge rows;
    fees = refl;
    funding = refl;
    positions = list_open edge j few;
  }

  own_lem :
      (edge_id : Option String) (edge : String) (e : JournalEntry)
      → (asks_for edge_id e && (is_measured e && (e.edge_id == edge))) ≡ is_reported edge_id edge e
  own_lem edge_id edge e = ground (arith)

  measured-IsGraded :
      (e : JournalEntry) (edge : String)
      → (is_measured e && (e.edge_id == edge)) ≡ true
      → IsGraded e
  unfolding IsGraded
  measured-IsGraded e edge h = ground (arith)

  is_empty_nil : (rows : List JournalEntry) → is_empty rows ≡ true → rows ≡ []
  is_empty_nil [] h = refl
  is_empty_nil (e ∷ rows) h = ground (arith)

  -- Take a journal of at most 10000 entries, and an edge. The rows of the edge are its closed and graded
  -- entries that are asked for, each once, newest first. Without such an entry `performance` says nothing
  -- of the edge; otherwise it reports on these rows: their number, the share of returns above 0, the mean
  -- return, the first research figure and the mean's distance from it, the fees and the funding, and the
  -- open and planned entries of the edge, or of all edges where its text is empty. The figures are rounded, and `sum` adds the rows in their order.
  pub performance_lem :
      (sum : List Float → Float) (edge_id : Option String) (j : Journal) (edge : String)
      → length (entries j) ≤ 10000
      → (rows : List JournalEntry) × Perm rows (keep (is_reported edge_id edge) (entries j))
        × IsNewestFirst rows
        × (((rows ≡ []) × (lookup edge (performance sum edge_id j) ≡ none))
            ⊎ ((p : Performance) × (lookup edge (performance sum edge_id j) ≡ some p)
                × Reports sum rows
                    (count (λ e. asks_for (some edge) e && is_open e.status) (entries j))
                    p))
  performance_lem sum edge_id j edge few =
      let es : List JournalEntry = keep (asks_for edge_id) (entries j) in
      let own : JournalEntry → Bool = λ e. is_measured e && (e.edge_id == edge) in
      let rows : List JournalEntry = keep own (order_by newest es) in
      let read : of_edge edge (keep is_measured (list_entries edge_id none 10000 j)) ≡ rows =
        keep-keep (λ e. e.edge_id == edge) is_measured (list_entries edge_id none 10000 j)
        ∙ ap (keep own) (list_entries_lem edge_id j few) in
      let reported : keep own es ≡ keep (is_reported edge_id edge) (entries j) =
        keep-keep own (asks_for edge_id) (entries j)
        ∙ keep_same (λ e. asks_for edge_id e && own e) (is_reported edge_id edge) (entries j)
            (own_lem edge_id edge) in
      let answer : lookup edge (performance sum edge_id j)
          ≡ (if is_empty rows then none else some (summary sum j edge rows)) =
        subst
          (λ r.
            lookup edge (performance sum edge_id j)
            ≡ (if is_empty r then none else some (summary sum j edge r)))
          read (lookup-performance sum edge_id j edge) in
      let graded : All IsGraded rows =
        All-imp rows (λ e h. measured-IsGraded e edge h) (All-keep_own own (order_by newest es)) in
      (
        rows,
        subst (Perm rows) reported (keep-order_by-perm newest own es),
        keep-IsNewestFirst own (order_by newest es) (order_by-IsNewestFirst es),
        elim (Bool-cases (is_empty rows)) [
          | inl nothing ↦ inl (
            is_empty_nil rows nothing,
            answer ∙ ap (λ b. if b then none else some (summary sum j edge rows)) nothing,
          )
          | inr some_row ↦ inr (
            summary sum j edge rows,
            answer ∙ ap (λ b. if b then none else some (summary sum j edge rows)) some_row,
            summary_lem sum j edge rows few graded,
          )
        ],
      )
