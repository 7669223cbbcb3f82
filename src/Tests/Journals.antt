-- ===== src/Tests/Journals.antt =====
-- An insider trade held for twenty sessions.
use poly_bob.Base.{
  ℕ, zero, suc, ◌+◌, ◌-◌, ◌*◌, ◌/◌, ◌%◌, ◌≤◌, ◌<◌, ◌≡◌, refl, sym, ap, ◌∙◌, ◌≢◌, ◌↔◌, ◌⊎◌, inl, inr,
  Bool, true, false, not, ◌&&◌, ◌||◌, Option, some, none, if◌then◌else◌, arith, String, List, [],
  ◌∷◌, ◌++◌, map, append-nil, append_assoc, ◌==◌, Eq, nat_eq, string_eq, get_or, or_else, All,
  All-imp, All-append, is_some, is_empty, length, any, all, keep, count, Bool-cases, Option-cases,
  ltb, leb, length-append, found, some_pair, or_str, is_text,
}
use poly_bob.Base.Dict.{lookup, insert}
use poly_bob.Base.Float.{Floats, Float, lit, 0f}
use poly_bob.Tests.Samples.{fixed_floats}
use poly_bob.Journal.Entries.{
  is_open, EntryStatus, planned, opened, closed, JournalEntry, Journal, Plan, planned_row,
  open_entry, record_fill, close_entry, sessions_to_calendar_days, date_of,
}
use poly_bob.Journal.Measured.{
  Performance, entries, due_for_exit, list_entries, is_measured, performance, summary,
}
use poly_bob.Journal.Filled.{
  IsSound, Kept, empty, called, call_open, call_fill, call_close, Kept-IsSound,
}
use poly_bob.Journal.Horizon.{is_listed, bought, due_for_exit_lem}
use poly_bob.Journal.Reported.{is_reported, asks_for, Reports, performance_lem}
use poly_bob.Journal.Ordered.{IsNewestFirst}
use mathlib.Core.List.{Perm}

-- Noon of day 20000.
abbrev noon : ℕ
noon = 20000 * 86400000000 + 43200000000

abbrev plan : Plan
plan = record {
  edge_id = "us_insider_cluster_buy";
  symbol = "ACME";
  domain = "us_equity";
  direction = "long";
  planned_entry = some (lit 10 0);
  planned_stop = none;
  hold_sessions = some 20;
  qty = some (lit 5 0);
  intent_id = none;
  evidence = "";
  research_pct = some (lit 5 0);
  meta = "";
}

abbrev upper : String → String
upper s = s

abbrev planned_journal : Journal
planned_journal = (open_entry upper "jrn_1" noon plan []).0

abbrev open_journal : Journal
open_journal = bought upper "jrn_1" noon plan (lit 10 0) none (lit 1 0) noon []

abbrev closed_journal : Journal
closed_journal =
    (close_entry "jrn_1" (lit 12 0) "horizon" (lit 1 0) 0f none (noon + 86400000000 * 28)
      open_journal).0

closed_kept : Kept closed_journal
closed_kept =
    called open_journal closed_journal
      (called planned_journal open_journal
        (called [] planned_journal empty (call_open upper "jrn_1" noon plan []))
        (call_fill "jrn_1" (lit 10 0) none (lit 1 0) noon planned_journal))
      (call_close "jrn_1" (lit 12 0) "horizon" (lit 1 0) 0f none (noon + 86400000000 * 28)
        open_journal)

-- A fifth gained on 50, less 2 of fees, is 16 per cent.
gained :
    (elim (lookup "jrn_1" closed_journal) [ none ↦ none | some e ↦ e.realized_pct ])
    ≡ some (lit 16 0)
unfolding lookup close_entry poly_bob.Journal.Entries.get record_fill open_entry insert
    poly_bob.Journal.Entries.realized_pct poly_bob.Base.Float.abs
gained = refl

closed_entry : (e : JournalEntry) × (lookup "jrn_1" closed_journal ≡ some e)
unfolding lookup close_entry poly_bob.Journal.Entries.get record_fill open_entry insert
closed_entry = found (lookup "jrn_1" closed_journal) refl

Kept-IsSound_example : IsSound "jrn_1" closed_entry.0
Kept-IsSound_example = Kept-IsSound closed_journal "jrn_1" closed_entry.0 closed_kept closed_entry.1

abbrev empty_journal : Journal
empty_journal = []

no_entry : lookup "jrn_1" empty_journal ≡ none
unfolding lookup
no_entry = refl

due_for_exit_lem_example :
    (is_listed "jrn_1" (due_for_exit 20028 planned_journal) ≡ false)
    × (is_listed "jrn_1" (due_for_exit 20028 open_journal)
        ≡ leb (date_of noon + 20 + (20 / 5) * 2) 20028)
    × (is_listed "jrn_1" (due_for_exit 20028 closed_journal) ≡ false)
due_for_exit_lem_example =
    due_for_exit_lem upper "jrn_1" noon plan (lit 10 0) none (lit 1 0) noon [] 20 20028 (lit 12 0)
      "horizon" (lit 1 0) 0f none (noon + 86400000000 * 28) empty no_entry refl
      (λ h. omega (arith, h))

due_that_day : is_listed "jrn_1" (due_for_exit 20028 open_journal) ≡ true
unfolding due_for_exit poly_bob.Journal.Measured.order_by record_fill poly_bob.Journal.Entries.get
    lookup open_entry insert poly_bob.Journal.Entries.planned_exit date_of sessions_to_calendar_days
    poly_bob.Journal.Measured.place
due_that_day = refl

not_before : is_listed "jrn_1" (due_for_exit 20027 open_journal) ≡ false
unfolding due_for_exit poly_bob.Journal.Measured.order_by record_fill poly_bob.Journal.Entries.get
    lookup open_entry insert poly_bob.Journal.Entries.planned_exit date_of sessions_to_calendar_days
not_before = refl

abbrev total : List Float → Float
total [] = 0f
total (x ∷ xs) = fixed_floats.add x (total xs)

one_entry : length (entries closed_journal) ≡ 1
unfolding lookup close_entry poly_bob.Journal.Entries.get record_fill open_entry insert
one_entry = refl

within_limit : length (entries closed_journal) ≤ 10000
within_limit = ground (arith, one_entry)

performance_lem_example :
    (rows : List JournalEntry) × Perm rows
      (keep (is_reported none "us_insider_cluster_buy") (entries closed_journal))
    × IsNewestFirst rows
    × (((rows ≡ [])
          × (lookup "us_insider_cluster_buy" (performance total none closed_journal) ≡ none))
        ⊎ ((p : Performance) × (lookup "us_insider_cluster_buy"
                (performance total none closed_journal)
              ≡ some p)
            × Reports total rows
                (count
                  (λ e. asks_for (some "us_insider_cluster_buy") e && is_open e.status)
                  (entries closed_journal))
                p))
performance_lem_example =
    performance_lem total none closed_journal "us_insider_cluster_buy" within_limit

abbrev trades : ℕ
trades = elim (lookup "us_insider_cluster_buy" (performance total none closed_journal)) [
  | none ↦ 0
  | some s ↦ s.closed_trades
]

one_trade : trades ≡ 1
unfolding lookup performance poly_bob.Journal.Measured.summaries
    poly_bob.Journal.Measured.group_by_edge list_entries poly_bob.Journal.Measured.take
    poly_bob.Journal.Measured.order_by close_entry poly_bob.Journal.Entries.get record_fill
    open_entry insert poly_bob.Journal.Measured.place summary
one_trade = refl
