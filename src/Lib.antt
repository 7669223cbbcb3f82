-- ===== src/Lib.antt =====
-- PolyBob: the order books, the event bus, the gates before a trade, the size of a position, the execution
-- of an intent and its restart, and the journal of what was traded.
--
-- A message of the Polymarket feed goes to the book reducer, whose states are published on the event
-- bus; a strategy's intent passes the promotion gate when it is created, and the dedupe window, the
-- limit of open intents and the risk checks when it is submitted; its legs then go as a basket to the
-- executors of their venues, each with an order manager of its own. A paper run of the simulation
-- follows signals through the same risk checker, with fills of its own. The strategy manager starts and
-- stops the strategies that raise intents; a strategy is on the promotion board once its track passed the
-- statistical gate. What was traded by hand goes into the journal, and the account says how much a new
-- position may take.
--
-- Parts and files (the file of the program, then the modules that model it):
--   libs/polymarket/book_state.py: Book.Values (parse_provider_timestamp, float), Book.Levels
--     (normalize_levels, the sorts), Book.State (BookState and its quality) and Book.Reducer
--     (PolymarketBookReducer). Proofs in Book.Levels.Merge, Book.Levels.Sorted, Book.Reducer.Valid,
--     Book.Reducer.Laws and Book.Reducer.Messages.
--   libs/polymarket/replay.py: Book.Replay (replay_book_states).
--   libs/events/__init__.py: Events.Topics (Topics, CRITICAL_TOPICS, LOSSY_TOPICS), Events.Subscription
--     (_Subscription, _coalesce_key, _enqueue_lossy, the head of _consume), Events.Bus (EventBus).
--     Proofs in Events.Invariant, Events.View (the queue that a subscriber is promised) and
--     Events.Safety (calls) and Events.Steps (steps of a bus, and what they reach).
--   modules/risk_manager/risk_checker.py: Risk.Checker; Risk.Admissible says what an allowed decision is,
--     and Risk.Scan and Risk.Decision prove it.
--   libs/quant/promotion_registry.py: Promotion.Registry; proofs in Promotion.Gate.
--   libs/quant/promotion.py: Promotion.Sharpe (the ratios) and Promotion.Evaluate (cost_stress_test and
--     PromotionGate); proofs in Promotion.Multiples and Promotion.Approved.
--   modules/execution_engine/order_manager.py and contract_executor.py: Execution.Orders, with
--     Execution.Orders.Laws.
--   modules/execution_engine/basket_executor.py: Execution.Basket, Execution.Basket.Submit,
--     Execution.Basket.Cancel and, over the repository, Execution.Basket.Restore; proofs in
--     Execution.Basket.Laws, Asked, Outcome, Cancelled, Written, Placed, Withdrawn, Kept, Opened and
--     Mirror.
--   modules/execution_engine/intent_execution_service.py: Execution.Intent (create_intent),
--     Execution.Intent.Submit (submit_intent) and Execution.Intent.Restore (restore_state and what is
--     written); proofs in Execution.Intent.Laws, Execution.Intent.Dedupe, and for the restart
--     Execution.Intent.Mirror, Execution.Intent.Durable, Execution.Intent.Created and
--     Execution.Intent.Roundtrip.
--   libs/db/repositories.py: Store.Intents (IntentRepository), with Store.IntentLaws, Store.Baskets
--     (BasketRepository), and Store.Order (ORDER BY created_at).
--   modules/strategy_manager/service.py: Strategies.Types, Strategies.Templates and Strategies.Manager;
--     proofs in Strategies.Lifecycle and Strategies.Shutdown.
--   libs/db/trade_journal.py: Journal.Entries (the calls that write) and Journal.Measured (the lists and
--     performance); proofs in Journal.Filled, Journal.Horizon, Journal.Ordered, Journal.Graded
--     and Journal.Reported.
--   libs/quant/edge_instance.py and libs/data/sec_insider.py: Edges.Detect and Edges.Clusters; proofs in
--     Edges.Groups, Edges.Fires and Edges.Quarters.
--   libs/portfolio/account.py and sizing.py: Portfolio.Account and Portfolio.Sizing; proofs in
--     Portfolio.Bounds.
--   modules/simulation/service.py: Simulation.Fills (_fill_price, apply_avg_price_fill, with sqrt_impact
--     of libs/backtest/execution.py), Simulation.Trading (_process_signal, _equity_snapshot,
--     _update_mark, with the positions of libs/db/simulation_store.py) and Simulation.Runs (create_run,
--     start_run, pause_run, stop_run); proofs in Simulation.Gate and Simulation.Lifecycle.
--   libs/schemas/__init__.py: the records of intents, legs and baskets stand with the modules above.
--
-- Base holds what these share: Base.Tests (Boolean tests and options), Base.Lists, Base.Dict (a Python
-- dict in insertion order) and Base.Float. Tests runs the program on concrete inputs.
--
-- Conventions. A record is a Python object, and a method is a function from it to it. An exception is
-- none, with the state that the raise leaves where one is changed. A float is an element of the record
-- Floats, whose laws are those of the comparisons, that 0.0 + a is a, and that a sum of two positive
-- floats is positive; there is no NaN, and
-- no integer that is too large for a float (OverflowError). A leg_id that is none stands for the text
-- `{basket_id}:leg{index}` that the basket executor makes for a missing or an empty one. Python's text
-- and date functions are the record Runtime, or arguments; a clock's answer, a drawn id and what a
-- repository read answers are arguments. A time is a number of microseconds. Loops are recursions on the
-- list that they run through, so no fuel is needed: the retry loop of _enqueue_lossy drops one item of
-- the queue in each round, and its recursion is on the queue. Only the loop over the quarters of a window
-- has a number of rounds, as many as there are quarters, and more would find the same (Edges.Quarters).
--
-- What is not modelled: locks, tasks and the event loop (a step of the bus is one round of one task, or
-- one call that goes through without waiting), the log lines, the repositories other than those
-- of intents and baskets, restore_state of the simulation, the hash of a book state, and the
-- HTTP, data and research code around these parts. The sum of a list of floats, what numpy and scipy
-- compute, and what a strategy's own start and stop do are parameters.
pub mod Base
pub mod Book
pub mod Events
pub mod Risk
pub mod Promotion
pub mod Execution
pub mod Simulation
pub mod Strategies
pub mod Store
pub mod Journal
pub mod Portfolio
pub mod Edges
pub mod Tests
