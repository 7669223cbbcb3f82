-- ===== src/Simulation/Gate.antt =====
-- When a signal trades, and when an equity point is marked as degraded (modules/simulation/service.py).
use poly_bob.Base.{
  ◌+◌, ◌<◌, ◌⊎◌, ◌↔◌, none, sym, Bool-cases, ℕ, ◌≡◌, refl, ◌∙◌, subst, ◌≢◌, inl, inr, Bool, true,
  false, ◌||◌, some, arith, String, [], ◌∷◌, nat_eq, string_eq, get_or, or_else, is_some, any,
  Option-cases,
}
use poly_bob.Base.Dict.{Dict, lookup, insert}
use poly_bob.Base.Float.{Floats, Float, ◌<f◌, ◌+f◌, ◌*f◌, 0f, abs}
use poly_bob.Risk.Checker.{RiskLimits}
use poly_bob.Simulation.Fills.{SimSignal, fill_price}
use poly_bob.Simulation.Trading.{
  is_running, Position, ActiveRun, Equity, is_degraded, value_positions, insert_by_id,
  list_positions, equity_snapshot, mark_signal, middle, too_old, cooling, proposal, check_trade,
  act, process_signal,
}

or_swap : (a b c : Bool) → a || (b || c) ≡ (b || a) || c
or_swap a b c = ground (arith)

or_false : (a : Bool) → a || false ≡ a
or_false a = ground (arith)

module _ ⦃fl : Floats⦄ where
  -- What of a run a signal's mark leaves alone.
  mark_signal_keeps :
      (s : SimSignal) (r : ActiveRun)
      → ((mark_signal s r).trades ≡ r.trades)
        × ((mark_signal s r).config ≡ r.config)
        × ((mark_signal s r).last_trade_at ≡ r.last_trade_at)
        × ((mark_signal s r).cash ≡ r.cash)
  unfolding mark_signal
  mark_signal_keeps s r = elim (Option-cases (or_else s.mid (middle s.bid s.ask))) [
    | inl h ↦ rw (h, mark_signal) (refl, refl, refl, refl)
    | inr (m, h) ↦ rw (h, mark_signal) (refl, refl, refl, refl)
  ]

  -- A trade that the risk checker allowed, at a price that could be had.
  abbrev pub Allowed : RiskLimits → ℕ → SimSignal → ActiveRun → Type 0
  Allowed limits now s r =
      (qty : Float) × (est : Float) × (proposal s (equity_snapshot now r).equity r
        ≡ some (qty, est))
      × ((check_trade limits s.instrument_id qty est (equity_snapshot now r).notionals
            r.cash).allowed
          ≡ true)
      × (is_some (fill_price r.config s qty) ≡ true)

  act_trades :
      (limits : RiskLimits) (now : ℕ) (s : SimSignal) (r : ActiveRun)
      → (act limits now s r).trades ≢ r.trades
      → (too_old r.config.max_staleness now s.timestamp ≡ false)
        × (cooling r.config.cooldown now (lookup s.instrument_id r.last_trade_at) ≡ false)
        × ((0f <f (equity_snapshot now r).equity) ≡ true)
        × Allowed limits now s r
  act_trades limits now s r h =
      let young : too_old r.config.max_staleness now s.timestamp ≡ false = ground (arith) in
      let rested : cooling r.config.cooldown now (lookup s.instrument_id r.last_trade_at) ≡ false =
        ground (arith) in
      let solvent : (0f <f (equity_snapshot now r).equity) ≡ true = ground (arith) in
      elim (Option-cases (proposal s (equity_snapshot now r).equity r)) [
        | inl idle ↦ absurd (ground (arith))
        | inr ((qty, est), plan) ↦
            let fine : (check_trade limits s.instrument_id qty est (equity_snapshot now r).notionals
                  r.cash).allowed
                ≡ true =
              ground (arith) in
            let priced : is_some (fill_price r.config s qty) ≡ true = ground (arith) in
            (young, rested, solvent, (qty, est, plan, fine, priced))
      ]

  -- A signal makes a trade only in a running run, with a timestamp no older than the limit, after the
  -- cooldown of its instrument, at a positive equity, for a proposed quantity that the risk checker
  -- allows and that has a fill price; otherwise the trades are as before.
  pub process_signal-trades :
      (limits : RiskLimits) (now : ℕ) (s : SimSignal) (r : ActiveRun)
      → (process_signal limits now s r).trades ≢ r.trades
      → (is_running r.status ≡ true)
        × (too_old r.config.max_staleness now s.timestamp ≡ false)
        × (cooling r.config.cooldown now (lookup s.instrument_id r.last_trade_at) ≡ false)
        × ((0f <f (equity_snapshot now (mark_signal s r)).equity) ≡ true)
        × Allowed limits now s (mark_signal s r)
  unfolding process_signal
  process_signal-trades limits now s r h =
      let on : is_running r.status ≡ true = ground (arith) in
      let m : ActiveRun = mark_signal s r in
      let (same_trades, same_config, same_times, _) = mark_signal_keeps s r in
      let acts : (act limits now s m).trades ≢ m.trades =
        λ e. h (rw (on, process_signal) (e ∙ same_trades)) in
      let (young, rested, solvent, allowed) = act_trades limits now s m acts in
      (
        on,
        subst (λ c. too_old c.max_staleness now s.timestamp ≡ false) same_config young,
        subst (λ c. cooling c.cooldown now (lookup s.instrument_id r.last_trade_at) ≡ false)
            same_config
            (subst (λ d. cooling m.config.cooldown now (lookup s.instrument_id d) ≡ false)
              same_times rested),
        solvent,
        allowed,
      )

  -- Some position of the list is not valued at a fresh mark.
  value_positions-degraded :
      (now : ℕ) (r : ActiveRun) (ps : Dict String Position) (e : Equity)
      → (value_positions now r ps e).degraded ≡ (any (λ p. is_degraded now r p.0) ps || e.degraded)
  unfolding value_positions
  value_positions-degraded now r [] e = refl
  value_positions-degraded now r ((id, p) ∷ ps) e =
      let mark = get_or (lookup id r.marks) p.avg_price in
      let notional = abs p.size *f mark in
      let e' : Equity = record {
        equity = e.equity +f p.size *f mark;
        gross = e.gross +f notional;
        notionals = insert id notional e.notionals;
        degraded = is_degraded now r id || e.degraded;
      } in
      rw (value_positions-degraded now r ps e')
        (or_swap (any (λ q. is_degraded now r q.0) ps) (is_degraded now r id) e.degraded)

  any-insert_by_id :
      (f : String → Bool) (p : String × Position) (ps : Dict String Position)
      → any (λ q. f q.0) (insert_by_id p ps) ≡ (f p.0 || any (λ q. f q.0) ps)
  any-insert_by_id f p [] = refl
  any-insert_by_id f p (q ∷ ps) = ground (arith, any-insert_by_id f p ps)

  any-list_positions :
      (f : String → Bool) (ps : Dict String Position)
      → any (λ q. f q.0) (list_positions ps) ≡ any (λ q. f q.0) ps
  unfolding list_positions
  any-list_positions f [] = refl
  any-list_positions f (p ∷ ps) =
      ground (arith, any-insert_by_id f p (list_positions ps), any-list_positions f ps)

  -- A position is held under an id with the property.
  any_held :
      (f : String → Bool) (ps : Dict String Position)
      → (any (λ q. f q.0) ps ≡ true)
        ↔ ((id : String) × (p : Position) × (lookup id ps ≡ some p) × (f id ≡ true))
  unfolding lookup
  any_held f ps = (there ps, λ (id, p, here, holds). back ps id p here holds)
    where
      there :
          (ps : Dict String Position)
          → any (λ q. f q.0) ps ≡ true
          → (id : String) × (p : Position) × (lookup id ps ≡ some p) × (f id ≡ true)
      there [] h = absurd (ground (arith))
      there ((k, q) ∷ ps) h = elim (Bool-cases (f k)) [
        | inl holds ↦ (k, q, ground (arith, string_eq.beq_iff k k), holds)
        | inr fails ↦
            let (id, p, here, holds) = there ps (ground (arith)) in
            (id, p, ground (arith, string_eq.beq_iff id k), holds)
      ]

      back :
          (ps : Dict String Position) (id : String) (p : Position)
          → lookup id ps ≡ some p
          → f id ≡ true
          → any (λ q. f q.0) ps ≡ true
      back [] id p here holds = ground (arith)
      back ((k, q) ∷ ps) id p here holds = ground (arith, back ps id p, string_eq.beq_iff id k)

  -- An instrument without a mark, or with one that was observed longer ago than the limit. A mark without
  -- a time of observation does not count as old.
  abbrev pub LacksFreshMark : ℕ → ActiveRun → String → Type 0
  LacksFreshMark now r id =
      (lookup id r.marks ≡ none)
      ⊎ ((mark : Float) × (seen : ℕ) × (lookup id r.marks ≡ some mark)
          × (lookup id r.mark_times ≡ some seen)
          × (seen + r.config.max_staleness < now))

  is_degraded_lem :
      (now : ℕ) (r : ActiveRun) (id : String)
      → (is_degraded now r id ≡ true) ↔ LacksFreshMark now r id
  unfolding is_degraded
  is_degraded_lem now r id = elim (Option-cases (lookup id r.marks)) [
    | inl absent ↦ (λ h. inl absent, λ h. ground (arith, absent))
    | inr (mark, here) ↦ elim (Option-cases (lookup id r.mark_times)) [
      | inl untimed ↦
          (λ h. absurd (ground (arith, here, untimed)), λ old. ground (arith, here, untimed, old))
      | inr (seen, timed) ↦ (
        (λ h. inr (mark, seen, here, timed, ground (arith, here, timed))),
        (λ old. ground (arith, here, timed, old)),
      )
    ]
  ]

  -- An equity snapshot is degraded exactly if a position is held in an instrument that has no mark, or one
  -- that was observed longer ago than the limit; a mark without a time of observation does not count as
  -- old.
  pub equity_snapshot-degraded :
      (now : ℕ) (r : ActiveRun)
      → ((equity_snapshot now r).degraded ≡ true) ↔ (
          (id : String) × (p : Position) × (lookup id r.positions ≡ some p)
          × LacksFreshMark now r id)
  unfolding equity_snapshot
  equity_snapshot-degraded now r =
      let same : (equity_snapshot now r).degraded ≡ any (λ p. is_degraded now r p.0) r.positions =
        value_positions-degraded now r (list_positions r.positions)
          (record { equity = r.cash; gross = 0f; notionals = []; degraded = false })
        ∙ or_false (any (λ p. is_degraded now r p.0) (list_positions r.positions))
        ∙ any-list_positions (is_degraded now r) r.positions in
      let held = any_held (is_degraded now r) r.positions in
      (
        (λ h.
            let (id, p, here, old) = held.0 (sym same ∙ h) in
            (id, p, here, (is_degraded_lem now r id).0 old)),
        (λ (id, p, here, old). same ∙ held.1 (id, p, here, (is_degraded_lem now r id).1 old)),
      )
