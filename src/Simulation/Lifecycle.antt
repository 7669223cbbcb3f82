-- ===== src/Simulation/Lifecycle.antt =====
-- What the calls on runs keep, and that a stopped run stays stopped (modules/simulation/service.py).
use poly_bob.Base.{
  ◌≡◌, refl, sym, subst, ◌≢◌, inl, inr, Bool, some, none, arith, String, List, [], ◌∷◌, ◌==◌,
  nat_eq, string_eq, is_some, is_empty, Bool-cases, Option-cases,
}
use poly_bob.Base.Dict.{
  lookup, insert, erase, IsUnique, insert-IsUnique, lookup-insert, lookup-erase, erase-IsUnique,
}
use poly_bob.Base.Float.{Floats, Float, ◌≤f◌, 0f}
use poly_bob.Simulation.Trading.{RunStatus, running, paused, stopped}
use poly_bob.Simulation.Runs.{
  RunRecord, SimulationService, RunError, Result, is_status, is_among, get_run_record, create_run,
  transition, write_status, bind_updated, start_run, pause_run, stop_run, forget_run,
}

module _ ⦃fl : Floats⦄ where
  -- A bound run is its row of the store, and is not stopped; no run is bound twice.
  pub record IsSynced (s : SimulationService) : Type 0 where
    pub unique : IsUnique s.active
    pub same :
        (id : String) (row : RunRecord)
        → lookup id s.active ≡ some row
        → lookup id s.store ≡ some row
    pub live :
        (id : String) (row : RunRecord) → lookup id s.active ≡ some row → row.status ≢ stopped

  bind-IsSynced :
      (id : String) (row : RunRecord) (s : SimulationService)
      → row.status ≢ stopped
      → IsSynced s
      → IsSynced (record { store = insert id row s.store; active = insert id row s.active })
  bind-IsSynced id row s lives h = record {
    unique = insert-IsUnique id row s.active h.unique;
    same = λ j w. elim (Bool-cases (id == j)) [
      | inl e ↦ ground (arith, lookup-insert id j row s.store, lookup-insert id j row s.active)
      | inr e ↦
          ground
            (arith, lookup-insert id j row s.store, lookup-insert id j row s.active, h.same j w)
    ];
    live = λ j w l. elim (Bool-cases (id == j)) [
      | inl e ↦
          let here : some row ≡ some w = ground (arith, lookup-insert id j row s.active) in
          let same_row : row ≡ w = cc in subst (λ x. x.status ≢ stopped) same_row lives
      | inr e ↦ h.live j w (ground (arith, lookup-insert id j row s.active))
    ];
  }

  -- A row that changes in the store only, of a run that is not bound.
  store-IsSynced :
      (id : String) (row : RunRecord) (s : SimulationService)
      → lookup id s.active ≡ none
      → IsSynced s
      → IsSynced (record s { store = insert id row s.store })
  store-IsSynced id row s free h = record {
    unique = h.unique;
    same = λ j w l. elim (Bool-cases (id == j)) [
      | inl e ↦ ground (arith, string_eq.beq_iff id j)
      | inr e ↦ ground (arith, lookup-insert id j row s.store, h.same j w)
    ];
    live = h.live;
  }

  -- A run that stops, and is not bound any more.
  drop-IsSynced :
      (id : String) (row : RunRecord) (s : SimulationService)
      → IsSynced s
      → IsSynced
          (record { store = insert id row s.store; active = erase id (insert id row s.active) })
  drop-IsSynced id row s h =
      let u : IsUnique (insert id row s.active) = insert-IsUnique id row s.active h.unique in
      record {
        unique = erase-IsUnique id (insert id row s.active) u;
        same = λ j w. ground (
          arith,
          lookup-erase id j (insert id row s.active) u,
          lookup-insert id j row s.store,
          lookup-insert id j row s.active,
          h.same j w,
        );
        live = λ j w l. h.live j w (
            ground (
              arith,
              lookup-erase id j (insert id row s.active) u,
              lookup-insert id j row s.active,
            ));
      }

  module _ (known : String → Bool) where
    -- From a stopped run no call leads anywhere: starting, pausing and stopping it raise, and change
    -- nothing.
    pub stopped_run :
        (id : String) (s : SimulationService) (row : RunRecord)
        → get_run_record id s ≡ some row
        → row.status ≡ stopped
        → (start_run known id s ≡ (s, inl RunError.invalid_transition))
          × (pause_run known id s ≡ (s, inl RunError.invalid_transition))
          × (stop_run known id s ≡ (s, inl RunError.invalid_transition))
    unfolding start_run pause_run stop_run transition
    stopped_run id s row h e = (
      rw (h, transition, e) refl,
      rw (h, transition, e) refl,
      rw (h, stop_run, transition, e) refl,
    )

    -- Binding after the write, to a status that is not stopped.
    write_status-IsSynced :
        (id : String) (status : RunStatus) (s : SimulationService)
        → status ≢ stopped
        → IsSynced s
        → IsSynced
            (write_status known id (is_some (lookup id s.active)) status (lookup id s.store) s).0
    write_status-IsSynced id status s lives h = elim (Option-cases (lookup id s.store)) [
      | inl gone ↦ rw (gone, write_status) h
      | inr (row, there) ↦
          let w : RunRecord = record row { status = status } in
          elim (Option-cases (lookup id s.active)) [
            | inl free ↦ elim (Bool-cases (is_status status stopped)) [
              | inl e ↦ absurd (lives (ground (arith)))
              | inr e ↦ elim (Bool-cases (known row.strategy_id)) [
                | inl k ↦
                    rw (there, write_status, free, bind_updated, e, k)
                      (bind-IsSynced id w s lives h)
                | inr k ↦
                    rw (there, write_status, free, bind_updated, e, k)
                      (store-IsSynced id w s free h)
              ]
            ]
            | inr (a, bound) ↦
                rw (there, write_status, bound, bind_updated) (bind-IsSynced id w s lives h)
          ]
    ]

    transition-IsSynced :
        (id : String) (status : RunStatus) (allowed : List RunStatus) (s : SimulationService)
        → status ≢ stopped
        → IsSynced s
        → IsSynced (transition known id status allowed s).0
    unfolding transition
    transition-IsSynced id status allowed s lives h = elim (Option-cases (get_run_record id s)) [
      | inl e ↦ rw (e, transition) h
      | inr (row, e) ↦ elim (Bool-cases (is_among row.status allowed)) [
        | inl may ↦ rw (e, transition, may) (write_status-IsSynced id status s lives h)
        | inr may_not ↦ rw (e, transition, may_not) h
      ]
    ]

    create_run-IsSynced :
        (id strategy : String) (universe : List String) (capital : Float) (s : SimulationService)
        → IsSynced s
        → IsSynced (create_run known id strategy universe capital s).0
    unfolding create_run
    create_run-IsSynced id strategy universe capital s h =
        let row : RunRecord = record {
          run_id = id;
          strategy_id = strategy;
          universe = universe;
          initial_capital = capital;
          cash = capital;
          status = paused;
        } in
        let lives : row.status ≢ stopped = λ e. ground (arith) in
        elim (Bool-cases (known strategy)) [
          | inr k ↦ rw (k, create_run) h
          | inl k ↦ elim (Bool-cases (is_empty universe)) [
            | inl u ↦ rw (k, create_run, u) h
            | inr u ↦ elim (Bool-cases (capital ≤f 0f)) [
              | inl c ↦ rw (k, create_run, u, c) h
              | inr c ↦ rw (k, create_run, u, c) (bind-IsSynced id row s lives h)
            ]
          ]
        ]

    stop_written :
        (id : String) (s : SimulationService)
        → IsSynced s
        → IsSynced
            (forget_run id (
              write_status known id (is_some (lookup id s.active)) stopped (lookup id s.store) s)).0
    stop_written id s h = elim (Option-cases (lookup id s.store)) [
      | inl gone ↦ rw (gone, write_status) h
      | inr (row, there) ↦
          let w : RunRecord = record row { status = stopped } in
          elim (Option-cases (lookup id s.active)) [
            | inl free ↦
                let t : SimulationService = record s { store = insert id w s.store } in
                let e : ◌≡◌ {A = Result}
                    (write_status known id (is_some (lookup id s.active)) stopped
                      (lookup id s.store) s)
                    (t, inr w) =
                  rw (there, write_status, free, bind_updated) refl in
                subst (λ (x : Result). IsSynced (forget_run id x).0) (sym e)
                  (forgets id t (store-IsSynced id w s free h))
            | inr (a, bound) ↦
                let t : SimulationService = record {
                  store = insert id w s.store;
                  active = insert id w s.active;
                } in
                let e : ◌≡◌ {A = Result}
                    (write_status known id (is_some (lookup id s.active)) stopped
                      (lookup id s.store) s)
                    (t, inr w) =
                  rw (there, write_status, bound, bind_updated) refl in
                subst (λ (x : Result). IsSynced (forget_run id x).0) (sym e)
                  (drop-IsSynced id w s h)
          ]
    ]
      where
        forgets :
            (i : String) (t : SimulationService)
            → IsSynced t
            → IsSynced (record t { active = erase i t.active })
        forgets i t k = record {
          unique = erase-IsUnique i t.active k.unique;
          same = λ j w. ground (arith, lookup-erase i j t.active k.unique, k.same j w);
          live = λ j w l. k.live j w (ground (arith, lookup-erase i j t.active k.unique));
        }

    stop_run-IsSynced :
        (id : String) (s : SimulationService) → IsSynced s → IsSynced (stop_run known id s).0
    unfolding stop_run transition
    stop_run-IsSynced id s h = elim (Option-cases (get_run_record id s)) [
      | inl e ↦ rw (e, stop_run, transition) h
      | inr (row, e) ↦ elim (Bool-cases (is_among row.status (running ∷ paused ∷ []))) [
        | inl may ↦
            let same : ◌≡◌ {A = Result} (transition known id stopped (running ∷ paused ∷ []) s) (
                write_status known id (is_some (lookup id s.active)) stopped (lookup id s.store)
                  s) =
              rw (e, transition, may) refl in
            subst (λ (x : Result). IsSynced (forget_run id x).0) (sym same) (stop_written id s h)
        | inr may_not ↦ rw (e, stop_run, transition, may_not) h
      ]
    ]

    -- A call on the runs of the service.
    pub data Call (s : SimulationService) : SimulationService → Type 0 where
      creates :
          (id strategy : String) (universe : List String) (capital : Float)
          → Call s (create_run known id strategy universe capital s).0
      starts : (id : String) → Call s (start_run known id s).0
      pauses : (id : String) → Call s (pause_run known id s).0
      stops : (id : String) → Call s (stop_run known id s).0

    pub data Calls (s : SimulationService) : SimulationService → Type 0 where
      done : Calls s s
      then_call : {t u : SimulationService} → Calls s t → Call t u → Calls s u

    Call-IsSynced : {s t : SimulationService} → IsSynced s → Call s t → IsSynced t
    unfolding start_run pause_run
    Call-IsSynced h (creates id strategy universe capital) =
        create_run-IsSynced id strategy universe capital _ h
    Call-IsSynced h (starts id) =
        transition-IsSynced id running (paused ∷ []) _ (λ e. ground (arith)) h
    Call-IsSynced h (pauses id) =
        transition-IsSynced id paused (running ∷ []) _ (λ e. ground (arith)) h
    Call-IsSynced h (stops id) = stop_run-IsSynced id _ h

    -- From a service without bound runs, every sequence of calls that create, start, pause and stop
    -- runs, whether they raise or not, leaves each bound run equal to its row of the store, not stopped,
    -- and bound once.
    pub Calls-IsSynced : {s t : SimulationService} → s.active ≡ [] → Calls s t → IsSynced t
    unfolding lookup
    Calls-IsSynced {s} none_bound done = record {
      unique = rw (none_bound) tt;
      same = λ j w l. ground (arith);
      live = λ j w l. ground (arith);
    }
    Calls-IsSynced none_bound (then_call calls call) =
        Call-IsSynced (Calls-IsSynced none_bound calls) call
