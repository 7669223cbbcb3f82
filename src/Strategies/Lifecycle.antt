-- ===== src/Strategies/Lifecycle.antt =====
-- What holds of the instances of `StrategyManagerService` after any calls of it.
use poly_bob.Base.{
  ℕ, ◌≡◌, refl, sym, subst, inl, inr, Bool, true, false, not, ◌&&◌, Option, some, arith, String,
  List, [], ◌∷◌, map, ◌==◌, nat_eq, string_eq, get_or, is_some, Bool-cases, Option-cases,
}
use poly_bob.Base.Dict.{
  Dict, lookup, insert, erase, IsUnique, insert-IsUnique, lookup-insert, lookup-erase,
  erase-IsUnique,
}
use poly_bob.Strategies.Types.{Runtime, is_running, Template, Instance, Manager, TemplateFile}
use poly_bob.Strategies.Templates.{has_factory, load_files}
use poly_bob.Strategies.Manager.{
  default_id, fresh_instance, seed, create_instance, put_started, start, start_stopped,
  start_instance, may_stop, stop_instance, delete_instance, runs, stop_each, stop,
}

module _ {V S : Type 0} where
  -- An instance fits its key: it has that id, runs exactly where it has a strategy object, and only where
  -- its strategy has a factory.
  pub record Fits (id : String) (i : Instance V S) : Type 0 where
    pub same_id : i.instance_id ≡ id
    pub has_object : is_running i.status ≡ is_some i.strategy
    pub has_class : is_running i.status && not (has_factory i.strategy_id) ≡ false

  pub record AllFit (d : Dict String (Instance V S)) : Type 0 where
    pub each : (id : String) (i : Instance V S) → lookup id d ≡ some i → Fits id i
    pub unique : IsUnique d

  pub empty-AllFit : AllFit []
  unfolding lookup
  empty-AllFit = record { each = λ id i h. ground (arith); unique = tt }

  insert-AllFit :
      (k : String) (i : Instance V S) (d : Dict String (Instance V S))
      → Fits k i
      → AllFit d
      → AllFit (insert k i d)
  insert-AllFit k i d f h = record {
    each = λ id j l. elim (Bool-cases (k == id)) [
      | inl same ↦ ground (arith, f, l, lookup-insert k id i d, string_eq.beq_iff k id)
      | inr other ↦ ground (arith, h.each id j, l, lookup-insert k id i d)
    ];
    unique = insert-IsUnique k i d h.unique;
  }

  erase-AllFit : (k : String) (d : Dict String (Instance V S)) → AllFit d → AllFit (erase k d)
  erase-AllFit k d h = record {
    each = λ id j l. ground (arith, h.each id j, l, lookup-erase k id d h.unique);
    unique = erase-IsUnique k d h.unique;
  }

  fresh-Fits :
      (id strategy_id name : String) (config limits : Dict String V) (environment : String)
      (now : ℕ)
      → Fits id (fresh_instance id strategy_id name config limits environment now)
  fresh-Fits id strategy_id name config limits environment now = record {
    same_id = refl;
    has_object = refl;
    has_class = refl;
  }

  seed-AllFit :
      (now : ℕ) (ts : Dict String (Template V)) (d : Dict String (Instance V S))
      → AllFit d
      → AllFit (seed now ts d)
  unfolding seed
  seed-AllFit now [] d h = h
  seed-AllFit now ((k, t) ∷ ts) d h =
      let id = default_id t.strategy_id in
      elim (Bool-cases (is_some (lookup id d))) [
        | inl there ↦ rw there (seed-AllFit now ts d h)
        | inr absent ↦ rw absent (
            seed-AllFit now ts
              (insert id (fresh_instance id t.strategy_id _ t.parameters t.risk_limits "paper" now)
                d)
              (insert-AllFit id
                (fresh_instance id t.strategy_id _ t.parameters t.risk_limits "paper" now) d
                (fresh-Fits id t.strategy_id _ t.parameters t.risk_limits "paper" now) h))
      ]

  create_instance-AllFit :
      (strategy_id : String) (name : Option String) (config : Option (Dict String V))
      (environment hex : String) (now : ℕ) (m : Manager V S)
      → AllFit m.instances
      → AllFit (create_instance strategy_id name config environment hex now m).0.instances
  unfolding create_instance
  create_instance-AllFit strategy_id name config environment hex now m h =
      elim (Option-cases (lookup strategy_id m.templates)) [
        | inl absent ↦ rw (absent, create_instance) h
        | inr (t, e) ↦
            rw (e, create_instance)
              (insert-AllFit _ _ m.instances
                (fresh-Fits _ strategy_id _ _ t.risk_limits environment now) h)
      ]

module _ {V S : Type 0} (rt : Runtime V S) where
  start-AllFit :
      (promoted : String → Bool) (files : Option (List (TemplateFile V))) (now : ℕ)
      (m : Manager V S)
      → AllFit m.instances
      → AllFit (start rt promoted files now m).instances
  unfolding start
  start-AllFit promoted files now m h =
      seed-AllFit now (load_files rt promoted (get_or files []) []) m.instances h

  put_started-AllFit :
      (id : String) (i : Instance V S) (s : S) (now : ℕ) (m : Manager V S)
      → has_factory i.strategy_id ≡ true
      → Fits id i
      → AllFit m.instances
      → AllFit (put_started id i s now m).0.instances
  put_started-AllFit id i s now m c f h =
      insert-AllFit id _ m.instances
        (record { same_id = f.same_id; has_object = refl; has_class = rw c refl }) h

  start_stopped-AllFit :
      (id : String) (i : Instance V S) (now : ℕ) (m : Manager V S)
      → Fits id i
      → AllFit m.instances
      → AllFit (start_stopped rt id i now m).0.instances
  start_stopped-AllFit id i now m f h = elim (Bool-cases (has_factory i.strategy_id)) [
    | inl known ↦ elim (Option-cases (rt.build i.strategy_id i.config)) [
      | inl failed ↦ rw (known, failed) h
      | inr (s, built) ↦ elim (Bool-cases (rt.start_returns s)) [
        | inl returns ↦ rw (known, built, returns) (put_started-AllFit id i s now m known f h)
        | inr raises ↦ rw (known, built, raises) h
      ]
    ]
    | inr unknown ↦ rw unknown h
  ]

  start_instance-AllFit :
      (id : String) (now : ℕ) (m : Manager V S)
      → AllFit m.instances
      → AllFit (start_instance rt id now m).0.instances
  unfolding start_instance
  start_instance-AllFit id now m h = elim (Option-cases (lookup id m.instances)) [
    | inl absent ↦ rw (absent, start_instance) h
    | inr (i, e) ↦ elim (Bool-cases (is_running i.status)) [
      | inl runs ↦ rw (e, start_instance, runs) h
      | inr idle ↦ rw (e, start_instance, idle) (start_stopped-AllFit id i now m (h.each id i e) h)
    ]
  ]

  stop_instance-AllFit :
      (id : String) (now : ℕ) (m : Manager V S)
      → AllFit m.instances
      → AllFit (stop_instance rt id now m).0.instances
  unfolding stop_instance
  stop_instance-AllFit id now m h = elim (Option-cases (lookup id m.instances)) [
    | inl absent ↦ rw (absent, stop_instance) h
    | inr (i, e) ↦ elim (Bool-cases (may_stop rt i.strategy)) [
      | inl may ↦
          rw (e, stop_instance, may)
            (insert-AllFit id _ m.instances
              (record { same_id = (h.each id i e).same_id; has_object = refl; has_class = refl }) h)
      | inr stuck ↦ rw (e, stop_instance, stuck) h
    ]
  ]

  delete_instance-AllFit :
      (id : String) (now : ℕ) (m : Manager V S)
      → AllFit m.instances
      → AllFit (delete_instance rt id now m).0.instances
  unfolding delete_instance
  delete_instance-AllFit id now m h = elim (Option-cases (lookup id m.instances)) [
    | inl absent ↦ rw (absent, delete_instance) h
    | inr (i, e) ↦ elim (Bool-cases (is_running i.status)) [
      | inl runs ↦ elim (Bool-cases (is_some (stop_instance rt id now m).1)) [
        | inl stops ↦
            rw (e, delete_instance, runs, stops)
              (erase-AllFit id _ (stop_instance-AllFit id now m h))
        | inr raises ↦ rw (e, delete_instance, runs, raises) (stop_instance-AllFit id now m h)
      ]
      | inr idle ↦ rw (e, delete_instance, idle) (erase-AllFit id m.instances h)
    ]
  ]

  stop_each-AllFit :
      (ids : List String) (now : ℕ) (m : Manager V S)
      → AllFit m.instances
      → AllFit (stop_each rt ids now m).0.instances
  unfolding stop_each
  stop_each-AllFit [] now m h = h
  stop_each-AllFit (id ∷ ids) now m h = elim (Bool-cases (runs id m)) [
    | inl on ↦ elim (Bool-cases (is_some (stop_instance rt id now m).1)) [
      | inl stops ↦
          rw (on, stops)
            (stop_each-AllFit ids now (stop_instance rt id now m).0
              (stop_instance-AllFit id now m h))
      | inr raises ↦ rw (on, raises) (stop_instance-AllFit id now m h)
    ]
    | inr off ↦ rw off (stop_each-AllFit ids now m h)
  ]

  -- A call of the service that changes its state, whether it returns or raises.
  pub data Call : Manager V S → Manager V S → Type 0 where
    call_start :
        (promoted : String → Bool) (files : Option (List (TemplateFile V))) (now : ℕ)
        (m : Manager V S)
        → Call m (start rt promoted files now m)
    call_stop : (now : ℕ) (m : Manager V S) → Call m (stop rt now m).0
    call_create :
        (strategy_id : String) (name : Option String) (config : Option (Dict String V))
        (environment hex : String) (now : ℕ) (m : Manager V S)
        → Call m (create_instance strategy_id name config environment hex now m).0
    call_start_instance :
        (id : String) (now : ℕ) (m : Manager V S) → Call m (start_instance rt id now m).0
    call_stop_instance :
        (id : String) (now : ℕ) (m : Manager V S) → Call m (stop_instance rt id now m).0
    call_delete : (id : String) (now : ℕ) (m : Manager V S) → Call m (delete_instance rt id now m).0

  -- The service as it is made, and what calls make of it.
  pub data Reached : Manager V S → Type 0 where
    made : (m : Manager V S) → m.instances ≡ [] → Reached m
    called : (m m' : Manager V S) → Reached m → Call m m' → Reached m'

  Call-AllFit : (m m' : Manager V S) → Call m m' → AllFit m.instances → AllFit m'.instances
  unfolding stop
  Call-AllFit _ _ (call_start promoted files now m) h = start-AllFit promoted files now m h
  Call-AllFit _ _ (call_stop now m) h =
      stop_each-AllFit (map (λ e. e.1.instance_id) m.instances) now (record m { is_on = false }) h
  Call-AllFit _ _ (call_create strategy_id name config environment hex now m) h =
      create_instance-AllFit strategy_id name config environment hex now m h
  Call-AllFit _ _ (call_start_instance id now m) h = start_instance-AllFit id now m h
  Call-AllFit _ _ (call_stop_instance id now m) h = stop_instance-AllFit id now m h
  Call-AllFit _ _ (call_delete id now m) h = delete_instance-AllFit id now m h

  -- After any sequence of the service's calls on a new service, those that raise included, every
  -- instance stands under its own id, under one key only, has status running exactly where it holds a
  -- strategy object, and has that status only where a factory for its strategy is registered.
  pub Reached-AllFit : (m : Manager V S) → Reached m → AllFit m.instances
  Reached-AllFit _ (made m e) = subst AllFit (sym e) empty-AllFit
  Reached-AllFit _ (called m0 m r c) = Call-AllFit m0 m c (Reached-AllFit m0 r)
