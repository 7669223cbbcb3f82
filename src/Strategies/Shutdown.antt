-- ===== src/Strategies/Shutdown.antt =====
-- `StrategyManagerService.stop` stops what runs.
use poly_bob.Base.{
  ℕ, ◌≡◌, refl, subst, inl, inr, true, false, not, ◌&&◌, Option, some, none, if◌then◌else◌, arith,
  String, List, [], ◌∷◌, map, ◌==◌, nat_eq, string_eq, is_some, any, Bool-cases, Option-cases,
}
use poly_bob.Base.Dict.{Dict, lookup, lookup-insert}
use poly_bob.Strategies.Types.{Runtime, stopped, Instance, Manager}
use poly_bob.Strategies.Manager.{may_stop, stop_instance, runs, stop_each, stop}
use poly_bob.Strategies.Lifecycle.{Reached, Reached-AllFit}

module _ {V S : Type 0} (rt : Runtime V S) where
  Stops : Type 0
  Stops = (s : S) → rt.stop_returns s ≡ true

  may_stop_lem : Stops → (o : Option S) → may_stop rt o ≡ true
  unfolding Stops
  may_stop_lem stops none = refl
  may_stop_lem stops (some s) = stops s

  runs-stop_instance :
      (id j : String) (now : ℕ) (m : Manager V S)
      → Stops
      → runs id m ≡ true
      → (is_some (stop_instance rt id now m).1 ≡ true)
        × (runs j (stop_instance rt id now m).0 ≡ (if id == j then false else runs j m))
  unfolding stop_instance
  runs-stop_instance id j now m stops on = elim (Option-cases (lookup id m.instances)) [
    | inl absent ↦ ground (arith)
    | inr (i, e) ↦ ground (
      arith,
      may_stop_lem stops i.strategy,
      lookup-insert id j
          (record i {
            strategy = none;
            status = stopped;
            last_stopped_at = some now;
            updated_at = now;
          })
          m.instances,
    )
  ]

  runs-stop_each :
      (ids : List String) (j : String) (now : ℕ) (m : Manager V S)
      → Stops
      → ((stop_each rt ids now m).1 ≡ true)
        × (runs j (stop_each rt ids now m).0 ≡ runs j m && not (any (λ k. k == j) ids))
  unfolding stop_each
  runs-stop_each [] j now m stops = (refl, ground (arith))
  runs-stop_each (id ∷ ids) j now m stops = elim (Bool-cases (runs id m)) [
    | inl on ↦
        let (answers, now_off) = runs-stop_instance id j now m stops on in
        ground (
          arith,
          on,
          answers,
          now_off,
          runs-stop_each ids j now (stop_instance rt id now m).0 stops,
        )
    | inr off ↦ ground (
      arith,
      off,
      runs-stop_each ids j now m stops,
      string_eq.beq_iff id j,
      (λ (p : ◌≡◌ {A = String} id j). subst (λ x. runs x m ≡ false) p off),
    )
  ]

  listed :
      (d : Dict String (Instance V S)) (j : String) (i : Instance V S)
      → lookup j d ≡ some i
      → i.instance_id ≡ j
      → any (λ k. k == j) (map (λ e. e.1.instance_id) d) ≡ true
  unfolding lookup
  listed [] j i l h = ground (arith)
  listed ((k, w) ∷ d) j i l h =
      ground (arith, listed d j i, l, h, string_eq.beq_iff i.instance_id j)

  -- `stop` on a service that its own calls have made, where no strategy's own `stop` raises, comes to
  -- its end, and then no instance has status running.
  pub stop_stops_all :
      (now : ℕ) (m : Manager V S) (id : String)
      → ((s : S) → rt.stop_returns s ≡ true)
      → Reached rt m
      → ((stop rt now m).1 ≡ true) × (runs id (stop rt now m).0 ≡ false)
  unfolding stop Stops
  stop_stops_all now m id stops r =
      let h =
        runs-stop_each (map (λ e. e.1.instance_id) m.instances) id now (record m { is_on = false })
          stops in
      (
        h.0,
        elim (Option-cases (lookup id m.instances)) [
          | inl absent ↦ ground (arith, h.1)
          | inr (i, e) ↦ ground (
            arith,
            h.1,
            listed m.instances id i e (((Reached-AllFit rt m r).each id i e).same_id),
          )
        ],
      )
