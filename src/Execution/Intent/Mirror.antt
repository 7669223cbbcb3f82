-- ===== src/Execution/Intent/Mirror.antt =====
-- The intent repository holds what the service holds, so that `restore_state` brings it back.
use poly_bob.Base.{
  ℕ, ◌≡◌, refl, sym, ◌∙◌, subst, inl, inr, true, Option, some, none, if◌then◌else◌, arith, String,
  [], ◌∷◌, ◌==◌, nat_eq, string_eq, or_else, is_some, Option-cases, or_str,
}
use poly_bob.Base.Dict.{Dict, lookup, IsUnique, lookup-insert, lookup-erase}
use poly_bob.Base.Float.{Floats}
use poly_bob.Execution.Basket.{BasketExecutor}
use poly_bob.Execution.Intent.{
  TradeIntent, IntentStatus, submitted, IntentError, update_intent, IntentService, set_some,
}
use poly_bob.Execution.Intent.Submit.{refused, accepted}
use poly_bob.Store.Intents.{IntentRow}
use poly_bob.Store.IntentLaws.{update_status_lem, update_status-IsUnique}
use poly_bob.Execution.Intent.Restore.{
  restore_row, restore_rows, persist_effect, persist_effects, Desk, commit,
}

module _ ⦃fl : Floats⦄ where
  -- What the service says of an intent.
  pub record View : Type 0 where
    pub intent : Option TradeIntent
    pub status : Option IntentStatus
    pub basket_id : Option String
    pub error : Option IntentError

  abbrev pub nothing : View
  nothing = record { intent = none; status = none; basket_id = none; error = none }

  abbrev pub view_of : String → IntentService → View
  view_of id s = record {
    intent = lookup id s.intents;
    status = lookup id s.intent_status;
    basket_id = lookup id s.intent_baskets;
    error = lookup id s.intent_errors;
  }

  lookup-set_some :
      {V : Type 0} (id j : String) (o : Option V) (d : Dict String V)
      → lookup j (set_some id o d) ≡ (if id == j then or_else o (lookup j d) else lookup j d)
  lookup-set_some id j none d = ground (arith)
  lookup-set_some id j (some v) d = ground (arith, lookup-insert id j v d)

  pub view_of-refused :
      (id j : String) (status : IntentStatus) (error : IntentError) (s : IntentService)
      → view_of j (refused id status error s) ≡ (
          if id == j
          then record (view_of j s) { status = some status; error = some error }
          else view_of j s)
  view_of-refused id j status error s =
      ground
        (arith, lookup-insert id j status s.intent_status, lookup-insert id j error s.intent_errors)

  pub view_of-accepted :
      (id basket_id signature : String) (now : ℕ) (x : BasketExecutor) (j : String)
      (s : IntentService)
      → IsUnique s.intent_errors
      → view_of j (accepted id basket_id signature now x s) ≡ (
          if id == j
          then record (view_of j s) {
            status = some submitted;
            basket_id = some basket_id;
            error = none;
          }
          else view_of j s)
  view_of-accepted id basket_id signature now x j s u = ground (
    arith,
    lookup-insert id j submitted s.intent_status,
    lookup-insert id j basket_id s.intent_baskets,
    lookup-erase id j s.intent_errors u,
  )

  module _ {P : Type 0} (dump : TradeIntent → P) (validate : P → Option TradeIntent) where
    abbrev pub view_row : Option (IntentRow P IntentStatus IntentError) → View
    view_row none = nothing
    view_row (some row) = elim (validate row.payload) [
      | none ↦ nothing
      | some i ↦ record {
        intent = some i;
        status = some row.status;
        basket_id = or_str row.basket_id none;
        error = row.error;
      }
    ]

    view_of-restore_row :
        (id j : String) (row : IntentRow P IntentStatus IntentError) (s : IntentService)
        → view_of id s ≡ nothing
        → view_of j (restore_row dump validate id row s)
          ≡ (if id == j then view_row (some row) else view_of j s)
    view_of-restore_row id j row s h = elim (Option-cases (validate row.payload)) [
      | inl bad ↦ ground (arith, string_eq.beq_iff id j)
      | inr (i, good) ↦ ground (
        arith,
        string_eq.beq_iff id j,
        lookup-insert id j i s.intents,
        lookup-insert id j row.status s.intent_status,
        lookup-set_some id j (or_str row.basket_id none) s.intent_baskets,
        lookup-set_some id j row.error s.intent_errors,
      )
    ]

    pub view_of-restore_rows :
        (rows : Dict String (IntentRow P IntentStatus IntentError)) (s : IntentService) (j : String)
        → IsUnique rows
        → ((k : String) → is_some (lookup k rows) ≡ true → view_of k s ≡ nothing)
        → view_of j (restore_rows dump validate rows s)
          ≡ (if is_some (lookup j rows) then view_row (lookup j rows) else view_of j s)
    unfolding restore_rows lookup
    view_of-restore_rows [] s j u h = ground (arith)
    view_of-restore_rows ((id, row) ∷ rows) s j u h =
        let free : view_of id s ≡ nothing = h id (ground (arith, string_eq.beq_iff id id)) in
        let s' = restore_row dump validate id row s in
        let rest = view_of-restore_rows rows s' j u.1 (λ k there.
          ground (
            arith,
            u.0,
            h k,
            there,
            view_of-restore_row id k row s free,
            string_eq.beq_iff id k,
          )) in
        ground (
          arith,
          u.0,
          rest,
          view_of-restore_row id j row s free,
          string_eq.beq_iff j id,
          string_eq.beq_iff id j,
        )

    -- The table holds what the service says, in rows that validate, and nothing waits to be written.
    pub record Mirrors (d : Desk dump validate) : Type 0 where
      pub each : (id : String) → view_of id d.service ≡ view_row (lookup id d.rows)
      pub valid :
          (id : String) (row : IntentRow P IntentStatus IntentError)
          → lookup id d.rows ≡ some row
          → is_some (validate row.payload) ≡ true
      pub unique : IsUnique d.rows
      pub unique_errors : IsUnique d.service.intent_errors
      pub written : d.service.effects ≡ []

    -- A call that hands on nothing and changes what is said of no intent.
    pub quiet :
        (now : ℕ) (d : Desk dump validate) (s : IntentService)
        → Mirrors d
        → s.effects ≡ []
        → s.intent_errors ≡ d.service.intent_errors
        → ((id : String) → view_of id s ≡ view_of id d.service)
        → Mirrors (commit dump validate now d s)
    unfolding persist_effects
    quiet now d s m none_written same_errors same = record {
      each = λ id. rw none_written (same id ∙ m.each id);
      valid = rw none_written m.valid;
      unique = rw none_written m.unique;
      unique_errors = subst IsUnique (sym same_errors) m.unique_errors;
      written = refl;
    }

    -- What an update of a row makes of the view, and of the other facts about the table.
    pub updated-Mirrors :
        (now : ℕ) (d : Desk dump validate) (s : IntentService) (id : String)
        (row : IntentRow P IntentStatus IntentError) (status : IntentStatus)
        (error : Option IntentError) (basket_id key : Option String)
        → Mirrors d
        → lookup id d.rows ≡ some row
        → or_str basket_id none ≡ basket_id
        → s.effects ≡ update_intent id status error basket_id key ∷ []
        → IsUnique s.intent_errors
        → ((j : String)
            → view_of j s ≡ (
                if id == j
                then record (view_of j d.service) {
                  status = some status;
                  error = error;
                  basket_id = or_else basket_id (lookup j d.service.intent_baskets);
                }
                else view_of j d.service))
        → Mirrors (commit dump validate now d s)
    unfolding persist_effects persist_effect
    updated-Mirrors now d s id row status error basket_id key m here text effects errors same =
        let (k, wrote) = update_status_lem id status error basket_id key now d.rows row here in
        let good : is_some (validate row.payload) ≡ true = m.valid id row here in
        record {
          each = λ j.
              rw effects (
                ground
                  (arith, wrote j, same j, m.each j, here, good, text, string_eq.beq_iff id j));
          valid = rw effects (λ j row' there. ground (arith, wrote j, m.valid j row', there, good));
          unique =
              rw effects (update_status-IsUnique id status error basket_id key now d.rows m.unique);
          unique_errors = errors;
          written = refl;
        }
