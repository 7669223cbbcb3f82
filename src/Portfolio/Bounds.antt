-- ===== src/Portfolio/Bounds.antt =====
-- A size is never above its caps, and is money only where the account has money.
use poly_bob.Base.{
  ◌≡◌, refl, inl, inr, true, Option, some, none, arith, String, List, nat_eq, string_eq, Bool-cases,
  Option-cases,
}
use poly_bob.Base.Float.{Floats, Float, ◌≤f◌, ◌<f◌, ◌-f◌, ◌*f◌, ◌/f◌, 0f, abs, lt_asymm}
use poly_bob.Portfolio.Account.{
  max_position_fraction, max_domain_fraction, max_total_risk_fraction, max_of, Account,
  require_equity, domain_notional, correlated_risk, assumed_correlation,
}
use poly_bob.Portfolio.Sizing.{
  EdgeStatistics, kelly_fraction, Constraint, negative_edge, no_edge_at_lower_bound, SizeDecision,
  refusal, Sized, cap_position, cap_domain, good_price, cap_distance, cap_risk, prudent_kelly,
  with_money, sized_or_refused, size_position,
}

module _ ⦃fl : Floats⦄ where
  le_trans : (a b c : Float) → (a ≤f b) ≡ true → (b ≤f c) ≡ true → (a ≤f c) ≡ true
  le_trans a b c h k =
      ground (arith, fl.lt_trans c a b, fl.lt_trans b c a, fl.lt_connex a b, fl.lt_trans c b a)

  -- A fraction of the equity that is more than a room is not less than the room over the equity: dividing
  -- rounds monotonically.
  abbrev pub DividesBack : Type 0
  DividesBack =
      (f equity room : Float)
      → (0f <f equity) ≡ true
      → (room <f f *f equity) ≡ true
      → (room /f equity ≤f f) ≡ true

  cap_position-bounded :
      (prudent : Float)
      → ((cap_position prudent).fraction ≤f max_position_fraction ≡ true)
        × ((cap_position prudent).fraction ≤f prudent ≡ true)
  unfolding cap_position
  cap_position-bounded prudent = ground (
    arith,
    lt_asymm max_position_fraction prudent,
    fl.lt_irrefl prudent,
    fl.lt_irrefl max_position_fraction,
  )

  cap_domain-bounded :
      DividesBack
      → (equity used : Float) (s : Sized) → (0f <f equity) ≡ true
      → ((cap_domain equity used s).fraction ≤f s.fraction) ≡ true
  unfolding cap_domain
  cap_domain-bounded back equity used s pos =
      let room = max_of 0f (max_domain_fraction *f equity -f used) in
      ground (arith, back s.fraction equity room pos, fl.lt_irrefl s.fraction)

  cap_distance-bounded :
      DividesBack
      → (equity room distance : Float) (s : Sized) (bound : Float) → (0f <f equity) ≡ true
      → (0f ≤f bound) ≡ true
      → (s.fraction ≤f bound) ≡ true
      → ((cap_distance equity room distance s).fraction ≤f bound) ≡ true
  cap_distance-bounded back equity room distance s bound pos least h = ground (
    arith,
    h,
    least,
    back s.fraction equity (room /f distance) pos,
    le_trans (room /f distance /f equity) s.fraction bound,
  )

  cap_risk-bounded :
      DividesBack
      → (equity risk : Float) (entry stop : Option Float) (s : Sized) (bound : Float)
      → (0f <f equity) ≡ true
      → (0f ≤f bound) ≡ true
      → (s.fraction ≤f bound) ≡ true
      → ((cap_risk equity risk entry stop s).fraction ≤f bound) ≡ true
  unfolding cap_risk
  cap_risk-bounded back equity risk entry none s bound pos least h = h
  cap_risk-bounded back equity risk entry (some stop) s bound pos least h =
      elim (Option-cases (good_price entry)) [
        | inl bad ↦ rw (bad, cap_risk) h
        | inr (price, good) ↦
            rw (good, cap_risk)
              (cap_distance-bounded back equity
                (max_of 0f (max_total_risk_fraction *f equity -f risk))
                (abs (price -f stop) /f price) s bound pos least h)
      ]

  require_equity-positive :
      (a : Account) (equity : Float) → require_equity a ≡ some equity → (0f <f equity) ≡ true
  unfolding require_equity
  require_equity-positive a equity h = elim (Option-cases a.equity) [
    | inl unknown ↦ ground (arith)
    | inr (e, known) ↦ ground (arith)
  ]

  module _ (back : DividesBack) (sum : List Float → Float) (stats : EdgeStatistics)
      (account : Account) (domain : String) (entry stop : Option Float) where
    -- Both bounds of a size that is neither refused nor negative.
    money-bounded :
        (equity bound : Float) (s : Sized)
        → (0f <f equity) ≡ true
        → (0f ≤f bound) ≡ true
        → (s.fraction ≤f bound) ≡ true
        → ((with_money sum stats account domain entry stop equity s).fraction ≤f bound) ≡ true
    money-bounded equity bound s pos least h =
        let used = domain_notional sum domain account in
        cap_risk-bounded back equity (correlated_risk sum assumed_correlation account) entry stop
          (cap_domain equity used s) bound pos least
          (le_trans (cap_domain equity used s).fraction s.fraction bound
            (cap_domain-bounded back equity used s pos) h)

    sized-bounded :
        (bound : Float)
        → (0f ≤f bound) ≡ true
        → ((cap_position (prudent_kelly stats)).fraction ≤f bound) ≡ true
        → ((sized_or_refused sum stats account domain entry stop).fraction ≤f bound) ≡ true
    sized-bounded bound least h = elim (Option-cases (require_equity account)) [
      | inl unknown ↦ rw (unknown, sized_or_refused) h
      | inr (equity, known) ↦
          rw (known, sized_or_refused)
            (money-bounded equity bound (cap_position (prudent_kelly stats))
              (require_equity-positive account equity known) least h)
    ]

    -- A decision that allows a position rests on two positive Kelly fractions and keeps under the prudent
    -- one and under the cap; an amount is the fraction of an equity that is known and positive.
    pub record IsBounded (d : SizeDecision) : Type 0 where
      pub wins : d.allowed ≡ true → 0f <f kelly_fraction stats ≡ true
      pub wins_at_lower_bound : d.allowed ≡ true → 0f <f prudent_kelly stats ≡ true
      pub under_kelly : d.allowed ≡ true → d.fraction ≤f prudent_kelly stats ≡ true
      pub under_cap : d.allowed ≡ true → d.fraction ≤f max_position_fraction ≡ true
      pub money : d.amount ≡ (elim (require_equity account) [
        | none ↦ none
        | some equity ↦ some (d.fraction *f equity)
      ])

    refusal-IsBounded :
        (why : Constraint) → IsBounded (refusal sum stats account domain entry stop why)
    refusal-IsBounded why = record {
      wins = λ h. ground (arith);
      wins_at_lower_bound = λ h. ground (arith);
      under_kelly = λ h. ground (arith);
      under_cap = λ h. ground (arith);
      money = refl;
    }

    sized-amount :
        (o : Option Float)
        → require_equity account ≡ o
        → (sized_or_refused sum stats account domain entry stop).amount
          ≡ (elim (require_equity account) [
            | none ↦ none
            | some equity ↦
                some ((sized_or_refused sum stats account domain entry stop).fraction *f equity)
          ])
    sized-amount none h = ground (arith, h)
    sized-amount (some equity) h = ground (arith, h)

    -- A position that may be opened has a positive Kelly fraction on the measured win rate and on its lower
    -- bound, and its share of the equity is at most the latter and at most the cap on one position. Whether
    -- it may be opened or not, an amount is named exactly where the account's equity is known and
    -- positive, and it is the share of that equity. This takes it that 0.1 is positive, and that division
    -- rounds monotonically.
    pub size_position-IsBounded :
        (0f <f max_position_fraction) ≡ true
        → IsBounded (size_position sum stats account domain entry stop)
    unfolding size_position
    size_position-IsBounded cap_pos =
        let capped = cap_position-bounded (prudent_kelly stats) in
        elim (Bool-cases (kelly_fraction stats ≤f 0f)) [
          | inl losing ↦ rw (losing, size_position) (refusal-IsBounded negative_edge)
          | inr winning ↦ elim (Bool-cases (prudent_kelly stats ≤f 0f)) [
            | inl unsure ↦
                rw (winning, unsure, size_position) (refusal-IsBounded no_edge_at_lower_bound)
            | inr sure ↦
                rw (winning, sure, size_position)
                  (record {
                    wins = λ h. ground (arith);
                    wins_at_lower_bound = λ h. ground (arith);
                    under_kelly = λ h.
                        sized-bounded (prudent_kelly stats)
                          (ground (arith, lt_asymm 0f (prudent_kelly stats))) capped.1;
                    under_cap = λ h.
                        sized-bounded max_position_fraction
                          (ground (arith, lt_asymm 0f max_position_fraction)) capped.0;
                    money = sized-amount (require_equity account) refl;
                  })
          ]
        ]
