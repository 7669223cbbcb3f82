-- ===== src/Promotion/Registry.antt =====
-- `PromotionRecord` and `PromotionRegistry` (libs/quant/promotion_registry.py). A date is its ordinal
-- day, and `today` an argument; `day_of` is `dt.date.fromisoformat` on the first ten characters, with
-- none for ValueError. The board is what reading and parsing the file gives, none if that raises.
use poly_bob.Base.{
  ℕ, ◌+◌, Bool, true, false, not, ◌&&◌, ◌||◌, Option, some, none, if◌then◌else◌, String, List, [],
  ◌∷◌, ◌++◌, map, ◌==◌, nat_eq, string_eq, get_or, is_empty, any, keep, ltb,
}
use poly_bob.Base.Float.{Floats, Float, 0f}

pub data Role : Type 0 where
  trade avoid : Role
  -- An empty or unknown label.
  unlabelled : String → Role

abbrev pub is_trade : Role → Bool
is_trade trade = true
is_trade _ = false

abbrev pub is_avoid : Role → Bool
is_avoid avoid = true
is_avoid _ = false

module _ ⦃fl : Floats⦄ where
  pub record PromotionRecord : Type 0 where
    pub strategy : String
    pub instrument : String
    pub approved : Bool
    pub role : Role
    pub sharpe : Float
    pub dsr : Option Float
    pub failed : List String
    pub domain : String
    pub win_rate : Option Float
    pub mean_excess_pct : Option Float
    pub t_stat : Option Float
    pub t_stat_iid : Option Float
    pub t_hurdle : Option Float
    pub n : Option ℕ
    pub n_clusters : Option ℕ
    pub cluster_by : String
    pub wild_p : Option Float
    pub p_floor : Option Float
    pub resolvable : Option Bool
    pub evidence_end : Option String
    pub max_evidence_age_days : Option ℕ
    pub implementation : String
    pub evidence : String
    pub source : String

  -- A row of the board: `row.get` of each field.
  pub record Row : Type 0 where
    pub strategy : Option String
    pub instrument : Option String
    pub approved : Option Bool
    pub role : Option String
    pub sharpe : Option Float
    pub dsr : Option Float
    pub failed : Option (List String)
    pub domain : Option String
    pub win_rate : Option Float
    pub mean_excess_pct : Option Float
    pub t_stat : Option Float
    pub t_stat_iid : Option Float
    pub t_hurdle : Option Float
    pub n : Option ℕ
    pub n_clusters : Option ℕ
    pub cluster_by : Option String
    pub wild_p : Option Float
    pub p_floor : Option Float
    pub resolvable : Option Bool
    pub evidence_end : Option String
    pub max_evidence_age_days : Option ℕ
    pub implementation : Option String
    pub evidence : Option String
    pub source : Option String

  unfoldable pub role_of : String → Role
  role_of s = if s == "trade" then trade else if s == "avoid" then avoid else unlabelled s

  unfoldable pub record_of : Row → PromotionRecord
  record_of row = record {
    strategy = get_or row.strategy "";
    instrument = get_or row.instrument "";
    approved = get_or row.approved false;
    role = role_of (get_or row.role "");
    sharpe = get_or row.sharpe 0f;
    dsr = row.dsr;
    failed = get_or row.failed [];
    domain = get_or row.domain "";
    win_rate = row.win_rate;
    mean_excess_pct = row.mean_excess_pct;
    t_stat = row.t_stat;
    t_stat_iid = row.t_stat_iid;
    t_hurdle = row.t_hurdle;
    n = row.n;
    n_clusters = row.n_clusters;
    cluster_by = get_or row.cluster_by "";
    wild_p = row.wild_p;
    p_floor = row.p_floor;
    resolvable = row.resolvable;
    evidence_end = row.evidence_end;
    max_evidence_age_days = row.max_evidence_age_days;
    implementation = get_or row.implementation "";
    evidence = get_or row.evidence "";
    source = get_or row.source "";
  }

  -- `reload`: the records of the board, or none.
  unfoldable pub reload : Option (List Row) → List PromotionRecord
  reload none = []
  reload (some rows) = map record_of rows

  -- `instrument is None or r.instrument == instrument`
  abbrev pub fits : Option String → PromotionRecord → Bool
  fits none r = true
  fits (some i) r = r.instrument == i

  unfoldable pub demoted_pairs : List PromotionRecord → List PromotionRecord
  demoted_pairs records = keep (λ r. not r.approved) records

  pub data Blocked : Type 0 where
    no_record promoted avoid_only missing_role : Blocked
    expired : PromotionRecord → Blocked
    failed_gates : List String → Blocked

  -- `{f for r in recs for f in r.failed}`, before it is sorted.
  abbrev all_failed : List PromotionRecord → List String
  all_failed [] = []
  all_failed (r ∷ records) = r.failed ++ all_failed records

  abbrev is_unlabelled : PromotionRecord → Bool
  is_unlabelled r = r.approved && not (is_trade r.role || is_avoid r.role)

  abbrev pub matching : String → Option String → List PromotionRecord → List PromotionRecord
  matching strategy instrument records =
      keep (λ r. r.strategy == strategy && fits instrument r) records

  abbrev pub last_reasons : List PromotionRecord → List PromotionRecord → Blocked
  last_reasons [] recs = failed_gates (all_failed recs)
  last_reasons (r ∷ _) recs = expired r

  module _ (day_of : String → Option ℕ) (today : ℕ) where
    -- The first and the last day of `evidence_age_days`; the age is their difference, which may be
    -- negative.
    abbrev pub evidence_day : Option String → Option ℕ
    evidence_day none = none
    evidence_day (some s) = if s == "" then none else day_of s

    -- `age > limit`, where a limit of None or 0 is no limit
    abbrev pub is_older : Option ℕ → Option ℕ → Bool
    is_older (some end) (some limit) = if limit == 0 then false else ltb (end + limit) today
    is_older _ _ = false

    unfoldable pub evidence_expired : PromotionRecord → Bool
    evidence_expired r = is_older (evidence_day r.evidence_end) r.max_evidence_age_days

    unfoldable pub tradable : PromotionRecord → Bool
    tradable r = r.approved && is_trade r.role && not (evidence_expired r)

    unfoldable pub is_avoid_filter : PromotionRecord → Bool
    is_avoid_filter r = r.approved && is_avoid r.role && not (evidence_expired r)

    -- The loop with its `continue` and its `return`.
    unfoldable pub is_promoted : String → Option String → List PromotionRecord → Bool
    is_promoted strategy instrument [] = false
    is_promoted strategy instrument (r ∷ records) =
        let rest = is_promoted strategy instrument records in
        if not (r.strategy == strategy) || not (tradable r)
        then rest
        else if fits instrument r
        then true
        else rest

    unfoldable pub promoted_pairs : List PromotionRecord → List PromotionRecord
    promoted_pairs records = keep tradable records

    unfoldable pub avoid_filters : Option String → List PromotionRecord → List PromotionRecord
    avoid_filters none records = keep is_avoid_filter records
    avoid_filters (some domain) records =
        keep (λ r. r.domain == domain) (keep is_avoid_filter records)

    unfoldable pub reason_of : List PromotionRecord → Blocked
    reason_of recs =
        if is_empty recs
        then no_record
        else if any tradable recs
        then promoted
        else if any is_avoid_filter recs
        then avoid_only
        else if any is_unlabelled recs
        then missing_role
        else last_reasons (keep (λ r. r.approved && evidence_expired r) recs) recs

    unfoldable pub reason_blocked : String → Option String → List PromotionRecord → Blocked
    reason_blocked strategy instrument records = reason_of (matching strategy instrument records)
