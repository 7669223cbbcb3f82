-- ===== src/Book/Values.antt =====
-- Raw values of the feed (libs/polymarket/book_state.py): what a JSON field may hold, and how it is
-- read as a number or as a time. What Python's own text and date functions answer is the record
-- `Runtime`.
use poly_bob.Base.{ℕ, Bool, Option, some, none, if◌then◌else◌, String, ◌==◌, string_eq}
use poly_bob.Base.Float.{Floats, Float, ◌/f◌, lit}

-- A naive UTC datetime: microseconds from the first that Python has.
abbrev pub Time : Type 0
Time = ℕ

-- What `datetime.fromisoformat` gives: the fields as written, and with an offset the same in UTC.
pub record Stamp : Type 0 where
  pub local : Time
  pub in_utc : Option Time

module _ ⦃fl : Floats⦄ where
  pub data Raw : Type 0 where
    null : Raw
    num : Float → Raw
    text : String → Raw
    other : Raw

  -- `str.strip`, `str.lower`, `str.isdigit`, `float(text)`, `int(text) / 1000`,
  -- `datetime.utcfromtimestamp`, `datetime.fromisoformat` and `str.replace("Z", "+00:00")`;
  -- `none` where the call raises.
  pub record Runtime : Type 0 where
    pub strip : String → String
    pub lower : String → String
    pub is_digit : String → Bool
    pub float_of_text : String → Option Float
    pub seconds_of_digits : String → Option Float
    pub from_timestamp : Float → Option Time
    pub replace_z : String → String
    pub from_iso : String → Option Stamp

  module _ ⦃rt : Runtime⦄ where
    -- `float(value)`, where `none` is TypeError or ValueError. A number is one that a float holds: an integer
    -- that is too large (OverflowError) is left out.
    unfoldable pub to_float : Raw → Option Float
    to_float null = none
    to_float (num x) = some x
    to_float (text s) = rt.float_of_text s
    to_float other = none

    abbrev to_naive : Option Stamp → Option Time
    to_naive none = none
    to_naive (some s) = elim s.in_utc [ none ↦ some s.local | some t ↦ some t ]

    abbrev from_seconds : Option Float → Option Time
    from_seconds none = none
    from_seconds (some x) = rt.from_timestamp x

    unfoldable pub parse_provider_timestamp : Raw → Option Time
    parse_provider_timestamp null = none
    parse_provider_timestamp (num x) = rt.from_timestamp (x /f lit 1000 0)
    parse_provider_timestamp (text s) =
        let stripped = rt.strip s in
        if stripped == ""
        then none
        else if rt.is_digit stripped
        then from_seconds (rt.seconds_of_digits stripped)
        else to_naive (rt.from_iso (rt.replace_z stripped))
    parse_provider_timestamp other = none
