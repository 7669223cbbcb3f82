-- ===== src/Tests/Samples.antt =====
-- Concrete floats and a concrete runtime, on which the program is run: floats are signed counts of
-- ten-thousandths.
use poly_bob.Base.{
  ℕ, zero, suc, ◌+◌, ◌-◌, ◌*◌, ◌/◌, ◌≡◌, Bool, true, false, not, ◌&&◌, ◌||◌, some, none,
  if◌then◌else◌, arith, nat_eq, string_eq, ltb,
}
use poly_bob.Base.Float.{Floats}
use poly_bob.Book.Values.{Runtime}

-- `minus n` is -(n + 1).
pub data Fixed : Type 0 where
  plus minus : ℕ → Fixed

abbrev pub fixed_lt : Fixed → Fixed → Bool
fixed_lt (plus a) (plus b) = ltb a b
fixed_lt (plus a) (minus b) = false
fixed_lt (minus a) (plus b) = true
fixed_lt (minus a) (minus b) = ltb b a

-- `a - b`
abbrev difference : ℕ → ℕ → Fixed
difference a b = if ltb a b then minus (b - a - 1) else plus (a - b)

abbrev fixed_add : Fixed → Fixed → Fixed
fixed_add (plus a) (plus b) = plus (a + b)
fixed_add (plus a) (minus b) = difference a (b + 1)
fixed_add (minus a) (plus b) = difference b (a + 1)
fixed_add (minus a) (minus b) = minus (a + b + 1)

abbrev pub fixed_neg : Fixed → Fixed
fixed_neg (plus zero) = plus 0
fixed_neg (plus (suc n)) = minus n
fixed_neg (minus n) = plus (n + 1)

abbrev pub magnitude : Fixed → ℕ
magnitude (plus n) = n
magnitude (minus n) = n + 1

abbrev pub is_minus : Fixed → Bool
is_minus (plus n) = false
is_minus (minus n) = true

abbrev pub signed : Fixed → Fixed → ℕ → Fixed
signed a b n =
    if is_minus a && is_minus b || not (is_minus a || is_minus b)
    then plus n
    else fixed_neg (plus n)

abbrev lt_irrefl : (a : Fixed) → fixed_lt a a ≡ false
lt_irrefl a = ground (arith)

abbrev lt_trans : (a b c : Fixed) → fixed_lt a b ≡ true → fixed_lt b c ≡ true → fixed_lt a c ≡ true
lt_trans a b c h k = ground (arith)

abbrev lt_connex : (a b : Fixed) → fixed_lt a b ≡ false → fixed_lt b a ≡ false → a ≡ b
lt_connex a b h k = ground (arith)

abbrev zero_add : (a : Fixed) → fixed_add (plus 0) a ≡ a
zero_add a = ground (arith)

abbrev add_pos :
    (a b : Fixed)
    → fixed_lt (plus 0) a ≡ true
    → fixed_lt (plus 0) b ≡ true
    → fixed_lt (plus 0) (fixed_add a b) ≡ true
add_pos a b h k = ground (arith)

abbrev scaled_down : ℕ → ℕ → ℕ
scaled_down zero n = n
scaled_down (suc k) n = scaled_down k (n / 10)

instance abbrev pub fixed_floats : Floats
fixed_floats = record {
  Carrier = Fixed;
  lt = fixed_lt;
  add = fixed_add;
  sub = λ a b. fixed_add a (fixed_neg b);
  mul = λ a b. signed a b (magnitude a * magnitude b / 10000);
  div = λ a b. signed a b (magnitude a * 10000 / magnitude b);
  neg = fixed_neg;
  sqrt = λ a. a;
  literal = λ n d. plus (scaled_down d (n * 10000));
  round_4 = λ a. a;
  lt_irrefl = lt_irrefl;
  lt_trans = lt_trans;
  lt_connex = lt_connex;
  zero_add = zero_add;
  add_pos = add_pos;
}

-- A runtime for texts that are lower case and numbers that are not texts.
instance abbrev pub plain_runtime : Runtime
plain_runtime = record {
  strip = λ s. s;
  lower = λ s. s;
  is_digit = λ s. false;
  float_of_text = λ s. none;
  seconds_of_digits = λ s. none;
  from_timestamp = λ x. some (magnitude x);
  replace_z = λ s. s;
  from_iso = λ s. none;
}
