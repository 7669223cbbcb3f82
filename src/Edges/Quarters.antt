-- ===== src/Edges/Quarters.antt =====
-- The rounds that `detect_insider_cluster` gives its loop over the quarters are enough.
use poly_bob.Base.{ℕ, zero, suc, ◌+◌, ◌≤◌, ◌<◌, ◌≡◌, refl, sym, arith, [], nat_eq, string_eq}
use poly_bob.Edges.Detect.{Quarter, next_quarter, quarters_between, quarter_number}

abbrev IsQuarter : Quarter → Type 0
IsQuarter q = (1 ≤ q.quarter) × (q.quarter ≤ 4)

next_quarter-IsQuarter :
    (q : Quarter)
    → IsQuarter q
    → IsQuarter (next_quarter q) × (quarter_number (next_quarter q) ≡ suc (quarter_number q))
next_quarter-IsQuarter q h = ground (arith, h)

past_end :
    (k : ℕ) (from until : Quarter)
    → IsQuarter from
    → IsQuarter until
    → quarter_number until < quarter_number from
    → quarters_between k from until ≡ []
unfolding quarters_between
past_end zero from until f u h = refl
past_end (suc k) from until f u h = ground (arith, f, u, h)

-- Any two numbers of rounds that reach behind the last quarter find the same.
quarters_between_enough :
    (m n : ℕ) (from until : Quarter)
    → IsQuarter from
    → IsQuarter until
    → quarter_number until < quarter_number from + m
    → quarter_number until < quarter_number from + n
    → quarters_between m from until ≡ quarters_between n from until
unfolding quarters_between
quarters_between_enough zero n from until f u h k =
    sym (past_end n from until f u (omega (arith, h)))
quarters_between_enough (suc m) zero from until f u h k =
    past_end (suc m) from until f u (omega (arith, k))
quarters_between_enough (suc m) (suc n) from until f u h k =
    let (f', next) = next_quarter-IsQuarter from f in
    ground (
      arith,
      quarters_between_enough m n (next_quarter from) until f' u (omega (arith, h, next))
          (omega (arith, k, next)),
    )
