-- ===== src/Journal/Ordered.antt =====
-- The order in which rows are read from the journal (libs/db/trade_journal.py).
use poly_bob.Base.{
  ℕ, zero, suc, ◌≤◌, ◌≡◌, refl, inl, inr, Bool, true, ◌&&◌, if◌then◌else◌, arith, List, [], ◌∷◌,
  keep, count, length, All, All-imp, Bool-cases, leb, nat_eq, string_eq, ap, subst,
}
use mathlib.Core.List.{Perm}
use mathlib.Core.List.Perm
use poly_bob.Base.Float.{Floats}
use poly_bob.Journal.Entries.{JournalEntry}
use poly_bob.Journal.Measured.{take, place, order_by}

pub keep-keep :
    {A : Type 0} (p q : A → Bool) (xs : List A) → keep p (keep q xs) ≡ keep (λ x. q x && p x) xs
keep-keep p q [] = refl
keep-keep p q (x ∷ xs) = ground (arith, keep-keep p q xs)

pub keep_same :
    {A : Type 0} (p q : A → Bool) (xs : List A) → ((x : A) → p x ≡ q x) → keep p xs ≡ keep q xs
keep_same p q [] h = refl
keep_same p q (x ∷ xs) h = ground (arith, h x, keep_same p q xs h)

pub count-keep :
    {A : Type 0} (p q : A → Bool) (xs : List A) → count p (keep q xs) ≡ count (λ x. q x && p x) xs
count-keep p q [] = refl
count-keep p q (x ∷ xs) = ground (arith, count-keep p q xs)

pub length-keep : {A : Type 0} (p : A → Bool) (xs : List A) → length (keep p xs) ≡ count p xs
length-keep p [] = refl
length-keep p (x ∷ xs) = ground (arith, length-keep p xs)

pub length-keep_le : {A : Type 0} (p : A → Bool) (xs : List A) → length (keep p xs) ≤ length xs
length-keep_le p [] = ground (arith)
length-keep_le p (x ∷ xs) = ground (arith, length-keep_le p xs)

All-keep : {A : Type 0} (P : A → Type 0) (p : A → Bool) (xs : List A) → All P xs → All P (keep p xs)
All-keep P p [] h = tt
All-keep P p (x ∷ xs) h = elim (Bool-cases (p x)) [
  | inl holds ↦ rw holds (h.0, All-keep P p xs h.1)
  | inr fails ↦ rw fails (All-keep P p xs h.1)
]

pub All-keep_own : {A : Type 0} (p : A → Bool) (xs : List A) → All (λ x. p x ≡ true) (keep p xs)
All-keep_own p [] = tt
All-keep_own p (x ∷ xs) = elim (Bool-cases (p x)) [
  | inl holds ↦ rw holds (holds, All-keep_own p xs)
  | inr fails ↦ rw fails (All-keep_own p xs)
]

pub take_all : {A : Type 0} (n : ℕ) (xs : List A) → length xs ≤ n → take n xs ≡ xs
unfolding take
take_all zero [] h = refl
take_all zero (x ∷ xs) h = ground (arith)
take_all (suc n) [] h = refl
take_all (suc n) (x ∷ xs) h = ap (λ ys. x ∷ ys) (take_all n xs (ground (arith)))

keep_cons :
    {A : Type 0} (p : A → Bool) (x : A) (xs ys : List A)
    → Perm (keep p xs) (keep p ys)
    → Perm (keep p (x ∷ xs)) (keep p (x ∷ ys))
keep_cons p x xs ys h = elim (Bool-cases (p x)) [
  | inl held ↦ rw held (Perm.cons x h)
  | inr dropped ↦ rw dropped h
]

module _ ⦃fl : Floats⦄ where
  module _ (before : JournalEntry → JournalEntry → Bool) where
    length-place :
        (e : JournalEntry) (es : List JournalEntry) → length (place before e es) ≡ suc (length es)
    unfolding place
    length-place e [] = refl
    length-place e (x ∷ es) = ground (arith, length-place e es)

    pub length-order_by : (es : List JournalEntry) → length (order_by before es) ≡ length es
    unfolding order_by
    length-order_by [] = refl
    length-order_by (e ∷ es) =
        ground (arith, length-place e (order_by before es), length-order_by es)

    keep-place-perm :
        (p : JournalEntry → Bool) (e : JournalEntry) (es : List JournalEntry)
        → Perm (keep p (place before e es)) (keep p (e ∷ es))
    unfolding place
    keep-place-perm p e [] = Perm.rfl
    keep-place-perm p e (x ∷ es) = elim (Bool-cases (before e x)) [
      | inl first ↦ rw (first, place) Perm.rfl
      | inr later ↦
          let rest : Perm (keep p (place before e es)) (if p e then e ∷ keep p es else keep p es) =
            keep-place-perm p e es in
          elim (Bool-cases (p x)) [
            | inl held ↦ elim (Bool-cases (p e)) [
              | inl own ↦
                  let rest' : Perm (keep p (place before e es)) (e ∷ keep p es) =
                    subst
                      (λ b.
                        Perm (keep p (place before e es)) (if b then e ∷ keep p es else keep p es))
                      own rest in
                  rw (later, place, held, own)
                    (Perm.trans (Perm.cons x rest') (Perm.swap e x (keep p es)))
              | inr other ↦
                  let rest' : Perm (keep p (place before e es)) (keep p es) =
                    subst
                      (λ b.
                        Perm (keep p (place before e es)) (if b then e ∷ keep p es else keep p es))
                      other rest in
                  rw (later, place, held, other) (Perm.cons x rest')
            ]
            | inr dropped ↦ rw (later, place, dropped) rest
          ]
    ]

    pub keep-order_by-perm :
        (p : JournalEntry → Bool) (es : List JournalEntry)
        → Perm (keep p (order_by before es)) (keep p es)
    unfolding order_by
    keep-order_by-perm p [] = Perm.rfl
    keep-order_by-perm p (e ∷ es) =
        Perm.trans (keep-place-perm p e (order_by before es))
          (keep_cons p e (order_by before es) es (keep-order_by-perm p es))

    count-place :
        (p : JournalEntry → Bool) (e : JournalEntry) (es : List JournalEntry)
        → count p (place before e es) ≡ count p (e ∷ es)
    unfolding place
    count-place p e [] = refl
    count-place p e (x ∷ es) = ground (arith, count-place p e es)

    pub count-order_by :
        (p : JournalEntry → Bool) (es : List JournalEntry)
        → count p (order_by before es) ≡ count p es
    unfolding order_by
    count-order_by p [] = refl
    count-order_by p (e ∷ es) =
        ground (arith, count-place p e (order_by before es), count-order_by p es)

  abbrev pub newest : JournalEntry → JournalEntry → Bool
  newest x y = leb y.opened_at x.opened_at

  -- No entry stands behind one that was opened earlier.
  abbrev pub IsNewestFirst : List JournalEntry → Type 0
  IsNewestFirst [] = Unit
  IsNewestFirst (e ∷ es) = All (λ x. x.opened_at ≤ e.opened_at) es × IsNewestFirst es

  All-place :
      (P : JournalEntry → Type 0) (before : JournalEntry → JournalEntry → Bool) (e : JournalEntry)
      (es : List JournalEntry)
      → P e
      → All P es
      → All P (place before e es)
  unfolding place
  All-place P before e [] h hs = (h, tt)
  All-place P before e (x ∷ es) h hs = elim (Bool-cases (before e x)) [
    | inl first ↦ rw (first, place) (h, hs)
    | inr later ↦ rw (later, place) (hs.0, All-place P before e es h hs.1)
  ]

  place-IsNewestFirst :
      (e : JournalEntry) (es : List JournalEntry)
      → IsNewestFirst es
      → IsNewestFirst (place newest e es)
  unfolding place
  place-IsNewestFirst e [] h = (tt, tt)
  place-IsNewestFirst e (x ∷ es) h = elim (Bool-cases (newest e x)) [
    | inl first ↦
        let under : x.opened_at ≤ e.opened_at = ground (arith) in
        rw (first, place) ((under, All-imp es (λ y le. ground (arith, le, under)) h.0), h)
    | inr later ↦
        let over : e.opened_at ≤ x.opened_at = ground (arith) in
        rw (later, place)
          (
            All-place (λ y. y.opened_at ≤ x.opened_at) newest e es over h.0,
            place-IsNewestFirst e es h.1,
          )
  ]

  pub order_by-IsNewestFirst : (es : List JournalEntry) → IsNewestFirst (order_by newest es)
  unfolding order_by
  order_by-IsNewestFirst [] = tt
  order_by-IsNewestFirst (e ∷ es) =
      place-IsNewestFirst e (order_by newest es) (order_by-IsNewestFirst es)

  pub keep-IsNewestFirst :
      (p : JournalEntry → Bool) (es : List JournalEntry)
      → IsNewestFirst es
      → IsNewestFirst (keep p es)
  keep-IsNewestFirst p [] h = tt
  keep-IsNewestFirst p (e ∷ es) h = elim (Bool-cases (p e)) [
    | inl held ↦
        rw held (All-keep (λ x. x.opened_at ≤ e.opened_at) p es h.0, keep-IsNewestFirst p es h.1)
    | inr dropped ↦ rw dropped (keep-IsNewestFirst p es h.1)
  ]
