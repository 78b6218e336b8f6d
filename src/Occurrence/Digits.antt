-- ===== src/Occurrence/Digits.antt =====
-- That the steps of a number's print are enough (formatClock of backend/src/utils/occurrence.util.ts).
use wall_e_campus_assistant.Prelude.{
  ℕ, zero, suc, ◌+◌, ◌/◌, ◌%◌, ◌<◌, ◌≡◌, refl, inl, inr, ap, ◌++◌, [], ◌∷◌, ltb, arith, Bool-cases,
  if◌then◌else◌,
}
use wall_e_campus_assistant.Occurrence.{decimal, decimal_in, true, false}

-- With more steps than the number says, how many more makes no difference.
enough_steps : (f g n : ℕ) → n < f → n < g → decimal_in f n ≡ decimal_in g n
unfolding decimal_in
enough_steps zero g n a b = absurd (omega arith)
enough_steps (suc f) zero n a b = absurd (omega arith)
enough_steps (suc f) (suc g) n a b = elim (Bool-cases (ltb n 10)) [
  | inl e ↦ rw e refl
  | inr e ↦
      let large : 10 < n + 1 = ground arith in
      rw e (
        ap (λ z. z ++ (b'0' + n % 10) ∷ []) (enough_steps f g (n / 10) (omega arith) (omega arith)))
]

-- A number of one digit is printed as the digit, and a larger one as its tenth and its last digit, so
-- that no step is missing.
pub decimal_lem :
    (n : ℕ)
    → decimal n ≡ (if ltb n 10 then (b'0' + n) ∷ [] else decimal (n / 10) ++ (b'0' + n % 10) ∷ [])
unfolding decimal decimal_in
decimal_lem n = elim (Bool-cases (ltb n 10)) [
  | inl e ↦ go n (n + 1) refl e
  | inr e ↦ go' n (n + 1) refl e
]
  where
    go :
        (k f : ℕ)
        → f ≡ k + 1
        → ltb k 10 ≡ true
        → decimal_in f k
          ≡ (if ltb k 10 then (b'0' + k) ∷ [] else decimal (k / 10) ++ (b'0' + k % 10) ∷ [])
    go k zero q e = absurd (omega arith)
    go k (suc f) q e = rw e refl

    go' :
        (k f : ℕ)
        → f ≡ k + 1
        → ltb k 10 ≡ false
        → decimal_in f k
          ≡ (if ltb k 10 then (b'0' + k) ∷ [] else decimal (k / 10) ++ (b'0' + k % 10) ∷ [])
    go' k zero q e = absurd (omega arith)
    go' k (suc f) q e =
        let large : 10 < k + 1 = ground arith in
        rw e (
          ap (λ z. z ++ (b'0' + k % 10) ∷ [])
            (enough_steps f (k / 10 + 1) (k / 10) (omega arith) (omega arith)))
