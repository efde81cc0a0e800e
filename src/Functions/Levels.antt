-- ===== src/Functions/Levels.antt =====
-- The confidence of a report on a function's length.
use native.Mathlib.Decide.{dec_lt}
use nwtool.Base.{
  ltb, leb, Bool-cases, All, Text, ℕ, zero, suc, ◌+◌, ◌-◌, ◌*◌, ◌^◌, ◌≤◌, ◌<◌, ◌≡◌, ap, inl, inr,
  arith,
}
use nwtool.Report.{Report}
use native.Mathlib.Nat.{pow-succ'}
use native.Mathlib.Numerals.{towards_suc}
use nwtool.Functions.{FunctionState, base_trigger, log_level, error_level, check}

double_pow : (b n : ℕ) → b * 2 ^ (n + 1) ≡ b * 2 * 2 ^ n
double_pow b n =
    let e : 2 ^ (n + 1) ≡ 2 * 2 ^ n = simp towards_suc (omega arith) in
    omega (arith, ap (λ (t : ℕ). b * t) e)

double_pow_suc : (b n : ℕ) → b * 2 ^ suc n ≡ b * 2 * 2 ^ n
double_pow_suc b n = omega (arith, ap (λ (t : ℕ). b * t) (pow-succ' 2 n))

-- The doubling loop finds the whole part of the logarithm: the largest power of two by which
-- `base` can be multiplied without exceeding `lines`.
log_level_bounds :
    (f base lines : ℕ)
    → base ≤ lines
    → lines < base * 2 ^ f
    → (base * 2 ^ log_level f base lines ≤ lines)
      × (lines < base * 2 ^ (log_level f base lines + 1))
unfolding log_level
log_level_bounds zero base lines h k = absurd (omega (arith, h, k))
log_level_bounds (suc f) base lines h k = elim (Bool-cases (leb (base * 2) lines)) [
  | inl more ↦
      let ih =
        log_level_bounds f (base * 2) lines (ground arith) (omega (arith, double_pow_suc base f)) in
      let n = log_level f (base * 2) lines in
      rw more (omega (arith, ih.0, double_pow base n), omega (arith, ih.1, double_pow base (n + 1)))
  | inr less ↦ rw less (omega arith, ground arith)
]

lt_pow : (b n : ℕ) → 0 < b → n < b * 2 ^ n
lt_pow b zero p = omega arith
lt_pow b (suc n) p = omega (arith, lt_pow b n p, double_pow_suc b n)

pow_mono_add : (b n k : ℕ) → b * 2 ^ n ≤ b * 2 ^ (n + k)
pow_mono_add b n zero = let e : n + 0 ≡ n = omega arith in rw e (omega arith)
pow_mono_add b n (suc k) =
    let e : n + suc k ≡ suc (n + k) = omega arith in
    rw e (
      omega (
        arith,
        pow_mono_add b n k,
        double_pow_suc b (n + k),
        ap (λ (t : ℕ). b * t) (pow-succ' 2 (n + k)),
      ))

pow_mono : (b m n : ℕ) → m ≤ n → b * 2 ^ m ≤ b * 2 ^ n
pow_mono b m n h = let e : m + (n - m) ≡ n = omega arith in rw e at (pow_mono_add b m (n - m))

pow_reflect : (b m n : ℕ) → b * 2 ^ m < b * 2 ^ n → m < n
pow_reflect b m n h = elim (dec_lt m n) [
  | yes p ↦ p
  | no p ↦ absurd (omega (arith, pow_mono b n m (omega arith)))
]

base_trigger_pos : (name : Text) → 0 < base_trigger name
base_trigger_pos name = ground arith

-- What the capped logarithm says of a function that exceeds the trigger.
error_level_bounds :
    (base v lines : ℕ)
    → 0 < base
    → v ≤ 5
    → base * 2 ^ v < lines
    → (v ≤ error_level base lines)
      × (error_level base lines ≤ 5)
      × (base * 2 ^ error_level base lines ≤ lines)
      × (error_level base lines < 5 → lines < base * 2 ^ (error_level base lines + 1))
unfolding error_level
error_level_bounds base v lines p h k =
    let n = log_level lines base lines in
    let b =
      log_level_bounds lines base lines (omega (arith, pow_mono base 0 v (omega arith)))
        (lt_pow base lines p) in
    let above : v < n + 1 = pow_reflect base v (n + 1) (omega (arith, b.1)) in
    elim (dec_lt 5 n) [
      | yes big ↦ ground (arith, b.0, pow_mono base 5 n (omega arith))
      | no small ↦ ground (arith, b.0, b.1)
    ]

-- Every report on a function's length has a confidence that the verbosity level lets through, for
-- levels up to 5, and no confidence above 5. When it is below 5, the function has at least
-- `base * 2 ** confidence` lines and fewer than twice as many, where `base` is 250, or 400 for a
-- test: a scale that begins at 250 and not, as the code's comment has it, at 50.
pub check-confidence :
    (s : FunctionState) (verbose_level linenum : ℕ)
    → verbose_level ≤ 5
    → All
        (λ (r : Report).
          (verbose_level ≤ r.confidence)
          × (r.confidence ≤ 5)
          × (base_trigger s.current_function * 2 ^ r.confidence ≤ s.lines_in_function)
          × (r.confidence < 5
              → s.lines_in_function < base_trigger s.current_function * 2 ^ (r.confidence + 1)))
        (check s verbose_level linenum)
unfolding check
check-confidence s v linenum h =
    elim (Bool-cases (ltb (base_trigger s.current_function * 2 ^ v) s.lines_in_function)) [
      | inl long ↦ ground (
        arith,
        error_level_bounds (base_trigger s.current_function) v s.lines_in_function
            (base_trigger_pos s.current_function) h,
      )
      | inr short ↦ ground arith
    ]
