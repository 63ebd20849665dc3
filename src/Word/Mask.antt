-- ===== src/Word/Mask.antt =====
-- `in4_get_masked` keeps the first bits of an address: it rounds down to a multiple of a power of two.
use Prim.Native.Nat.{min, bit_and, digits, bit_and-bitwise}
use Prim.Native.Nat.add
use native.Mathlib.Nat.{
  pow-suc, one-le-pow, div-lt_iff_lt-mul, div-add-mod', mod-lt, mul-div_cancel,
}
use librefw.Base.{
  ℕ, zero, suc, ◌+◌, ◌-◌, ◌*◌, ◌/◌, ◌%◌, ◌^◌, ◌≤◌, ◌<◌, ◌≡◌, refl, sym, ap, ◌∙◌, inl, inr, false,
  arith, ◌==◌, ==_iff, Bool-cases,
}
use librefw.Word.{in4_get_masked}

-- `bit_and` is a recursion on digits with fuel; on `a` it needs no more than `a`.
and_digits : ℕ → ℕ → ℕ → ℕ
and_digits = digits (λ x. zero) min

no_digits : (fuel b : ℕ) → and_digits fuel 0 b ≡ 0
unfolding and_digits
no_digits zero b = refl
no_digits (suc fuel) b = refl

fuel_spare : (a : ℕ) (x y b : ℕ) → a ≤ x → a ≤ y → and_digits x a b ≡ and_digits y a b
unfolding and_digits
fuel_spare zero x y b le le' = no_digits x b ∙ sym (no_digits y b)
fuel_spare (suc a) (suc x) (suc y) b le le' =
    omega (arith, fuel_spare (suc a / 2) x y (b / 2) (omega arith) (omega arith))
fuel_spare (suc a) zero y b le le' = absurd (omega arith)
fuel_spare (suc a) (suc x) zero b le le' = absurd (omega arith)

bit_and-digits : (a b fuel : ℕ) → a ≤ fuel → bit_and a b ≡ and_digits fuel a b
unfolding and_digits
bit_and-digits a b fuel le = bit_and-bitwise a b ∙ fuel_spare a a fuel b (omega arith) le

-- The lowest digit.
bit_and_step : (a b : ℕ) → bit_and a b ≡ bit_and (a / 2) (b / 2) * 2 + min (a % 2) (b % 2)
unfolding and_digits
bit_and_step zero b = omega (arith, bit_and-digits 0 b 0, bit_and-digits 0 (b / 2) 0)
bit_and_step (suc a) b =
    bit_and-digits (suc a) b (suc a) (omega arith)
    ∙ omega (arith, bit_and-digits (suc a / 2) (b / 2) a (omega arith))

-- A value below 2 ^ n is kept by the mask of n ones.
bit_and_ones : (n r : ℕ) → r < 2 ^ n → bit_and r (2 ^ n - 1) ≡ r
bit_and_ones zero r h = ground (arith, bit_and-digits 0 0 0 (omega arith), no_digits 0 0)
bit_and_ones (suc n) r h =
    ground
      (arith, bit_and_step r (2 ^ suc n - 1), pow-suc 2 n, one-le-pow n 2, bit_and_ones n (r / 2))

scale : (x s : ℕ) → x * 2 ^ suc s ≡ 2 * (x * 2 ^ s)
scale x s = omega (arith, ap (λ (t : ℕ). x * t) (pow-suc 2 s))

-- A shifted mask drops the low bits.
bit_and_shifted :
    (s x mask r : ℕ) → r < 2 ^ s → bit_and (x * 2 ^ s + r) (mask * 2 ^ s) ≡ bit_and x mask * 2 ^ s
bit_and_shifted zero x mask r h = ground arith
bit_and_shifted (suc s) x mask r h = ground (
  arith,
  bit_and_step (x * 2 ^ suc s + r) (mask * 2 ^ suc s),
  scale x s,
  scale mask s,
  scale (bit_and x mask) s,
  pow-suc 2 s,
  bit_and_shifted s x mask (r / 2),
)

two-pow-add : (n s : ℕ) → 2 ^ (n + s) ≡ 2 ^ n * 2 ^ s
two-pow-add zero s = ap (λ (t : ℕ). 2 ^ t) (add.zero s) ∙ omega arith
two-pow-add (suc n) s = omega (
  arith,
  ap (λ (t : ℕ). 2 ^ t) (add.suc n s),
  pow-suc 2 (n + s),
  two-pow-add n s,
  ap (λ (t : ℕ). t * 2 ^ s) (pow-suc 2 n),
)

two-pow-pos : (s : ℕ) → 0 < 2 ^ s
two-pow-pos zero = omega arith
two-pow-pos (suc s) = omega (arith, two-pow-pos s, pow-suc 2 s)

same_exp : (i j : ℕ) → i ≡ j → 2 ^ i ≡ 2 ^ j
same_exp i j e = ap (λ (t : ℕ). 2 ^ t) e

mul_pred : (x y : ℕ) → 0 < x → (x - 1) * y + y ≡ x * y
mul_pred zero y h = absurd (omega arith)
mul_pred (suc x) y h = grind arith

-- The mask in the code.
mask_ones : (n : ℕ) → n ≤ 32 → 0xffff_ffff * 2 ^ (32 - n) % 2 ^ 32 ≡ (2 ^ n - 1) * 2 ^ (32 - n)
mask_ones n h =
    let whole : 2 ^ n * 2 ^ (32 - n) ≡ 2 ^ 32 =
      sym (two-pow-add n (32 - n)) ∙ same_exp (n + (32 - n)) 32 (omega arith) in
    omega (arith, whole, mul_pred (2 ^ n) (2 ^ (32 - n)) (two-pow-pos n), two-pow-pos (32 - n))

masked_suc :
    (ip n : ℕ) → in4_get_masked ip (suc n) ≡ bit_and ip (0xffff_ffff * 2 ^ (32 - suc n) % 2 ^ 32)
unfolding in4_get_masked
masked_suc ip n = let e : (suc n == 0) ≡ false = ground arith in rw e

-- For an address below 2 ^ 32 and a prefix length of at most 32, the first `prefix_len` bits are kept
-- and the others cleared: the address is rounded down to a multiple of 2 ^ (32 - prefix_len).
pub in4_get_masked-round :
    (ip n : ℕ) → ip < 2 ^ 32 → n ≤ 32 → in4_get_masked ip n ≡ ip / 2 ^ (32 - n) * 2 ^ (32 - n)
unfolding in4_get_masked
in4_get_masked-round ip zero h le = omega arith
in4_get_masked-round ip (suc n) h le =
    let s = 32 - suc n in
    let pow : 2 ^ suc n * 2 ^ s ≡ 2 ^ 32 =
      sym (two-pow-add (suc n) s) ∙ same_exp (suc n + s) 32 (omega arith) in
    let small : ip / 2 ^ s < 2 ^ suc n = (div-lt_iff_lt-mul (two-pow-pos s)).1 (rw pow h) in
    masked_suc ip n
    ∙ ap (bit_and ip) (mask_ones (suc n) le)
    ∙ ap (λ (t : ℕ). bit_and t ((2 ^ suc n - 1) * 2 ^ s)) (sym (div-add-mod' ip (2 ^ s)))
    ∙ bit_and_shifted s (ip / 2 ^ s) (2 ^ suc n - 1) (ip % 2 ^ s) (mod-lt ip (two-pow-pos s))
    ∙ ap (λ (t : ℕ). t * 2 ^ s) (bit_and_ones (suc n) (ip / 2 ^ s) small)

eq-mul_right : (p x y : ℕ) → 0 < p → (x * p == y * p) ≡ (x == y)
eq-mul_right p x y h = elim (Bool-cases (x == y)) [
  | inl e ↦ rw e (ground (arith, ap (λ (t : ℕ). t * p) ((==_iff x y).0 e)))
  | inr ne ↦ rw ne (elim (Bool-cases (x * p == y * p)) [
    | inr out ↦ out
    | inl e ↦
        let same : x ≡ y =
          sym (mul-div_cancel x h)
          ∙ ap (λ (t : ℕ). t / p) ((==_iff (x * p) (y * p)).0 e)
          ∙ mul-div_cancel y h in
        cc ((==_iff x y).1 same)
  ])
]

-- Two addresses below 2 ^ 32 have the same masked prefix, of a length of at most 32, exactly if the
-- numbers that their first bits form are the same.
pub masked-quotient :
    (a b n : ℕ)
    → a < 2 ^ 32
    → b < 2 ^ 32
    → n ≤ 32
    → (in4_get_masked a n == in4_get_masked b n) ≡ (a / 2 ^ (32 - n) == b / 2 ^ (32 - n))
masked-quotient a b n ha hb le =
    rw (in4_get_masked-round a n ha le, in4_get_masked-round b n hb le)
      (eq-mul_right (2 ^ (32 - n)) (a / 2 ^ (32 - n)) (b / 2 ^ (32 - n)) (two-pow-pos (32 - n)))
