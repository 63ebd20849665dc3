-- ===== src/Word/Prefix.antt =====
-- Two words agree on their upper bits exactly when their quotients by a power of two are equal.
use Prim.Native.Nat.add
use native.Mathlib.Nat.{pow-suc, div-div-eq-div-mul}
use librefw.Base.{ℕ, zero, suc, ◌+◌, ◌/◌, ◌^◌, ◌≡◌, refl, sym, ap, ◌∙◌, arith, ◌==◌, length}
use librefw.Trie.{same_bits}
use librefw.Word.{bit, bits}

half : (x i : ℕ) → x / 2 ^ suc i ≡ x / 2 ^ i / 2
half x i = ap (λ (t : ℕ). x / t) (pow-suc 2 i) ∙ sym (div-div-eq-div-mul x (2 ^ i) 2)

pub length-bits : (x lo n : ℕ) → length (bits x lo n) ≡ n
unfolding bits
length-bits x lo zero = refl
length-bits x lo (suc n) = ap suc (length-bits x lo n)

half-at : (x lo n : ℕ) → x / 2 ^ (suc n + lo) ≡ x / 2 ^ (n + lo) / 2
half-at x lo n = ap (λ (t : ℕ). x / 2 ^ t) (add.suc n lo) ∙ half x (n + lo)

zero-at : (x lo : ℕ) → x / 2 ^ (0 + lo) ≡ x / 2 ^ lo
zero-at x lo = ap (λ (t : ℕ). x / 2 ^ t) (add.zero lo)

-- Equal lower parts have equal upper parts.
upward : (x y lo n : ℕ) → x / 2 ^ lo ≡ y / 2 ^ lo → x / 2 ^ (n + lo) ≡ y / 2 ^ (n + lo)
upward x y lo zero h = zero-at x lo ∙ h ∙ sym (zero-at y lo)
upward x y lo (suc n) h =
    half-at x lo n ∙ ap (λ (t : ℕ). t / 2) (upward x y lo n h) ∙ sym (half-at y lo n)

pub same_bits-quotient :
    (x y lo n : ℕ)
    → x / 2 ^ (n + lo) ≡ y / 2 ^ (n + lo)
    → same_bits (bits x lo n) (bits y lo n) ≡ (x / 2 ^ lo == y / 2 ^ lo)
unfolding bits bit
same_bits-quotient x y lo zero h = ground (arith, zero-at x lo, zero-at y lo)
same_bits-quotient x y lo (suc n) h =
    ground (arith, half-at x lo n, half-at y lo n, same_bits-quotient x y lo n, upward x y lo n)
