-- ===== src/Wire/Bits.antt =====
-- The bit operations of yjs/codec.go as arithmetic.
use cert_yjs.Base.{
  ℕ, zero, suc, ◌+◌, ◌*◌, ◌/◌, ◌%◌, ◌^◌, ◌≤◌, ◌<◌, bit_and, bit_or, ◌≡◌, refl, ◌∙◌, arith, same_to,
  same_to-at,
}
use Prim.Native.Nat.{digits, max, min, bit_or-bitwise, bit_and-bitwise}

pub mark_more : (b : ℕ) → b < 128 → bit_or b 0x80 ≡ b + 128
unfolding same_to
mark_more = same_to-at _ _ 128 refl

-- Digits that do not overlap add up.
max-zero : (m w : ℕ) → w * 2 + max m 0 ≡ w * 2 + m
max-zero m w = omega arith

power_suc : (s : ℕ) → 2 ^ suc s ≡ 2 ^ s * 2
power_suc s = omega arith

double : (y s : ℕ) → y * 2 ^ suc s ≡ y * 2 ^ s * 2
double y s = rw power_suc (omega arith)

digits_step :
    (n a z : ℕ)
    → digits (λ b. b) max n (suc a / 2) z ≡ suc a / 2 + z
    → digits (λ b. b) max (suc n) (suc a) (z * 2) ≡ suc a + z * 2
digits_step n a z e =
    let half : z * 2 / 2 ≡ z = omega arith in
    let even : z * 2 % 2 ≡ 0 = omega arith in
    rw (half, even, e) (max-zero (suc a % 2) (suc a / 2 + z) ∙ omega arith)

digits-add : (n a y s : ℕ) → a < 2 ^ s → a ≤ n → digits (λ b. b) max n a (y * 2 ^ s) ≡ a + y * 2 ^ s
digits-add zero zero y s lt le = omega arith
digits-add zero (suc a) y s lt le = absurd (omega arith)
digits-add (suc n) zero y s lt le = omega arith
digits-add (suc n) (suc a) y zero lt le = absurd (omega arith)
digits-add (suc n) (suc a) y (suc s) lt le = rw (double y s) (
    digits_step n a (y * 2 ^ s)
      (digits-add n (suc a / 2) y s (omega (arith, power_suc s)) (omega arith)))

pub bit_or-add : (a y s : ℕ) → a < 2 ^ s → bit_or a (y * 2 ^ s) ≡ a + y * 2 ^ s
bit_or-add a y s lt = (λ i. bit_or-bitwise a (y * 2 ^ s) i) ∙ digits-add a a y s lt (omega arith)

-- Masking with `m` computes `f`.
abbrev Mask : ℕ → (ℕ → ℕ) → Type 0
Mask m f = (n a : ℕ) → a ≤ n → digits (λ b. zero) min n a m ≡ f a

Mask-zero : Mask 0 (λ a. 0)
Mask-zero zero a le = refl
Mask-zero (suc n) zero le = refl
Mask-zero (suc n) (suc a) le = omega (arith, Mask-zero n (suc a / 2) (omega arith))

-- One more bit at the low end of the mask.
Mask-next : (m : ℕ) (f : ℕ → ℕ) → f 0 ≡ 0 → Mask m f → Mask (m * 2 + 1) (λ a. f (a / 2) * 2 + a % 2)
Mask-next m f z mask zero zero le = omega (arith, z)
Mask-next m f z mask zero (suc a) le = absurd (omega arith)
Mask-next m f z mask (suc n) zero le = omega (arith, z)
Mask-next m f z mask (suc n) (suc a) le =
    let half : (m * 2 + 1) / 2 ≡ m = omega arith in
    let odd : (m * 2 + 1) % 2 ≡ 1 = omega arith in
    rw (half, odd, mask n (suc a / 2) (omega arith)) (omega arith)

Mask-seven : Mask 0x7f (λ a.
    ((((((0 * 2 + a / 2 / 2 / 2 / 2 / 2 / 2 % 2) * 2 + a / 2 / 2 / 2 / 2 / 2 % 2) * 2
                    + a / 2 / 2 / 2 / 2 % 2)
                  * 2
                + a / 2 / 2 / 2 % 2)
              * 2
            + a / 2 / 2 % 2)
          * 2
        + a / 2 % 2)
      * 2
    + a % 2)
Mask-seven = Mask-next 63 _ refl (
    Mask-next 31 _ refl (
      Mask-next 15 _ refl (
        Mask-next 7 _ refl
          (Mask-next 3 _ refl (Mask-next 1 _ refl (Mask-next 0 (λ a. 0) refl Mask-zero))))))

pub low_seven : (b : ℕ) → bit_and b 0x7f ≡ b % 128
low_seven b = (λ i. bit_and-bitwise b 0x7f i) ∙ Mask-seven b b (omega arith) ∙ omega arith
