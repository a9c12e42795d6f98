-- ===== src/Prelude/Bits.antt =====
-- `&`, `|` and `^` of C++ on non-negative numbers, at variables: each operation digit by digit, and
-- the laws that the frame codecs and the checksum need.
use Prim.Native.Nat.{
  ℕ, zero, suc, ◌+◌, ◌*◌, ◌/◌, ◌%◌, ◌^◌, ◌≤◌, ◌<◌, min, max, bit_and, bit_or, bit_xor, digits,
  differ, bit_and-bitwise, bit_or-bitwise, bit_xor-bitwise,
}
use mathlib.Core.Path.{◌≡◌, refl, ap, ◌∙◌, sym}
use mathlib.Core.Bool.{Bool, true, ◌&&◌}
use native.Mathlib.Omega.{arith}
use native.Mathlib.Nat.{pow-suc, pow-succ', mod-add-div, div-one, div-div-eq-div-mul}

-- The count of digits that the native definitions recur on does not matter once it is large enough.
module _ (z : ℕ → ℕ) (f : ℕ → ℕ → ℕ) where
  digits_count : (k l x y : ℕ) → x ≤ k → x ≤ l → digits z f k x y ≡ digits z f l x y
  digits_count zero zero x y p q = refl
  digits_count zero (suc l) zero y p q = refl
  digits_count zero (suc l) (suc x) y p q = absurd (omega arith)
  digits_count (suc k) zero zero y p q = refl
  digits_count (suc k) zero (suc x) y p q = absurd (omega arith)
  digits_count (suc k) (suc l) zero y p q = refl
  digits_count (suc k) (suc l) (suc x) y p q =
      omega (arith, digits_count k l (suc x / 2) (y / 2) (omega arith) (omega arith))

  digits_step :
      (x y : ℕ)
      → digits z f (suc x) (suc x) y
        ≡ digits z f (suc x / 2) (suc x / 2) (y / 2) * 2 + f (suc x % 2) (y % 2)
  digits_step x y =
      omega (arith, digits_count x (suc x / 2) (suc x / 2) (y / 2) (omega arith) (omega arith))

-- One digit of each operation.
pub zero-bit_and : (y : ℕ) → bit_and 0 y ≡ 0
zero-bit_and y = bit_and-bitwise 0 y

pub zero-bit_or : (y : ℕ) → bit_or 0 y ≡ y
zero-bit_or y = bit_or-bitwise 0 y

pub zero-bit_xor : (y : ℕ) → bit_xor 0 y ≡ y
zero-bit_xor y = bit_xor-bitwise 0 y

pub bit_and_step : (x y : ℕ) → bit_and x y ≡ bit_and (x / 2) (y / 2) * 2 + min (x % 2) (y % 2)
bit_and_step zero y = omega (arith, zero-bit_and y, zero-bit_and (y / 2))
bit_and_step (suc x) y = omega (
  arith,
  bit_and-bitwise (suc x) y,
  bit_and-bitwise (suc x / 2) (y / 2),
  digits_step (λ _. zero) min x y,
)

pub bit_or_step : (x y : ℕ) → bit_or x y ≡ bit_or (x / 2) (y / 2) * 2 + max (x % 2) (y % 2)
bit_or_step zero y = omega (arith, zero-bit_or y, zero-bit_or (y / 2))
bit_or_step (suc x) y = omega (
  arith,
  bit_or-bitwise (suc x) y,
  bit_or-bitwise (suc x / 2) (y / 2),
  digits_step (λ c. c) max x y,
)

bit_or-zero_bound : (n a : ℕ) → a ≤ n → bit_or a 0 ≡ a
bit_or-zero_bound n zero h = zero-bit_or 0
bit_or-zero_bound zero (suc a) h = absurd (omega arith)
bit_or-zero_bound (suc n) (suc a) h =
    omega (arith, bit_or_step (suc a) 0, bit_or-zero_bound n (suc a / 2) (omega arith))

pub bit_or-zero : (a : ℕ) → bit_or a 0 ≡ a
bit_or-zero a = bit_or-zero_bound a a (omega arith)

bit_or-comm_bound : (n a b : ℕ) → a ≤ n → bit_or a b ≡ bit_or b a
bit_or-comm_bound n zero b h = omega (arith, zero-bit_or b, bit_or-zero b)
bit_or-comm_bound zero (suc a) b h = absurd (omega arith)
bit_or-comm_bound (suc n) (suc a) b h = omega (
  arith,
  bit_or_step (suc a) b,
  bit_or_step b (suc a),
  bit_or-comm_bound n (suc a / 2) (b / 2) (omega arith),
)

pub bit_or_comm : (a b : ℕ) → bit_or a b ≡ bit_or b a
bit_or_comm a b = bit_or-comm_bound a a b (omega arith)

-- The native operation on two digits, in arithmetic.
differ_digits : (x y : ℕ) → x < 2 → y < 2 → differ x y ≡ (x + y) % 2
differ_digits zero zero h k = omega arith
differ_digits zero (suc y) h k = omega arith
differ_digits (suc x) zero h k = omega arith
differ_digits (suc zero) (suc zero) h k = omega arith
differ_digits (suc zero) (suc (suc y)) h k = absurd (omega arith)
differ_digits (suc (suc x)) (suc y) h k = absurd (omega arith)

pub bit_xor_step : (a b : ℕ) → bit_xor a b ≡ bit_xor (a / 2) (b / 2) * 2 + (a % 2 + b % 2) % 2
bit_xor_step zero b = omega (arith, zero-bit_xor b, zero-bit_xor (b / 2))
bit_xor_step (suc a) b = omega (
  arith,
  bit_xor-bitwise (suc a) b,
  bit_xor-bitwise (suc a / 2) (b / 2),
  digits_step (λ c. c) differ a b,
  differ_digits (suc a % 2) (b % 2) (omega arith) (omega arith),
)

-- Laws of `^`, by strong induction on a bound of the operands.
bit_xor-zero_bound : (n a : ℕ) → a ≤ n → bit_xor a 0 ≡ a
bit_xor-zero_bound n zero h = zero-bit_xor 0
bit_xor-zero_bound zero (suc a) h = absurd (omega arith)
bit_xor-zero_bound (suc n) (suc a) h =
    omega (arith, bit_xor_step (suc a) 0, bit_xor-zero_bound n (suc a / 2) (omega arith))

pub bit_xor-zero : (a : ℕ) → bit_xor a 0 ≡ a
bit_xor-zero a = bit_xor-zero_bound a a (omega arith)

bit_xor-comm_bound : (n a b : ℕ) → a ≤ n → bit_xor a b ≡ bit_xor b a
bit_xor-comm_bound n zero b h = omega (arith, zero-bit_xor b, bit_xor-zero b)
bit_xor-comm_bound zero (suc a) b h = absurd (omega arith)
bit_xor-comm_bound (suc n) (suc a) b h = omega (
  arith,
  bit_xor_step (suc a) b,
  bit_xor_step b (suc a),
  bit_xor-comm_bound n (suc a / 2) (b / 2) (omega arith),
)

pub bit_xor_comm : (a b : ℕ) → bit_xor a b ≡ bit_xor b a
bit_xor_comm a b = bit_xor-comm_bound a a b (omega arith)

bit_xor-assoc_bound : (n a b c : ℕ) → a ≤ n → bit_xor (bit_xor a b) c ≡ bit_xor a (bit_xor b c)
bit_xor-assoc_bound n zero b c h =
    omega (arith, ap (λ t. bit_xor t c) (zero-bit_xor b), zero-bit_xor (bit_xor b c))
bit_xor-assoc_bound zero (suc a) b c h = absurd (omega arith)
bit_xor-assoc_bound (suc n) (suc a) b c h =
    let x = suc a in
    let halves : bit_xor x b / 2 ≡ bit_xor (x / 2) (b / 2) = omega (arith, bit_xor_step x b) in
    let halves' : bit_xor b c / 2 ≡ bit_xor (b / 2) (c / 2) = omega (arith, bit_xor_step b c) in
    omega (
      arith,
      bit_xor_step (bit_xor x b) c,
      bit_xor_step x (bit_xor b c),
      bit_xor_step x b,
      bit_xor_step b c,
      ap (λ t. bit_xor t (c / 2)) halves,
      ap (λ t. bit_xor (x / 2) t) halves',
      bit_xor-assoc_bound n (x / 2) (b / 2) (c / 2) (omega arith),
    )

pub bit_xor_assoc : (a b c : ℕ) → bit_xor (bit_xor a b) c ≡ bit_xor a (bit_xor b c)
bit_xor_assoc a b c = bit_xor-assoc_bound a a b c (omega arith)

bit_xor-self_bound : (n a : ℕ) → a ≤ n → bit_xor a a ≡ 0
bit_xor-self_bound n zero h = zero-bit_xor 0
bit_xor-self_bound zero (suc a) h = absurd (omega arith)
bit_xor-self_bound (suc n) (suc a) h =
    omega (arith, bit_xor_step (suc a) (suc a), bit_xor-self_bound n (suc a / 2) (omega arith))

pub bit_xor_self : (a : ℕ) → bit_xor a a ≡ 0
bit_xor_self a = bit_xor-self_bound a a (omega arith)

-- The same operand twice cancels.
pub bit_xor-cancel : (a b : ℕ) → bit_xor (bit_xor a b) b ≡ a
bit_xor-cancel a b = bit_xor_assoc a b b ∙ ap (λ t. bit_xor a t) (bit_xor_self b) ∙ bit_xor-zero a

-- Numbers of at most `k` bits have an exclusive or of at most `k` bits.
pub bit_xor-lt : (k a b : ℕ) → a < 2 ^ k → b < 2 ^ k → bit_xor a b < 2 ^ k
bit_xor-lt zero a b h k =
    let ea : a ≡ 0 = omega arith in
    let eb : b ≡ 0 = omega arith in rw (ea, zero-bit_xor b, eb) (omega arith)
bit_xor-lt (suc n) a b h k = omega (
  arith,
  pow-suc 2 n,
  bit_xor_step a b,
  bit_xor-lt n (a / 2) (b / 2) (omega (arith, pow-suc 2 n)) (omega (arith, pow-suc 2 n)),
)

pub bit_or-lt : (k a b : ℕ) → a < 2 ^ k → b < 2 ^ k → bit_or a b < 2 ^ k
bit_or-lt zero a b h k =
    let ea : a ≡ 0 = omega arith in
    let eb : b ≡ 0 = omega arith in rw (ea, zero-bit_or b, eb) (omega arith)
bit_or-lt (suc n) a b h k = omega (
  arith,
  pow-suc 2 n,
  bit_or_step a b,
  bit_or-lt n (a / 2) (b / 2) (omega (arith, pow-suc 2 n)) (omega (arith, pow-suc 2 n)),
)

-- A mask of ones is a remainder.
bit_and-zero_bound : (n a : ℕ) → a ≤ n → bit_and a 0 ≡ 0
bit_and-zero_bound n zero h = zero-bit_and 0
bit_and-zero_bound zero (suc a) h = absurd (omega arith)
bit_and-zero_bound (suc n) (suc a) h =
    omega (arith, bit_and_step (suc a) 0, bit_and-zero_bound n (suc a / 2) (omega arith))

pub bit_and-zero : (a : ℕ) → bit_and a 0 ≡ 0
bit_and-zero a = bit_and-zero_bound a a (omega arith)

pub bit_and_one : (a : ℕ) → bit_and a 1 ≡ a % 2
bit_and_one a = omega (arith, bit_and_step a 1, bit_and-zero (a / 2))

halve_shift_first : (n a : ℕ) → a / 2 ^ suc n ≡ a / 2 / 2 ^ n
halve_shift_first n a = rw pow-succ' (sym (div-div-eq-div-mul a 2 (2 ^ n)))

-- The low `n + 1` bits of a number are its last bit behind the low `n` bits of its half.
pub mod_double : (n a : ℕ) → a % 2 ^ suc n ≡ a / 2 % 2 ^ n * 2 + a % 2
mod_double n a = omega (
  arith,
  mod-add-div (a / 2) (2 ^ n),
  mod-add-div a (2 ^ suc n),
  ap (λ (t : ℕ). 2 ^ suc n * t) (halve_shift_first n a),
  ap (λ (t : ℕ). t * (a / 2 / 2 ^ n)) (pow-suc 2 n),
)

-- A mask of `k` ones is the remainder by `2 ^ k`.
pub bit_and_mask : (k a m : ℕ) → m + 1 ≡ 2 ^ k → bit_and a m ≡ a % 2 ^ k
bit_and_mask zero a m h = let e : m ≡ 0 = omega arith in rw (e, bit_and-zero a) (omega arith)
bit_and_mask (suc n) a m h = omega (
  arith,
  pow-suc 2 n,
  bit_and_step a m,
  mod_double n a,
  bit_and_mask n (a / 2) (m / 2) (omega (arith, pow-suc 2 n)),
)

pub bit_and_ff : (a : ℕ) → bit_and a 0xff ≡ a % 256
bit_and_ff a = bit_and_mask 8 a 0xff (omega arith)

pub double_shift : (n h : ℕ) → h * 2 ^ suc n ≡ 2 * (h * 2 ^ n)
double_shift n h = omega (arith, ap (λ (t : ℕ). h * t) (pow-suc 2 n))

halve_shift : (n a : ℕ) → a / 2 ^ suc n ≡ a / 2 ^ n / 2
halve_shift n a = rw pow-suc (sym (div-div-eq-div-mul a (2 ^ n) 2))

-- `h << k | l` where `l` fits in `k` bits.
pub bit_or-shift : (k h l : ℕ) → l < 2 ^ k → bit_or (h * 2 ^ k) l ≡ h * 2 ^ k + l
bit_or-shift zero h l p = let e : l ≡ 0 = omega arith in rw e (bit_or-zero (h * 1) ∙ omega arith)
bit_or-shift (suc n) h l p =
    let e : h * 2 ^ suc n / 2 ≡ h * 2 ^ n = omega (arith, double_shift n h) in
    omega (
      arith,
      double_shift n h,
      bit_or_step (h * 2 ^ suc n) l,
      ap (λ t. bit_or t (l / 2)) e,
      bit_or-shift n h (l / 2) (omega (arith, pow-suc 2 n)),
    )

-- Exclusive or, half by half, and byte by byte.
pub bit_xor_half : (a b : ℕ) → bit_xor a b / 2 ≡ bit_xor (a / 2) (b / 2)
bit_xor_half a b = omega (arith, bit_xor_step a b)

pub bit_xor_shift : (k a b : ℕ) → bit_xor a b / 2 ^ k ≡ bit_xor (a / 2 ^ k) (b / 2 ^ k)
bit_xor_shift zero a b = rw (div-one (bit_xor a b), div-one a, div-one b)
bit_xor_shift (suc n) a b =
    rw (halve_shift n (bit_xor a b), halve_shift n a, halve_shift n b, bit_xor_shift n a b)
      (bit_xor_half (a / 2 ^ n) (b / 2 ^ n))

pub bit_xor_parts : (k h l : ℕ) → l < 2 ^ k → bit_xor (h * 2 ^ k) l ≡ h * 2 ^ k + l
bit_xor_parts zero h l p = let e : l ≡ 0 = omega arith in rw e (bit_xor-zero (h * 1) ∙ omega arith)
bit_xor_parts (suc n) h l p =
    let e : h * 2 ^ suc n / 2 ≡ h * 2 ^ n = omega (arith, double_shift n h) in
    omega (
      arith,
      double_shift n h,
      bit_xor_step (h * 2 ^ suc n) l,
      ap (λ t. bit_xor t (l / 2)) e,
      bit_xor_parts n h (l / 2) (omega (arith, pow-suc 2 n)),
    )

-- Over a small range, a Boolean check of every value.
unfoldable pub all_below : ℕ → (ℕ → Bool) → Bool
all_below zero test = true
all_below (suc bound) test = test bound && all_below bound test

pub all_below_sound :
    (bound : ℕ) (test : ℕ → Bool) (x : ℕ) → all_below bound test ≡ true → x < bound → test x ≡ true
unfolding all_below
all_below_sound zero test x h below = absurd (omega arith)
all_below_sound (suc bound) test x h below = ground (arith, all_below_sound bound test x)
