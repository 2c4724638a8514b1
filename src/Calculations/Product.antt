-- ===== src/Calculations/Product.antt =====
-- The 128-bit sums.
use mathlib.Core.Path.{ap₂}
use bitcoin_iterate.Prelude.{◌∙◌, ℕ, ◌+◌, ◌*◌, ◌/◌, ◌%◌, ◌^◌, ◌≤◌, ◌<◌, ◌≡◌, arith, le→leb, ok}
use bitcoin_iterate.Calculations.{u64_mod, max_u32, mul_and_add}

-- A product of two numbers below 2 ^ 32 leaves room for a carry.
half_product : (x y : ℕ) → x < 2 ^ 32 → y < 2 ^ 32 → x * y ≤ 0xffff_fffe_0000_0001
half_product x y hx hy = grind arith

-- The four half products of `l` and `r`, by weight.
four_products :
    (l_h l_l r_h r_l : ℕ)
    → (l_h * 2 ^ 32 + l_l) * (r_h * 2 ^ 32 + r_l)
      ≡ l_h * r_h * 2 ^ 64 + (l_h * r_l + l_l * r_h) * 2 ^ 32 + l_l * r_l
four_products l_h l_l r_h r_l = omega arith

-- The low product: what it adds to the two low halves.
low_step :
    (b₀ c₀ p : ℕ)
    → b₀ < 2 ^ 32
    → c₀ < 2 ^ 32
    → p ≤ 0xffff_fffe_0000_0001
    → let c₁ = (c₀ + p % u64_mod) % u64_mod in
      let b₁ = (b₀ + c₁ / 2 ^ 32) % u64_mod in
      (b₁ * 2 ^ 32 + c₁ % 2 ^ 32 ≡ b₀ * 2 ^ 32 + c₀ + p) × (b₁ < 2 ^ 33)
low_step b₀ c₀ p hb hc hp = omega arith

-- A middle product.
middle_step :
    (a b p : ℕ)
    → a < 2 ^ 64
    → b < 2 ^ 32
    → p ≤ 0xffff_fffe_0000_0001
    → let b' = (b + p % u64_mod) % u64_mod in
      let a' = (a + b' / 2 ^ 32) % u64_mod in
      (a' * 2 ^ 32 + b' % 2 ^ 32) % 2 ^ 96 ≡ (a * 2 ^ 32 + b + p) % 2 ^ 96
middle_step a b p ha hb hp = omega arith

split_product :
    (l r : ℕ)
    → l * r
      ≡ l / 2 ^ 32 * (r / 2 ^ 32) * 2 ^ 64
        + (l / 2 ^ 32 * (r % 2 ^ 32) + l % 2 ^ 32 * (r / 2 ^ 32)) * 2 ^ 32
        + l % 2 ^ 32 * (r % 2 ^ 32)
split_product l r =
    let el : l ≡ l / 2 ^ 32 * 2 ^ 32 + l % 2 ^ 32 = omega arith in
    let er : r ≡ r / 2 ^ 32 * 2 ^ 32 + r % 2 ^ 32 = omega arith in
    ap₂ ◌*◌ el er ∙ four_products (l / 2 ^ 32) (l % 2 ^ 32) (r / 2 ^ 32) (r % 2 ^ 32)

-- The three carries into the high word, and the high product.
high_steps :
    (a a₁ a₂ a₃ a₄ b₁ b₂ b₄ b₆ q t s : ℕ)
    → (a₁ * 2 ^ 32 + b₂) % 2 ^ 96 ≡ (a * 2 ^ 32 + b₁) % 2 ^ 96
    → (a₂ * 2 ^ 32 + b₄) % 2 ^ 96 ≡ (a₁ * 2 ^ 32 + b₂ + q) % 2 ^ 96
    → (a₃ * 2 ^ 32 + b₆) % 2 ^ 96 ≡ (a₂ * 2 ^ 32 + b₄ + t) % 2 ^ 96
    → a₄ % 2 ^ 64 ≡ (a₃ + s) % 2 ^ 64
    → (a₄ * 2 ^ 32 + b₆) % 2 ^ 96 ≡ (a * 2 ^ 32 + b₁ + (q + t) + s * 2 ^ 32) % 2 ^ 96
high_steps a a₁ a₂ a₃ a₄ b₁ b₂ b₄ b₆ q t s e₁ e₂ e₃ e₄ = omega arith

-- The sum in two words, once each part is known.
two_words :
    (a b₁ b₆ c₂ a₄ m s base p : ℕ)
    → c₂ < 2 ^ 32
    → (a₄ * 2 ^ 32 + b₆) % 2 ^ 96 ≡ (a * 2 ^ 32 + b₁ + m + s * 2 ^ 32) % 2 ^ 96
    → b₁ * 2 ^ 32 + c₂ ≡ base + p
    → (a₄ * 2 ^ 64 + (b₆ * 2 ^ 32 + c₂)) % 2 ^ 128
      ≡ (a * 2 ^ 64 + base + (s * 2 ^ 64 + m * 2 ^ 32 + p)) % 2 ^ 128
two_words a b₁ b₆ c₂ a₄ m s base p hc e₁ e₂ = omega arith

-- `mul_and_add` never fails its assertions, keeps both words below 2 ^ 64, and adds the product
-- of `l` and `r` to the number that the two words stand for, modulo 2 ^ 128.
pub mul_and_add_lem :
    (over base l r : ℕ)
    → over < 2 ^ 64
    → base < 2 ^ 64
    → l < 2 ^ 64
    → r < 2 ^ 64
    → (over' : ℕ) × (base' : ℕ) × (mul_and_add over base l r ≡ ok (over', base'))
      × (over' < 2 ^ 64)
      × (base' < 2 ^ 64)
      × ((over' * 2 ^ 64 + base') % 2 ^ 128 ≡ (over * 2 ^ 64 + base + l * r) % 2 ^ 128)
unfolding mul_and_add
mul_and_add_lem over base l r ho hb hl hr =
    let l_h = l / 2 ^ 32 in
    let r_h = r / 2 ^ 32 in
    let l_l = l % 2 ^ 32 in
    let r_l = r % 2 ^ 32 in
    let p = l_l * r_l in
    let q = l_h * r_l in
    let t = l_l * r_h in
    let s = l_h * r_h in
    let hp : p ≤ 0xffff_fffe_0000_0001 = half_product l_l r_l (omega arith) (omega arith) in
    let hq : q ≤ 0xffff_fffe_0000_0001 = half_product l_h r_l (omega arith) (omega arith) in
    let ht : t ≤ 0xffff_fffe_0000_0001 = half_product l_l r_h (omega arith) (omega arith) in
    let b₀ = base / 2 ^ 32 in
    let c₀ = base % 2 ^ 32 in
    let c₁ = (c₀ + p % u64_mod) % u64_mod in
    let b₁ = (b₀ + c₁ / 2 ^ 32) % u64_mod in
    let c₂ = c₁ % 2 ^ 32 in
    let a₁ = (over + b₁ / 2 ^ 32) % u64_mod in
    let b₂ = b₁ % 2 ^ 32 in
    let b₃ = (b₂ + q % u64_mod) % u64_mod in
    let a₂ = (a₁ + b₃ / 2 ^ 32) % u64_mod in
    let b₄ = b₃ % 2 ^ 32 in
    let b₅ = (b₄ + t % u64_mod) % u64_mod in
    let a₃ = (a₂ + b₅ / 2 ^ 32) % u64_mod in
    let b₆ = b₅ % 2 ^ 32 in
    let a₄ = (a₃ + s % u64_mod) % u64_mod in
    let (low, _) = low_step b₀ c₀ p (omega arith) (omega arith) hp in
    let e₂ = middle_step a₁ b₂ q (omega arith) (omega arith) hq in
    let e₃ = middle_step a₂ b₄ t (omega arith) (omega arith) ht in
    let high = high_steps over a₁ a₂ a₃ a₄ b₁ b₂ b₄ b₆ q t s (omega arith) e₂ e₃ (omega arith) in
    let sum = two_words over b₁ b₆ c₂ a₄ (q + t) s base p (omega arith) high (omega (arith, low)) in
    let product : l * r ≡ s * 2 ^ 64 + (q + t) * 2 ^ 32 + p = split_product l r in
    (
      a₄,
      b₆ * 2 ^ 32 + c₂,
      rw (le→leb b₀ max_u32 (omega arith), le→leb c₀ max_u32 (omega arith)),
      omega arith,
      omega arith,
      rw product sum,
    )
