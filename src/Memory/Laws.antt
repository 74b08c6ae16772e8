-- ===== src/Memory/Laws.antt =====
-- Reading back what was written, and the frame of a write.
use tutorial_os.Common.{
  ℕ, zero, suc, ◌+◌, ◌*◌, ◌/◌, ◌%◌, ◌^◌, ◌≤◌, ◌<◌, ◌≡◌, ◌≢◌, ◌⊎◌, refl, ◌∙◌, arith,
}
use native.Mathlib.Nat.{pow-suc, mul_comm, div-div-eq-div-mul, div-add-mod}
use tutorial_os.Memory.{
  Memory, load_byte, store_byte, load_bytes, store_bytes, load64, store64, load32, store32,
}

-- `k` bytes from `b` lie apart from `n` bytes from `a`
abbrev pub Apart : ℕ → ℕ → ℕ → ℕ → Type 0
Apart n a k b = (a + n ≤ b) ⊎ (b + k ≤ a)

pub load_byte-store_byte_self : (m : Memory) (a v : ℕ) → load_byte (store_byte m a v) a ≡ v % 256
unfolding load_byte store_byte
load_byte-store_byte_self m a v = ground arith

pub load_byte-store_byte_ne :
    (m : Memory) (a v b : ℕ) → a ≢ b → load_byte (store_byte m a v) b ≡ load_byte m b
unfolding load_byte store_byte
load_byte-store_byte_ne m a v b h = ground arith

pub load_byte-lt : (m : Memory) (a : ℕ) → load_byte m a < 256
unfolding load_byte
load_byte-lt m a = omega arith

pub load_byte-store_bytes :
    (n : ℕ) (m : Memory) (a v b : ℕ)
    → Apart n a 1 b
    → load_byte (store_bytes n m a v) b ≡ load_byte m b
unfolding store_bytes
load_byte-store_bytes zero m a v b h = refl
load_byte-store_bytes (suc n) m a v b h =
    load_byte-store_byte_ne (store_bytes n m (a + 1) (v / 256)) a v b (omega arith)
    ∙ load_byte-store_bytes n m (a + 1) (v / 256) b (omega arith)

-- what a read of `n` bytes depends on
pub load_bytes-cong :
    (n : ℕ) (m g : Memory) (a : ℕ)
    → ((b : ℕ) → a ≤ b → b < a + n → load_byte m b ≡ load_byte g b)
    → load_bytes n m a ≡ load_bytes n g a
unfolding load_bytes
load_bytes-cong zero m g a same = refl
load_bytes-cong (suc n) m g a same = omega (
  arith,
  same a (omega arith) (omega arith),
  load_bytes-cong n m g (a + 1) (λ b p q. same b (omega arith) (omega arith)),
)

pub load_bytes-store_bytes-Apart :
    (n k : ℕ) (m : Memory) (a v b : ℕ)
    → Apart n a k b
    → load_bytes k (store_bytes n m a v) b ≡ load_bytes k m b
load_bytes-store_bytes-Apart n k m a v b h =
    load_bytes-cong k (store_bytes n m a v) m b
      (λ c p q. load_byte-store_bytes n m a v c (omega arith))

mod-pow_suc : (n v : ℕ) → v % 256 ^ suc n ≡ v % 256 + 256 * (v / 256 % 256 ^ n)
mod-pow_suc n v = rw (pow-suc 256 n) (
    grind (
      arith,
      div-div-eq-div-mul v 256 (256 ^ n),
      mul_comm 256 (256 ^ n),
      div-add-mod v (256 ^ n * 256),
      div-add-mod (v / 256) (256 ^ n),
    ))

pub load_bytes-store_bytes_self :
    (n : ℕ) (m : Memory) (a v : ℕ) → load_bytes n (store_bytes n m a v) a ≡ v % 256 ^ n
unfolding load_bytes store_bytes
load_bytes-store_bytes_self zero m a v = omega arith
load_bytes-store_bytes_self (suc n) m a v = omega (
  arith,
  mod-pow_suc n v,
  load_byte-store_byte_self (store_bytes n m (a + 1) (v / 256)) a v,
  load_bytes-store_bytes_self n m (a + 1) (v / 256),
  load_bytes-cong n (store_byte (store_bytes n m (a + 1) (v / 256)) a v)
      (store_bytes n m (a + 1) (v / 256)) (a + 1)
      (λ b p q. load_byte-store_byte_ne (store_bytes n m (a + 1) (v / 256)) a v b (omega arith)),
)

pub load_bytes-lt : (n : ℕ) (m : Memory) (a : ℕ) → load_bytes n m a < 256 ^ n
unfolding load_bytes
load_bytes-lt zero m a = omega arith
load_bytes-lt (suc n) m a =
    omega (arith, pow-suc 256 n, load_byte-lt m a, load_bytes-lt n m (a + 1))

module _ (m : Memory) (a v : ℕ) where
  pub load64-store64_self : v < 2 ^ 64 → load64 (store64 m a v) a ≡ v
  unfolding load64 store64
  load64-store64_self h = omega (arith, load_bytes-store_bytes_self 8 m a v)

  pub load64-store64-Apart : (b : ℕ) → Apart 8 a 8 b → load64 (store64 m a v) b ≡ load64 m b
  unfolding load64 store64
  load64-store64-Apart b h = load_bytes-store_bytes-Apart 8 8 m a v b h

  pub load_byte-store64 : (b : ℕ) → Apart 8 a 1 b → load_byte (store64 m a v) b ≡ load_byte m b
  unfolding store64
  load_byte-store64 b h = load_byte-store_bytes 8 m a v b h

  pub load32-store32_self : v < 2 ^ 32 → load32 (store32 m a v) a ≡ v
  unfolding load32 store32
  load32-store32_self h = omega (arith, load_bytes-store_bytes_self 4 m a v)

  pub load32-store32-Apart : (b : ℕ) → Apart 4 a 4 b → load32 (store32 m a v) b ≡ load32 m b
  unfolding load32 store32
  load32-store32-Apart b h = load_bytes-store_bytes-Apart 4 4 m a v b h

  pub store32-is : store32 m a v ≡ store_bytes 4 m a v
  unfolding store32
  store32-is = refl

  pub load_byte-store32 : (b : ℕ) → Apart 4 a 1 b → load_byte (store32 m a v) b ≡ load_byte m b
  unfolding store32
  load_byte-store32 b h = load_byte-store_bytes 4 m a v b h

pub load32-is : (m : Memory) (a : ℕ) → load32 m a ≡ load_bytes 4 m a
unfolding load32
load32-is m a = refl

pub load64-lt : (m : Memory) (a : ℕ) → load64 m a < 2 ^ 64
unfolding load64
load64-lt m a = omega (arith, load_bytes-lt 8 m a)

pub load32-lt : (m : Memory) (a : ℕ) → load32 m a < 2 ^ 32
unfolding load32
load32-lt m a = omega (arith, load_bytes-lt 4 m a)

pub load64-cong :
    (m g : Memory) (a : ℕ)
    → ((b : ℕ) → a ≤ b → b < a + 8 → load_byte m b ≡ load_byte g b)
    → load64 m a ≡ load64 g a
unfolding load64
load64-cong m g a same = load_bytes-cong 8 m g a same
