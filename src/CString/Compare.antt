-- ===== src/CString/Compare.antt =====
-- memcmp, strcmp and strncmp: zero exactly on equal contents, otherwise the difference of the first
-- bytes that differ.
use tutorial_os.Common.{
  ℕ, zero, suc, ◌+◌, ◌<◌, min, ◌≡◌, ◌≢◌, inl, inr, ◌↔◌, refl, ◌∙◌, ap, ℤ, pos, sub_ℕ, some,
  Bool-cases, ◌==◌, arith, ==→eq, ==_false→ne,
}
use tutorial_os.Memory.{Memory, load_byte}
use tutorial_os.CString.{memcmp, strcmp, strncmp}

-- the `n` bytes from `p` are those from `q`
abbrev pub SameBytes : Memory → ℕ → ℕ → ℕ → Type 0
SameBytes m p q n = (i : ℕ) → i < n → load_byte m (p + i) ≡ load_byte m (q + i)

-- a NUL-terminated text of `n` characters stands at `s`
pub record IsText (m : Memory) (s n : ℕ) : Type 0 where
  pub chars : (i : ℕ) → i < n → load_byte m (s + i) ≢ 0
  pub ends : load_byte m (s + n) ≡ 0

pub shift : (m : Memory) (s i : ℕ) → load_byte m (s + 1 + i) ≡ load_byte m (s + suc i)
shift m s i = ap (load_byte m) (omega arith)

pub at_zero : (m : Memory) (s : ℕ) → load_byte m (s + 0) ≡ load_byte m s
at_zero m s = ap (load_byte m) (omega arith)

SameBytes-suc :
    (m : Memory) (p q n : ℕ)
    → load_byte m p ≡ load_byte m q
    → SameBytes m (p + 1) (q + 1) n
    → SameBytes m p q (suc n)
SameBytes-suc m p q n e h zero k = at_zero m p ∙ e ∙ ground (arith, at_zero m q)
SameBytes-suc m p q n e h (suc i) k = ground (arith, shift m p i, shift m q i, h i (omega arith))

SameBytes-tail : (m : Memory) (p q n : ℕ) → SameBytes m p q (suc n) → SameBytes m (p + 1) (q + 1) n
SameBytes-tail m p q n h i k = ground (arith, shift m p i, shift m q i, h (suc i) (omega arith))

SameBytes-head : (m : Memory) (p q n : ℕ) → SameBytes m p q (suc n) → load_byte m p ≡ load_byte m q
SameBytes-head m p q n h = ground (arith, at_zero m p, at_zero m q, h 0 (omega arith))

pub sub_ℕ-zero_iff : (a b : ℕ) → (sub_ℕ a b ≡ pos 0) ↔ (a ≡ b)
sub_ℕ-zero_iff a b = (λ h. ground arith, λ h. ground arith)

memcmp-zero→ : (n : ℕ) (m : Memory) (p q : ℕ) → memcmp n m p q ≡ pos 0 → SameBytes m p q n
unfolding memcmp
memcmp-zero→ zero m p q h = λ i k. absurd (omega arith)
memcmp-zero→ (suc n) m p q h =
    SameBytes-suc m p q n (ground arith) (memcmp-zero→ n m (p + 1) (q + 1) (ground arith))

SameBytes→memcmp : (n : ℕ) (m : Memory) (p q : ℕ) → SameBytes m p q n → memcmp n m p q ≡ pos 0
unfolding memcmp
SameBytes→memcmp zero m p q h = refl
SameBytes→memcmp (suc n) m p q h = ground (
  arith,
  SameBytes-head m p q n h,
  SameBytes→memcmp n m (p + 1) (q + 1) (SameBytes-tail m p q n h),
)

-- Where the regions agree up to an index and differ there, memcmp is the difference of the two bytes
-- at this index, so its sign orders the regions.
pub memcmp-first_difference :
    (n : ℕ) (m : Memory) (p q i : ℕ)
    → i < n
    → SameBytes m p q i
    → load_byte m (p + i) ≢ load_byte m (q + i)
    → memcmp n m p q ≡ sub_ℕ (load_byte m (p + i)) (load_byte m (q + i))
unfolding memcmp
memcmp-first_difference zero m p q i k same ne = absurd (omega arith)
memcmp-first_difference (suc n) m p q zero k same ne = ground (arith, at_zero m p, at_zero m q)
memcmp-first_difference (suc n) m p q (suc i) k same ne = ground (
  arith,
  shift m p i,
  shift m q i,
  SameBytes-head m p q i same,
  memcmp-first_difference n m (p + 1) (q + 1) i (omega arith) (SameBytes-tail m p q i same)
      (λ e. ne (ground (arith, shift m p i, shift m q i))),
)

-- memcmp is zero exactly when the two regions hold the same bytes.
pub memcmp_lem : (n : ℕ) (m : Memory) (p q : ℕ) → (memcmp n m p q ≡ pos 0) ↔ SameBytes m p q n
memcmp_lem n m p q = (memcmp-zero→ n m p q, SameBytes→memcmp n m p q)

pub IsText-tail : (m : Memory) (s n : ℕ) → IsText m s (suc n) → IsText m (s + 1) n
IsText-tail m s n t = record {
  chars = λ i k. ground (arith, shift m s i, t.chars (suc i) (omega arith));
  ends = ground (arith, shift m s n, t.ends);
}

pub IsText-head : (m : Memory) (s n : ℕ) → IsText m s (suc n) → load_byte m s ≢ 0
IsText-head m s n t = ground (arith, at_zero m s, t.chars 0 (omega arith))

pub IsText-empty : (m : Memory) (s : ℕ) → IsText m s 0 → load_byte m s ≡ 0
IsText-empty m s t = ground (arith, at_zero m s, t.ends)

-- Both texts are read at most up to the first one's NUL: with fuel for that many characters strcmp
-- returns, and its result is zero exactly when the two texts agree, the NUL included.
pub strcmp_lem :
    (fuel : ℕ) (m : Memory) (s1 s2 n : ℕ)
    → IsText m s1 n
    → n < fuel
    → (z : ℤ) × (strcmp fuel m s1 s2 ≡ some z) × ((z ≡ pos 0) ↔ SameBytes m s1 s2 (suc n))
unfolding strcmp
strcmp_lem zero m s1 s2 n t k = absurd (omega arith)
strcmp_lem (suc fuel) m s1 s2 zero t k = (
  sub_ℕ (load_byte m s1) (load_byte m s2),
  ground (arith, IsText-empty m s1 t),
  (
    λ h. SameBytes-suc m s1 s2 0 (ground arith) (λ i p. absurd (omega arith)),
    λ h. ground (arith, SameBytes-head m s1 s2 0 h),
  ),
)
strcmp_lem (suc fuel) m s1 s2 (suc n) t k = elim (Bool-cases (load_byte m s1 == load_byte m s2)) [
  | inl same ↦
      let (z, runs, zero_iff) =
        strcmp_lem fuel m (s1 + 1) (s2 + 1) n (IsText-tail m s1 n t) (omega arith) in
      (
        z,
        ground (arith, IsText-head m s1 n t),
        (
          λ h. SameBytes-suc m s1 s2 (suc n) (==→eq _ _ same) (zero_iff.0 h),
          λ h. zero_iff.1 (SameBytes-tail m s1 s2 (suc n) h),
        ),
      )
  | inr differ ↦ (
    sub_ℕ (load_byte m s1) (load_byte m s2),
    ground arith,
    (
      λ h. absurd (==_false→ne _ _ differ (ground arith)),
      λ h. absurd (==_false→ne _ _ differ (SameBytes-head m s1 s2 (suc n) h)),
    ),
  )
]

strncmp_reach :
    (n : ℕ) (m : Memory) (s1 s2 len k : ℕ)
    → IsText m s1 len
    → k ≡ min n (suc len)
    → (strncmp n m s1 s2 ≡ pos 0) ↔ SameBytes m s1 s2 k
unfolding strncmp
strncmp_reach zero m s1 s2 len k t e = (λ h i p. absurd (omega arith), λ h. refl)
strncmp_reach (suc n) m s1 s2 len zero t e = absurd (omega arith)
strncmp_reach (suc n) m s1 s2 zero (suc k) t e = (
  λ h. SameBytes-suc m s1 s2 k (ground (arith, IsText-empty m s1 t)) (λ i p. absurd (omega arith)),
  λ h. ground (arith, IsText-empty m s1 t, SameBytes-head m s1 s2 k h),
)
strncmp_reach (suc n) m s1 s2 (suc len) (suc k) t e =
    let rest = strncmp_reach n m (s1 + 1) (s2 + 1) len k (IsText-tail m s1 len t) (omega arith) in
    elim (Bool-cases (load_byte m s1 == load_byte m s2)) [
      | inl same ↦ (
        λ h.
            SameBytes-suc m s1 s2 k (==→eq _ _ same)
              (rest.0 (ground (arith, IsText-head m s1 len t))),
        λ h. ground (arith, IsText-head m s1 len t, rest.1 (SameBytes-tail m s1 s2 k h)),
      )
      | inr differ ↦ (
        λ h. absurd (==_false→ne _ _ differ (ground arith)),
        λ h. absurd (==_false→ne _ _ differ (SameBytes-head m s1 s2 k h)),
      )
    ]

-- strncmp is zero exactly when the texts agree on the first `n` bytes, or up to and including the
-- first one's NUL where that comes earlier; no later byte matters.
pub strncmp_lem :
    (n : ℕ) (m : Memory) (s1 s2 len : ℕ)
    → IsText m s1 len
    → (strncmp n m s1 s2 ≡ pos 0) ↔ SameBytes m s1 s2 (min n (suc len))
strncmp_lem n m s1 s2 len t = strncmp_reach n m s1 s2 len (min n (suc len)) t refl
