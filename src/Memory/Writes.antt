-- ===== src/Memory/Writes.antt =====
-- The footprint of a sequence of 64-bit stores: which bytes may differ afterwards.
use tutorial_os.Common.{
  ℕ, zero, suc, ◌+◌, ◌/◌, ◌%◌, ◌≤◌, ◌<◌, ◌≡◌, ◌≢◌, inl, inr, refl, sym, ◌∙◌, List, [], ◌∷◌, ◌++◌,
  arith, dec_lt, ℕ_discrete,
}
use tutorial_os.Memory.{Memory, load_byte, load_bytes, store_bytes, load64, store64}
use tutorial_os.Memory.Laws.{
  Apart, load_byte-store64, load_bytes-cong, load_byte-store_byte_self, load_byte-store_byte_ne,
  load_byte-lt,
}

-- `k` bytes from `c` lie apart from each of the words at `ws`
abbrev pub Outside : List ℕ → ℕ → ℕ → Type 0
Outside [] k c = Unit {0}
Outside (w ∷ ws) k c = Apart 8 w k c × Outside ws k c

-- `m'` differs from `m` at most in the words at `ws`
pub record Writes (m : Memory) (ws : List ℕ) (m' : Memory) : Type 0 where
  pub same : (c : ℕ) → Outside ws 1 c → load_byte m' c ≡ load_byte m c

Outside-byte : (ws : List ℕ) (b c : ℕ) → Outside ws 8 b → b ≤ c → c < b + 8 → Outside ws 1 c
Outside-byte [] b c o p q = tt
Outside-byte (w ∷ ws) b c o p q = (omega arith, Outside-byte ws b c o.1 p q)

pub Outside-left : (ws vs : List ℕ) (k c : ℕ) → Outside (ws ++ vs) k c → Outside ws k c
Outside-left [] vs k c o = tt
Outside-left (w ∷ ws) vs k c o = (o.0, Outside-left ws vs k c o.1)

pub Outside-right : (ws vs : List ℕ) (k c : ℕ) → Outside (ws ++ vs) k c → Outside vs k c
Outside-right [] vs k c o = o
Outside-right (w ∷ ws) vs k c o = Outside-right ws vs k c o.1

pub Writes-load64 :
    {m m' : Memory} {ws : List ℕ} (b : ℕ)
    → Writes m ws m'
    → Outside ws 8 b
    → load64 m' b ≡ load64 m b
unfolding load64
Writes-load64 {m} {m'} {ws} b h o =
    load_bytes-cong 8 m' m b (λ c p q. h.same c (Outside-byte ws b c o p q))

pub Writes-refl : (m : Memory) → Writes m [] m
Writes-refl m = record { same = λ c o. refl }

pub Writes-store64 : (m : Memory) (a v : ℕ) → Writes m (a ∷ []) (store64 m a v)
Writes-store64 m a v = record { same = λ c o. load_byte-store64 m a v c o.0 }

pub Writes-trans :
    {m n k : Memory} {ws vs : List ℕ} → Writes m ws n → Writes n vs k → Writes m (ws ++ vs) k
Writes-trans {ws} {vs} h g = record {
  same = λ c o. g.same c (Outside-right ws vs 1 c o) ∙ h.same c (Outside-left ws vs 1 c o);
}

pub Writes-weaken :
    {m n : Memory} {ws : List ℕ} (vs : List ℕ)
    → Writes m ws n
    → ((c : ℕ) → Outside vs 1 c → Outside ws 1 c)
    → Writes m vs n
Writes-weaken vs h more = record { same = λ c o. h.same c (more c o) }

-- one more store
pub Writes-then :
    {m n : Memory} {ws : List ℕ} (a v : ℕ) → Writes m ws n → Writes m (a ∷ ws) (store64 n a v)
Writes-then {n} a v h = record { same = λ c o. load_byte-store64 n a v c o.0 ∙ h.same c o.1 }

-- distinct aligned words lie apart
pub Apart-aligned : (a b : ℕ) → a % 8 ≡ 0 → b % 8 ≡ 0 → a ≢ b → Apart 8 a 8 b
Apart-aligned a b p q ne = elim (dec_lt a b) [
  | yes below ↦ inl (omega arith)
  | no above ↦ inr (omega arith)
]

store_bytes_same :
    (n : ℕ) (m : Memory) (a v c : ℕ)
    → v ≡ load_bytes n m a
    → load_byte (store_bytes n m a v) c ≡ load_byte m c
unfolding store_bytes load_bytes
store_bytes_same zero m a v c e = refl
store_bytes_same (suc n) m a v c e = elim (ℕ_discrete a c) [
  | yes here ↦ rw (← here) (
      load_byte-store_byte_self (store_bytes n m (a + 1) (v / 256)) a v
      ∙ omega (arith, load_byte-lt m a))
  | no ne ↦
      load_byte-store_byte_ne (store_bytes n m (a + 1) (v / 256)) a v c ne
      ∙ store_bytes_same n m (a + 1) (v / 256) c (omega (arith, load_byte-lt m a))
]

-- Storing the word that stands there changes nothing.
pub Writes-same : (m : Memory) (a v : ℕ) → load64 m a ≡ v → Writes m [] (store64 m a v)
unfolding load64 store64
Writes-same m a v e = record { same = λ c o. store_bytes_same 8 m a v c (sym e) }
