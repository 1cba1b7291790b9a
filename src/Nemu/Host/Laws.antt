-- ===== src/Nemu/Host/Laws.antt =====
-- Loads and stores of little-endian words.
use native.Mathlib.Nat.{one-le-pow}
use native.Mathlib.Numerals.{towards_suc}
use model_lib.Base.{ℕ, zero, suc, ◌+◌, ◌*◌, ◌/◌, ◌%◌, ◌^◌, ◌≤◌, ◌<◌, ◌≡◌, refl, ap, ◌∙◌, ◌⊎◌, arith}
use model_lib.Base.Memory.{Bytes, update}
use model_lib.Nemu.Host.{load_le, store_le}

-- A store leaves what lies below or above it.
pub store_le_frame :
    (n : ℕ) (m : Bytes) (a v i : ℕ) → (i < a) ⊎ (a + n ≤ i) → store_le n m a v i ≡ m i
unfolding store_le update
store_le_frame zero m a v i h = refl
store_le_frame (suc n) m a v i h =
    ground (arith, store_le_frame n (update m a (v % 256)) (a + 1) (v / 256) i)

-- A load sees only its own bytes.
pub load_le_local :
    (n : ℕ) (m m' : Bytes) (a : ℕ)
    → ((i : ℕ) → a ≤ i → i < a + n → m i ≡ m' i)
    → load_le n m a ≡ load_le n m' a
unfolding load_le
load_le_local zero m m' a h = refl
load_le_local (suc n) m m' a h = omega (
  arith,
  h a (omega arith) (omega arith),
  load_le_local n m m' (a + 1) (λ i p q. h i (omega arith) (omega arith)),
)

pub pow_byte : (n : ℕ) → 2 ^ (8 * suc n) ≡ 256 * 2 ^ (8 * n)
pow_byte n = ap (λ (t : ℕ). 2 ^ t) eight ∙ simp towards_suc (omega arith)
  where
    eight : 8 * suc n ≡ 8 * n + 8
    eight = omega arith

mod_byte : (v p : ℕ) → 0 < p → v % 256 + 256 * (v / 256 % p) ≡ v % (256 * p)
mod_byte v p h = grind arith

-- A load after a store of the same length gives the stored number, cut to that length.
pub load_le-store_le :
    (n : ℕ) (m : Bytes) (a v : ℕ) → load_le n (store_le n m a v) a ≡ v % 2 ^ (8 * n)
unfolding load_le store_le update
load_le-store_le zero m a v = omega arith
load_le-store_le (suc n) m a v = ground (
  arith,
  store_le_frame n (update m a (v % 256)) (a + 1) (v / 256) a,
  load_le-store_le n (update m a (v % 256)) (a + 1) (v / 256),
  ap (λ (t : ℕ). v % t) (pow_byte n),
  mod_byte v (2 ^ (8 * n)) (one-le-pow (8 * n) 2 (omega arith)),
)

pub load_le-lt : (n : ℕ) (m : Bytes) (a : ℕ) → ((i : ℕ) → m i < 256) → load_le n m a < 2 ^ (8 * n)
unfolding load_le
load_le-lt zero m a h = omega arith
load_le-lt (suc n) m a h = omega (arith, h a, load_le-lt n m (a + 1) h, pow_byte n)
