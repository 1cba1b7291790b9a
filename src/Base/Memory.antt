-- ===== src/Base/Memory.antt =====
-- Memory as a map from addresses to bytes.
use Prim.Native.Nat.{ℕ}
use mathlib.Core.Path.{◌≡◌}
use mathlib.Core.Logic.{◌≢◌}
use native.Mathlib.Omega.{arith}
use model_lib.Base.Tests.{◌==◌, if◌then◌else◌}

abbrev pub Bytes : Type 0
Bytes = ℕ → ℕ

unfoldable pub update : Bytes → ℕ → ℕ → Bytes
update m a v i = if i == a then v else m i

pub update_at : (m : Bytes) (a v i : ℕ) → i ≡ a → update m a v i ≡ v
unfolding update
update_at m a v i h = ground arith

pub update_off : (m : Bytes) (a v i : ℕ) → i ≢ a → update m a v i ≡ m i
unfolding update
update_off m a v i h = ground arith
