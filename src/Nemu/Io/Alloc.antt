-- ===== src/Nemu/Io/Alloc.antt =====
-- new_space hands out the space of the devices page by page.
use model_lib.Base.{ℕ, ◌+◌, ◌-◌, ◌*◌, ◌/◌, ◌%◌, ◌^◌, ◌≤◌, ◌<◌, bit_and, ◌≡◌, arith}
use model_lib.Base.Bits.{bit_and_high}
use model_lib.Outcome.{ok}
use model_lib.Nemu.Config.{io_space_max}
use model_lib.Nemu.Io.{new_space}

page_mask : (x : ℕ) → x < 2 ^ 64 → bit_and x (2 ^ 64 - 1 - (4096 - 1)) ≡ x / 4096 * 4096
page_mask x h = omega (arith, bit_and_high 12 52 x)

-- From a page boundary, a call that returns gives a space that starts there, holds the size asked
-- for, ends at a page boundary before the end of `io_space`, and takes less than one page more
-- than was asked for.
pub new_space_lem :
    (p size q r : ℕ)
    → p % 4096 ≡ 0
    → size < 2 ^ 31
    → new_space p size ≡ ok (q, r)
    → (q ≡ p) × (p + size ≤ r) × (r < p + size + 4096) × (r % 4096 ≡ 0) × (r < io_space_max)
unfolding new_space
new_space_lem p size q r al h e = ground (arith, page_mask (size + 4095))
