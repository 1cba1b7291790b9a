-- ===== src/Klib/Stdlib/Alloc.antt =====
-- abstract-machine/klib/src/stdlib.c: atoi and the allocator, which has no memory to give. A pointer
-- is an address, NULL is 0.
use model_lib.Base.{ℕ, ◌*◌, ◌≡◌, ◌&&◌, List, arith, ◌==◌, ◌!=◌, if◌then◌else◌}
use model_lib.Base.Words.{u32}
use model_lib.Outcome.{Outcome, ok, panic, ◌>>=◌}
use model_lib.Base.Memory.{Bytes}
use model_lib.Klib.Strings.{memset, memcpy}
use model_lib.Klib.Stdlib.{strtol}

abbrev pub atoi : List ℕ → Outcome ℕ
atoi nptr = do (x, p) ← strtol nptr 10; ok x

abbrev pub malloc : ℕ → Outcome ℕ
malloc size = panic

abbrev pub free : ℕ → Bytes → Bytes
free ptr m = m

abbrev pub calloc : ℕ → ℕ → Bytes → Outcome (ℕ × Bytes)
calloc nmemb size m = do
  let size1 = u32 (size * nmemb)
  ret ← malloc size1
  ok (ret, memset m ret 0 size1)

abbrev pub realloc : ℕ → ℕ → Bytes → Outcome (ℕ × Bytes)
realloc ptr size m =
    if ptr == 0
    then (do ret ← malloc size; ok (ret, m))
    else (if size == 0
        then ok (0, free ptr m)
        else (do ret ← malloc size; ok (ret, free ptr (memcpy m ret ptr size))))

-- realloc returns exactly where it is to free a block, with NULL and the memory as it is.
pub realloc_lem :
    (ptr size : ℕ) (m : Bytes)
    → realloc ptr size m ≡ (if ptr != 0 && size == 0 then ok (0, m) else panic)
realloc_lem ptr size m = ground arith
