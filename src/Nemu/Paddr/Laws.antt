-- ===== src/Nemu/Paddr/Laws.antt =====
-- Reads after writes through the memory of the guest.
use model_lib.Base.{ℕ, ◌+◌, ◌-◌, ◌*◌, ◌%◌, ◌^◌, ◌≤◌, ◌<◌, ◌≡◌, ap, ◌∙◌, ◌⊎◌, true, false, arith}
use model_lib.Outcome.{ok, panic, undefined}
use model_lib.Nemu.Config.{mbase, msize, in_pmem, in_pmem_iff}
use model_lib.Nemu.Host.{host_read, host_write, load_le, store_le, legal_len}
use model_lib.Nemu.Host.Laws.{load_le-store_le, store_le_frame, load_le_local}
use model_lib.Nemu.Io.{map_read, map_write}
use model_lib.Nemu.Io.Maps.{hits, fetch_mmio_map-miss}
use model_lib.Nemu.Paddr.{Mem, paddr_read, paddr_write}

-- An access of a legal length that lies in the memory.
pub record IsInMemory (addr len : ℕ) : Type 0 where
  pub legal : legal_len len ≡ true
  pub above : mbase ≤ addr
  pub below : addr + len ≤ mbase + msize

module _ {D : Type 0} where
  pub paddr_read_pmem :
      (a len : ℕ) (s : Mem D)
      → IsInMemory a len
      → paddr_read a len s ≡ ok (load_le len s.pmem (a - mbase), s)
  unfolding paddr_read host_read
  paddr_read_pmem a len s h = ground (arith, in_pmem_iff a)

  pub paddr_write_pmem :
      (a len v : ℕ) (s : Mem D)
      → IsInMemory a len
      → paddr_write a len v s ≡ ok (record s { pmem = store_le len s.pmem (a - mbase) v })
  unfolding paddr_write host_write
  paddr_write_pmem a len v s h = ground (arith, in_pmem_iff a)

  -- A write of 1, 2 or 4 bytes that lies in the memory returns; a read of the same bytes then
  -- gives the number written, cut to that length, and a read of memory bytes that the write does
  -- not touch gives what it gave before.
  pub paddr_read-paddr_write :
      (a len v b blen : ℕ) (s : Mem D)
      → IsInMemory a len
      → IsInMemory b blen
      → (a + len ≤ b) ⊎ (b + blen ≤ a)
      → (s' : Mem D) × (paddr_write a len v s ≡ ok s')
        × (paddr_read a len s' ≡ ok (v % 2 ^ (8 * len), s'))
        × ((x : ℕ) × (paddr_read b blen s ≡ ok (x, s)) × (paddr_read b blen s' ≡ ok (x, s')))
  paddr_read-paddr_write a len v b blen s ha hb apart = (
    s',
    paddr_write_pmem a len v s ha,
    paddr_read_pmem a len s' ha
        ∙ ap (λ (t : ℕ). ok (t, s')) (load_le-store_le len s.pmem (a - mbase) v),
    (
      load_le blen s.pmem (b - mbase),
      paddr_read_pmem b blen s hb,
      paddr_read_pmem b blen s' hb ∙ ap (λ (t : ℕ). ok (t, s')) untouched,
    ),
  )
    where
      s' : Mem D
      s' = record s { pmem = store_le len s.pmem (a - mbase) v }

      untouched : load_le blen s'.pmem (b - mbase) ≡ load_le blen s.pmem (b - mbase)
      untouched =
          load_le_local blen s'.pmem s.pmem (b - mbase)
            λ i p q. store_le_frame len s.pmem (a - mbase) v i (omega (arith, ha.above, hb.above))

  -- An access at an address that is neither in the memory nor in a region of a device panics,
  -- a read and a write alike, whatever its length.
  pub paddr_unmapped :
      (a len v : ℕ) (s : Mem D)
      → in_pmem a ≡ false
      → hits s.maps a ≡ 0
      → (paddr_read a len s ≡ panic) × (paddr_write a len v s ≡ panic)
  unfolding paddr_read paddr_write map_read map_write
  paddr_unmapped a len v s h m = (
    ground (arith, fetch_mmio_map-miss s.maps a s.skip m),
    ground (arith, fetch_mmio_map-miss s.maps a s.skip m),
  )

  -- The test of paddr_read looks at the first byte alone: an access of several bytes that starts
  -- in the last ones of the memory is let through and leaves the array `pmem`.
  pub paddr_read_past_end :
      (a len : ℕ) (s : Mem D)
      → legal_len len ≡ true
      → mbase ≤ a
      → a < mbase + msize
      → mbase + msize < a + len
      → paddr_read a len s ≡ undefined
  unfolding paddr_read host_read
  paddr_read_past_end a len s l p q r = ground (arith, in_pmem_iff a)
