-- ===== src/Nemu/Io/Maps.antt =====
-- The table of the regions: an address is in one of them at most.
use model_lib.Base.{
  ℕ, zero, suc, ◌+◌, ◌^◌, ◌≤◌, ◌<◌, ◌≡◌, refl, ap, ◌∙◌, true, false, ◌&&◌, ◌||◌, Option, none, some,
  List, [], ◌∷◌, ◌++◌, arith, leb, if◌then◌else◌, length, get_elem?, length-append,
}
use model_lib.Base.Words.{u32, sub32}
use Prim.Native.String.{String}
use model_lib.Outcome.{ok}
use model_lib.Nemu.Config.{in_pmem, msize, mbase}
use model_lib.Nemu.Io.{
  IoMap, Callback, Skip, map_inside, find_from, find_mapid_by_addr, overlaps, add_mmio_map,
  fetch_mmio_map, difftest_skip_ref,
}

-- The addresses of a new region are not in the memory, if it is not longer than the memory.
outside_pmem :
    (addr len a : ℕ)
    → 0 < len
    → len ≤ msize
    → addr < 2 ^ 32
    → (in_pmem addr || in_pmem (sub32 (u32 (addr + len)) 1)) ≡ false
    → mbase ≤ a
    → a < mbase + msize
    → (leb addr a && leb a (sub32 (u32 (addr + len)) 1)) ≡ false
unfolding in_pmem
outside_pmem addr len a pos small fits h lo hi = ground arith

module _ {D : Type 0} where
  -- How many regions an address is in.
  abbrev pub hits : List (IoMap D) → ℕ → ℕ
  hits [] addr = 0
  hits (m ∷ ms) addr = (if leb m.low addr && leb addr m.high then 1 else 0) + hits ms addr

  -- No address is in two regions, none in the memory, and the regions fit their array.
  pub record IsApart (ms : List (IoMap D)) : Type 0 where
    pub single : (a : ℕ) → hits ms a ≤ 1
    pub outside : (a : ℕ) → mbase ≤ a → a < mbase + msize → hits ms a ≡ 0
    pub room : length ms ≤ 16

  hits-append : (ms ns : List (IoMap D)) (a : ℕ) → hits (ms ++ ns) a ≡ hits ms a + hits ns a
  hits-append [] ns a = omega arith
  hits-append (m ∷ ms) ns a = omega (arith, hits-append ms ns a)

  hits-overlaps :
      (ms : List (IoMap D)) (l r a : ℕ) → overlaps ms l r ≡ false → l ≤ a → a ≤ r → hits ms a ≡ 0
  unfolding overlaps
  hits-overlaps [] l r a h p q = refl
  hits-overlaps (m ∷ ms) l r a h p q = ground (arith, hits-overlaps ms l r a)

  -- What a call that returns has checked.
  pub add_mmio_map-eq-ok :
      (ms ns : List (IoMap D)) (name : String) (addr space len : ℕ) (c : Option (Callback D))
      → add_mmio_map ms name addr space len c ≡ ok ns
      → (length ms < 16)
        × ((in_pmem addr || in_pmem (sub32 (u32 (addr + len)) 1)) ≡ false)
        × (overlaps ms addr (sub32 (u32 (addr + len)) 1) ≡ false)
        × (ns
            ≡ ms
              ++ record {
                name = name;
                low = addr;
                high = sub32 (u32 (addr + len)) 1;
                space = space;
                callback = c;
              }
                ∷ [])
  unfolding add_mmio_map
  add_mmio_map-eq-ok ms ns name addr space len c e = ground arith

  -- add_mmio_map keeps the regions apart from one another and from the memory, if the new one is
  -- not empty and not longer than the memory.
  pub add_mmio_map-IsApart :
      (ms ns : List (IoMap D)) (name : String) (addr space len : ℕ) (c : Option (Callback D))
      → 0 < len
      → len ≤ msize
      → addr < 2 ^ 32
      → IsApart ms
      → add_mmio_map ms name addr space len c ≡ ok ns
      → IsApart ns
  add_mmio_map-IsApart ms ns name addr space len c pos small fits v e =
      let right = sub32 (u32 (addr + len)) 1 in
      let (room, out, apart, new) = add_mmio_map-eq-ok ms ns name addr space len c e in
      let region : IoMap D = record {
        name = name;
        low = addr;
        high = right;
        space = space;
        callback = c;
      } in
      record {
        single = λ a.
            rw (new, hits-append ms (region ∷ []) a)
              (ground (arith, v.single a, hits-overlaps ms addr right a apart));
        outside = λ a lo hi.
            rw (new, hits-append ms (region ∷ []) a)
              (ground (arith, v.outside a lo hi, outside_pmem addr len a pos small fits out lo hi));
        room = rw (new, length-append ms (region ∷ [])) (omega arith);
      }

  hits_pos :
      (ms : List (IoMap D)) (m : IoMap D) (a i : ℕ)
      → get_elem? ms i ≡ some m
      → m.low ≤ a
      → a ≤ m.high
      → 1 ≤ hits ms a
  hits_pos [] m a i g p q = cc
  hits_pos (n ∷ ms) m a zero g p q = ground arith
  hits_pos (n ∷ ms) m a (suc i) g p q = ground (arith, hits_pos ms m a i g p q)

  -- With the regions apart, an address that is in the region of number `i` finds that region.
  find_from-hit :
      (ms : List (IoMap D)) (m : IoMap D) (a i k : ℕ)
      → hits ms a ≤ 1
      → get_elem? ms i ≡ some m
      → m.low ≤ a
      → a ≤ m.high
      → find_from ms a k ≡ some (k + i)
  unfolding find_from map_inside
  find_from-hit [] m a i k h g p q = cc
  find_from-hit (n ∷ ms) m a zero k h g p q = ground arith
  find_from-hit (n ∷ ms) m a (suc i) k h g p q =
      ground (arith, hits_pos ms m a i g p q, find_from-hit ms m a i (k + 1))

  find_from-miss : (ms : List (IoMap D)) (a k : ℕ) → hits ms a ≡ 0 → find_from ms a k ≡ none
  unfolding find_from map_inside
  find_from-miss [] a k h = refl
  find_from-miss (m ∷ ms) a k h = ground (arith, find_from-miss ms a (k + 1))

  -- While the regions are apart, fetch_mmio_map gives for an address of the region of any number
  -- that very region, and asks the difference test to skip the reference for this instruction.
  pub fetch_mmio_map-hit :
      (ms : List (IoMap D)) (m : IoMap D) (a i : ℕ) (s : Skip)
      → IsApart ms
      → get_elem? ms i ≡ some m
      → m.low ≤ a
      → a ≤ m.high
      → fetch_mmio_map ms a s ≡ (some m, record { is_skip_ref = true; skip_dut_nr_inst = 0 })
  unfolding fetch_mmio_map difftest_skip_ref
  fetch_mmio_map-hit ms m a i s v g p q = ground (arith, mapid, g)
    where
      found : find_from ms a 0 ≡ some i
      found = find_from-hit ms m a i 0 (v.single a) g p q ∙ ap some (omega arith)

      mapid :
          find_mapid_by_addr ms a s ≡ (some i, record { is_skip_ref = true; skip_dut_nr_inst = 0 })
      mapid = rw (found, find_mapid_by_addr)

  -- In no region, it finds none and leaves the difference test alone.
  pub fetch_mmio_map-miss :
      (ms : List (IoMap D)) (a : ℕ) (s : Skip) → hits ms a ≡ 0 → fetch_mmio_map ms a s ≡ (none, s)
  unfolding fetch_mmio_map
  fetch_mmio_map-miss ms a s h = ground (arith, mapid)
    where
      mapid : find_mapid_by_addr ms a s ≡ (none, s)
      mapid = rw (find_from-miss ms a 0 h, find_mapid_by_addr)
