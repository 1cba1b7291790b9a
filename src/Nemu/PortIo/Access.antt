-- ===== src/Nemu/PortIo/Access.antt =====
-- A port finds the region that was added for it.
use model_lib.Base.{
  ℕ, ◌+◌, ◌^◌, ◌≤◌, ◌<◌, ◌≡◌, refl, sym, ap, ◌∙◌, inl, inr, true, Option, none, some, List, [], ◌∷◌,
  ◌++◌, arith, ltb, leb, lt→ltb, Bool-cases, length, get_elem?,
}
use model_lib.Base.Words.{u32, sub32}
use Prim.Native.String.{String}
use model_lib.Outcome.{ok, ◌>>=◌, check, >>=-eq-ok}
use model_lib.Nemu.Config.{nr_map_max}
use model_lib.Nemu.Io.{
  Space, IoMap, Callback, Skip, difftest_skip_ref, map_inside, find_from, find_mapid_by_addr,
  map_read, map_write,
}
use model_lib.Nemu.PortIo.{port_io_space_max, add_pio_map, find_port, pio_read, pio_write}

zero_add : (n : ℕ) → 0 + n ≡ n
zero_add n = omega arith

module _ {D : Type 0} where
  find_from-append :
      (ms : List (IoMap D)) (m : IoMap D) (p i : ℕ)
      → find_from ms p i ≡ none
      → map_inside m p ≡ true
      → find_from (ms ++ m ∷ []) p i ≡ some (i + length ms)
  unfolding find_from
  find_from-append [] m p i free inside = rw inside (ap some (omega arith))
  find_from-append (x ∷ xs) m p i free inside = elim (Bool-cases (map_inside x p)) [
    | inl e ↦ ground (arith, e)
    | inr e ↦ rw e (find_from-append xs m p (i + 1) (rw e at free) inside ∙ ap some (omega arith))
  ]

  get_elem?-append :
      (ms : List (IoMap D)) (m : IoMap D) → get_elem? (ms ++ m ∷ []) (length ms) ≡ some m
  get_elem?-append [] m = refl
  get_elem?-append (x ∷ xs) m = get_elem?-append xs m

  ok_value : {a b : List (IoMap D)} → ok a ≡ ok b → a ≡ b
  ok_value e = cc

  -- The region that add_pio_map makes.
  abbrev pub region : String → ℕ → ℕ → ℕ → Option (Callback D) → IoMap D
  region name addr space len callback = record {
    name = name;
    low = addr;
    high = sub32 (u32 (addr + len)) 1;
    space = space;
    callback = callback;
  }

  module _ (ms ms' : List (IoMap D)) (name : String) (addr space len : ℕ)
      (callback : Option (Callback D)) (p n : ℕ) (skip : Skip)
      (added : add_pio_map ms name addr space len callback ≡ ok ms') (above : addr ≤ p)
      (below : p < addr + len) (word : addr + len < 2 ^ 32) (room : p + n ≤ port_io_space_max)
      (free : find_from ms p 0 ≡ none) where
    map_inside-region : map_inside (region name addr space len callback) p ≡ true
    unfolding map_inside
    map_inside-region = ground arith

    find_mapid_lem :
        (m : IoMap D)
        → map_inside m p ≡ true
        → find_mapid_by_addr (ms ++ m ∷ []) p skip ≡ (some (length ms), difftest_skip_ref skip)
    unfolding find_mapid_by_addr
    find_mapid_lem m inside =
        rw (find_mapid_by_addr, find_from-append ms m p 0 free inside, zero_add (length ms)) refl

    find_port-add_pio_map :
        find_port ms' p n skip
        ≡ ok (some (region name addr space len callback), difftest_skip_ref skip)
    unfolding find_port add_pio_map
    find_port-add_pio_map =
        let m = region name addr space len callback in
        let (one, few, rest) = >>=-eq-ok (check (ltb (length ms) nr_map_max)) _ added in
        let (two, fits, same) =
          >>=-eq-ok (check (leb (u32 (addr + len)) port_io_space_max)) _ rest in
        let made : ms' ≡ ms ++ m ∷ [] = ok_value (sym same) in
        let bound : ltb (p + n) (port_io_space_max + 1) ≡ true = lt→ltb _ _ (omega arith) in
        let inside : map_inside m p ≡ true = map_inside-region in
        ap (λ (l : List (IoMap D)). find_port l p n skip) made
        ∙ rw (bound, find_mapid_lem m inside, get_elem?-append ms m)
            (ap (λ (r : Option ℕ × Skip). ok (some m, r.1)) (find_mapid_lem m inside))

    -- A port of a region that add_pio_map has added, and of none before it, is read and written
    -- through that region, and the reference of the difference test skips the instruction.
    pub pio-add_pio_map :
        (v : ℕ) (s : Space D)
        → (pio_read ms' p n skip s ≡ (
            map_read p n (some (region name addr space len callback)) s >>= λ r.
            ok (r.0, difftest_skip_ref skip, r.1)))
          × (pio_write ms' p n v skip s ≡ (
              map_write p n v (some (region name addr space len callback)) s >>= λ s1.
              ok (difftest_skip_ref skip, s1)))
    unfolding pio_read pio_write
    pio-add_pio_map v s = (rw find_port-add_pio_map refl, rw find_port-add_pio_map refl)
