-- ===== src/QemuDiff/Pieces.antt =====
-- gdb_memcpy_to_qemu sends all bytes, in pieces.
use model_lib.Base.{
  ℕ, zero, suc, ◌+◌, ◌-◌, ◌^◌, ◌≤◌, ◌<◌, ◌≡◌, refl, sym, ap, ◌∙◌, inl, inr, Bool, true, false, some,
  List, [], ◌∷◌, ◌++◌, arith, ltb, ltb→lt, lt→ltb, Bool-cases, length, take,
}
use model_lib.Base.Words.{u32}
use model_lib.Outcome.{ok}
use model_lib.Base.Memory.{Bytes, update}
use model_lib.QemuDiff.{
  Protocol, is_ok, mtu, drop, write_command, gdb_memcpy_to_qemu_small, memcpy_loop,
  gdb_memcpy_to_qemu,
}

-- The bytes of a list, written from `d` on.
abbrev pub store_bytes : ℕ → List ℕ → Bytes → Bytes
store_bytes d [] m = m
store_bytes d (b ∷ bs) m = store_bytes (d + 1) bs (update m d b)

store_bytes-append :
    (d : ℕ) (xs ys : List ℕ) (m : Bytes)
    → store_bytes d (xs ++ ys) m ≡ store_bytes (d + length xs) ys (store_bytes d xs m)
store_bytes-append d [] ys m = ap (λ (t : ℕ). store_bytes t ys m) (omega arith)
store_bytes-append d (x ∷ xs) ys m =
    store_bytes-append (d + 1) xs ys (update m d x)
    ∙ ap (λ (t : ℕ). store_bytes t ys (store_bytes (d + 1) xs (update m d x))) (omega arith)

take-drop : (n : ℕ) (xs : List ℕ) → take n xs ++ drop n xs ≡ xs
take-drop zero xs = refl
take-drop (suc n) [] = refl
take-drop (suc n) (x ∷ xs) = ap (λ (l : List ℕ). x ∷ l) (take-drop n xs)

length-take : (n : ℕ) (xs : List ℕ) → n ≤ length xs → length (take n xs) ≡ n
length-take zero xs h = refl
length-take (suc n) [] h = absurd (omega arith)
length-take (suc n) (x ∷ xs) h = ap suc (length-take n xs (omega arith))

length-drop : (n : ℕ) (xs : List ℕ) → length (drop n xs) ≡ length xs - n
length-drop zero xs = omega arith
length-drop (suc n) [] = omega arith
length-drop (suc n) (x ∷ xs) = length-drop n xs ∙ omega arith

module _ {C : Type 0} (p : Protocol C) (memory : C → Bytes) where
  -- What the code relies on: QEMU answers a command that writes at most 1500 bytes within 32 bits
  -- of addresses with "OK", and does it.
  abbrev pub IsServer : Type 0
  IsServer =
      (d : ℕ) (bs : List ℕ) (c : C)
      → length bs ≤ mtu
      → d + length bs ≤ 2 ^ 32
      → (is_ok (p.exchange (write_command p d bs) c).0 ≡ true)
        × (memory (p.exchange (write_command p d bs) c).1 ≡ store_bytes d bs (memory c))

  small_lem :
      (d : ℕ) (bs : List ℕ) (c : C)
      → IsServer
      → length bs ≤ mtu
      → d + length bs ≤ 2 ^ 32
      → ((gdb_memcpy_to_qemu_small p d bs c).0 ≡ true)
        × (memory (gdb_memcpy_to_qemu_small p d bs c).1 ≡ store_bytes d bs (memory c))
  unfolding gdb_memcpy_to_qemu_small
  small_lem d bs c server short inside = server d bs c short inside

  loop_more :
      (fuel d : ℕ) (src : List ℕ) (c : C)
      → mtu < length src
      → d + length src ≤ 2 ^ 32
      → (gdb_memcpy_to_qemu_small p d (take mtu src) c).0 ≡ true
      → memcpy_loop p (suc fuel) d src true c
        ≡ memcpy_loop p fuel
            (d + mtu)
            (drop mtu src)
            true
            (gdb_memcpy_to_qemu_small p d (take mtu src) c).1
  unfolding memcpy_loop
  loop_more fuel d src c long inside sent =
      let next : u32 (d + mtu) ≡ d + mtu = omega (arith, long, inside) in
      rw (lt→ltb mtu (length src) long, sent, next) refl

  loop_last :
      (fuel d : ℕ) (src : List ℕ) (c : C)
      → length src ≤ mtu
      → memcpy_loop p (suc fuel) d src true c ≡ some (gdb_memcpy_to_qemu_small p d src c)
  unfolding memcpy_loop
  loop_last fuel d src c short =
      let no_more : ltb mtu (length src) ≡ false = ground arith in rw no_more refl

  loop_stores :
      (fuel d : ℕ) (src : List ℕ) (c : C)
      → IsServer
      → length src < fuel
      → d + length src ≤ 2 ^ 32
      → (c' : C) × (memcpy_loop p fuel d src true c ≡ some (true, c'))
        × (memory c' ≡ store_bytes d src (memory c))
  loop_stores zero d src c server enough inside = absurd (omega arith)
  loop_stores (suc fuel) d src c server enough inside = elim (Bool-cases (ltb mtu (length src))) [
    | inl more ↦
        let long = ltb→lt mtu (length src) more in
        let first = length-take mtu src (omega (arith, long)) in
        let rest = length-drop mtu src in
        let (sent, stored) =
          small_lem d (take mtu src) c server (omega (arith, first)) (omega (arith, first, long)) in
        let c1 = (gdb_memcpy_to_qemu_small p d (take mtu src) c).1 in
        let (c', done_, kept) =
          loop_stores fuel (d + mtu) (drop mtu src) c1 server (omega (arith, rest, long))
            (omega (arith, rest, long)) in
        (
          c',
          loop_more fuel d src c long inside sent ∙ done_,
          kept
              ∙ ap (store_bytes (d + mtu) (drop mtu src)) stored
              ∙ ap
                  (λ (t : ℕ).
                    store_bytes (d + t) (drop mtu src) (store_bytes d (take mtu src) (memory c)))
                  (sym first)
              ∙ sym (store_bytes-append d (take mtu src) (drop mtu src) (memory c))
              ∙ ap (λ (l : List ℕ). store_bytes d l (memory c)) (take-drop mtu src),
        )
    | inr last ↦
        let short : length src ≤ mtu = ground arith in
        let (sent, stored) = small_lem d src c server short inside in
        (
          (gdb_memcpy_to_qemu_small p d src c).1,
          loop_last fuel d src c short
              ∙ ap (λ (b : Bool). some (b, (gdb_memcpy_to_qemu_small p d src c).1)) sent,
          stored,
        )
  ]

  -- Where QEMU writes what a command asks for: gdb_memcpy_to_qemu returns, with success, for every
  -- block of fewer than 2 ^ 31 bytes that ends within 32 bits of addresses, and the memory of QEMU
  -- is then as after one write of the whole block.
  pub gdb_memcpy_to_qemu-stores :
      (d : ℕ) (src : List ℕ) (c : C)
      → IsServer
      → length src < 2 ^ 31
      → d + length src ≤ 2 ^ 32
      → (c' : C) × (gdb_memcpy_to_qemu p d src c ≡ ok (some (true, c')))
        × (memory c' ≡ store_bytes d src (memory c))
  unfolding gdb_memcpy_to_qemu
  gdb_memcpy_to_qemu-stores d src c server fits inside =
      let (c', sent, stored) = loop_stores (suc (length src)) d src c server (omega arith) inside in
      (c', rw (lt→ltb (length src) (2 ^ 31) fits, sent) refl, stored)
