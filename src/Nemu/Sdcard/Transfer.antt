-- ===== src/Nemu/Sdcard/Transfer.antt =====
-- Words written to the card and read back through its registers.
use model_lib.Base.{
  ℕ, zero, suc, ◌+◌, ◌*◌, ◌^◌, ◌≤◌, ◌<◌, ◌≡◌, refl, ◌∙◌, inl, Bool, true, false, List, [], ◌∷◌,
  arith, length,
}
use model_lib.Base.Words.{u32, ◌<<<◌}
use model_lib.Base.Memory.{Bytes}
use model_lib.Outcome.{ok, ◌>>=◌}
use model_lib.Nemu.Host.{load_le, store_le}
use model_lib.Nemu.Host.Laws.{load_le-store_le, load_le_local, store_le_frame}
use model_lib.Nemu.Io.{Space, IoMap}
use model_lib.Nemu.Sdcard.{File, Card, write_item, seek}
use model_lib.Nemu.Sdcard.Access.{
  card, IsCard, send, write_words, read_words, put_lem, get_lem, send_lem,
}

abbrev pub AreWords : List ℕ → Type 0
AreWords [] = Unit {0}
AreWords (w ∷ ws) = (w < 2 ^ 32) × AreWords ws

-- The words stand in an array from a place on.
abbrev pub Stored : Bytes → ℕ → List ℕ → Type 0
Stored content p [] = Unit {0}
Stored content p (w ∷ ws) = (load_le 4 content p ≡ w) × Stored content (p + 4) ws

-- The end of the words behind a first one.
reach :
    (n p size size' : ℕ) → p ≤ size → size ≤ size' → (0 < n → p + 4 * n ≤ size') → p + 4 * n ≤ size'
reach zero p size size' h k more = omega arith
reach (suc n) p size size' h k more = more (omega arith)

module _ (m : IoMap Card) (c : IsCard m) where
  -- All of the words, in the file from the position on.
  written :
      (ws : List ℕ) (bytes : Bytes) (f : File) (k b a : ℕ)
      → AreWords ws
      → (bytes' : Bytes) × (f' : File) × (a' : ℕ) × (write_words m ws (card bytes f k b a true)
          ≡ ok (card bytes' f' k b a' true))
        × Stored f'.content f.pos ws
        × ((i : ℕ) → i < f.pos → f'.content i ≡ f.content i)
        × (f.size ≤ f'.size)
        × (0 < length ws → f.pos + 4 * length ws ≤ f'.size)
  unfolding write_item
  written [] bytes f k b a h =
      (bytes, f, a, refl, tt, (λ i p. refl), omega arith, (λ p. absurd (omega arith)))
  written (w ∷ ws) bytes f k b a h =
      let bytes1 = store_le 4 bytes (m.space + 64) w in
      let f1 = write_item bytes1 (m.space + 64) f in
      let r = written ws bytes1 f1 k b (u32 (a + 4)) h.1 in
      let size1 : f.pos + 4 ≤ f1.size = ground arith in
      let size0 : f.size ≤ f1.size = ground arith in
      let given : load_le 4 bytes1 (m.space + 64) ≡ w =
        load_le-store_le 4 bytes (m.space + 64) w ∙ omega (arith, h.0) in
      let there : load_le 4 r.1.content f.pos ≡ w =
        load_le_local 4 r.1.content f1.content f.pos (λ i p q. r.5 i (omega arith))
        ∙ load_le-store_le 4 f.content f.pos (load_le 4 bytes1 (m.space + 64))
        ∙ omega (arith, given, h.0) in
      (
        r.0,
        r.1,
        r.2,
        rw (put_lem m c bytes f k b a w h.0) r.3,
        (there, r.4),
        (λ i p.
            r.5 i (omega arith)
            ∙ store_le_frame 4 f.content f.pos (load_le 4 bytes1 (m.space + 64)) i (inl p)),
        omega (arith, size0, r.6),
        (λ p. omega (arith, reach (length ws) (f.pos + 4) f1.size r.1.size size1 r.6 r.7)),
      )

  read_back :
      (ws : List ℕ) (bytes : Bytes) (f : File) (k b a : ℕ)
      → AreWords ws
      → Stored f.content f.pos ws
      → (0 < length ws → f.pos + 4 * length ws ≤ f.size)
      → (s' : Space Card) × (read_words m (length ws) (card bytes f k b a false) ≡ ok (ws, s'))
  read_back [] bytes f k b a h at fits = (card bytes f k b a false, refl)
  read_back (w ∷ ws) bytes f k b a h at fits =
      let bytes1 = store_le 4 bytes (m.space + 64) w in
      let f1 = record f { pos = f.pos + 4 } in
      let r =
        read_back ws bytes1 f1 k b (u32 (a + 4)) h.1 at.1
          (λ p. omega (arith, fits (omega arith))) in
      (r.0, rw (get_lem m c bytes f k b a w (omega (arith, fits (omega arith))) at.0 h.0, r.1) refl)

  -- Words that are written from a block on, after the command WRITE_MULTIPLE_BLOCK, are read back
  -- after READ_MULTIPLE_BLOCK of the same block, on a card with an image that is not sending its
  -- extended CSD, whatever is in its other registers.
  pub read_words-write_words :
      (ws : List ℕ) (block : ℕ) (bytes : Bytes) (f : File) (k b a : ℕ) (mode : Bool)
      → AreWords ws
      → block < 2 ^ 32
      → (s' : Space Card) × ((do
        s1 ← send m 25 block (card bytes f k b a mode)
        s2 ← write_words m ws s1
        s3 ← send m 18 block s2
        read_words m (length ws) s3)
          ≡ ok (ws, s'))
  read_words-write_words ws block bytes f k b a mode h small =
      let first = send_lem m c bytes f k b a block mode true small in
      let w = written ws first.0 (seek (block <<< 9) f) k block 0 h in
      let second = send_lem m c w.0 w.1 k block w.2 block true false small in
      let r = read_back ws second.0 (seek (block <<< 9) w.1) k block 0 h w.4 w.7 in
      (r.0, rw (first.1, w.3, second.1, r.1) refl)
