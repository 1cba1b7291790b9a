-- ===== src/Klib/Stdio/Printf.antt =====
-- What printf and snprintf do with the text of a format.
use model_lib.Base.{
  ℕ, suc, ◌+◌, ◌-◌, ◌^◌, ◌≤◌, ◌<◌, min, ◌≡◌, refl, sym, ap, ◌∙◌, true, false, ◌&&◌, List, [], ◌∷◌,
  ◌++◌, arith, ltb, leb, ◌==◌, ◌!=◌, if◌then◌else◌, length, get_or,
}
use model_lib.Base.Words.{u32}
use model_lib.Outcome.{Outcome, ok, ◌>>=◌}
use model_lib.Base.Memory.{Bytes, update}
use model_lib.Klib.Stdio.{Output, emit, emit_string, Arg}
use model_lib.Klib.Stdio.Format.{terminate, format, vprintf, vsnprintf}
use model_lib.Klib.Stdio.Text.{format_text, format_from-format_text}

-- What emitting does not change.
emit_string-keeps :
    (t : List ℕ) (out : Output)
    → ((emit_string t out).console ≡ out.console)
      × ((emit_string t out).size ≡ out.size)
      × ((emit_string t out).buffer ≡ out.buffer)
      × ((emit_string t out).count
          ≡ (if length t == 0 then out.count else u32 (out.count + length t)))
unfolding emit_string emit
emit_string-keeps [] out = (refl, refl, refl, refl)
emit_string-keeps (c ∷ t) out =
    let (a, b, d, e) = emit_string-keeps t (emit c out) in
    (ground (arith, a), ground (arith, b), ground (arith, d), ground (arith, e))

emit-keeps :
    (c : ℕ) (out : Output)
    → ((emit c out).console ≡ out.console)
      × ((emit c out).size ≡ out.size)
      × ((emit c out).buffer ≡ out.buffer)
      × ((emit c out).count ≡ u32 (out.count + 1))
unfolding emit
emit-keeps c out = (ground arith, ground arith, ground arith, ground arith)

emit-console :
    (c : ℕ) (out : Output)
    → out.console ≡ true
    → ((emit c out).printed ≡ out.printed ++ (c ∷ [])) × ((emit c out).mem ≡ out.mem)
unfolding emit
emit-console c out h = (rw h refl, rw h refl)

emit-buffer :
    (c : ℕ) (out : Output) (j : ℕ)
    → out.console ≡ false
    → out.count + 1 < 2 ^ 32
    → out.buffer + out.size ≤ 2 ^ 32
    → ((emit c out).printed ≡ out.printed)
      × ((emit c out).mem j ≡ (
          if ltb (out.count + 1) out.size && (j == out.buffer + out.count) then c else out.mem j))
unfolding emit update
emit-buffer c out j h fits room = (ground arith, ground arith)

append-cons : (xs : List ℕ) (c : ℕ) (t : List ℕ) → (xs ++ (c ∷ [])) ++ t ≡ xs ++ (c ∷ t)
append-cons [] c t = refl
append-cons (x ∷ xs) c t = ap (λ (l : List ℕ). x ∷ l) (append-cons xs c t)

append-nil : (xs : List ℕ) → xs ++ [] ≡ xs
append-nil [] = refl
append-nil (x ∷ xs) = ap (λ (l : List ℕ). x ∷ l) (append-nil xs)

emit_string-console :
    (t : List ℕ) (out : Output)
    → out.console ≡ true
    → ((emit_string t out).printed ≡ out.printed ++ t) × ((emit_string t out).mem ≡ out.mem)
unfolding emit_string emit
emit_string-console [] out h = (sym (append-nil out.printed), refl)
emit_string-console (c ∷ t) out h =
    let (keeps, _, _, _) = emit-keeps c out in
    let (shown, same) = emit-console c out h in
    let (a, b) = emit_string-console t (emit c out) (keeps ∙ h) in
    (a ∙ ap (λ (l : List ℕ). l ++ t) shown ∙ append-cons out.printed c t, b ∙ same)

-- The bytes that the first character and the others fill.
window :
    (buf buf1 cnt cnt1 size size1 n j c g0 g1 old byte final : ℕ)
    → cnt1 ≡ cnt + 1
    → size1 ≡ size
    → buf1 ≡ buf
    → final
      ≡ (if leb (buf1 + cnt1) j && ltb j (buf1 + min (cnt1 + n) (size1 - 1)) then g1 else byte)
    → byte ≡ (if ltb (cnt + 1) size && (j == buf + cnt) then c else old)
    → (j ≡ buf + cnt → g0 ≡ c)
    → (buf + cnt < j → g0 ≡ g1)
    → final ≡ (if leb (buf + cnt) j && ltb j (buf + min (cnt + suc n) (size - 1)) then g0 else old)
window buf buf1 cnt cnt1 size size1 n j c g0 g1 old byte final h1 h2 h3 f b first later =
    ground arith

-- A buffer of `size` bytes keeps one for the NUL.
emit_string-buffer :
    (t : List ℕ) (out : Output) (j : ℕ)
    → out.console ≡ false
    → out.count + length t < 2 ^ 32
    → out.size < 2 ^ 32
    → out.buffer + out.size ≤ 2 ^ 32
    → ((emit_string t out).printed ≡ out.printed)
      × ((emit_string t out).mem j ≡ (
          if leb (out.buffer + out.count) j
            && ltb j (out.buffer + min (out.count + length t) (out.size - 1))
          then get_or t (j - (out.buffer + out.count)) 0
          else out.mem j))
unfolding emit_string emit
emit_string-buffer [] out j h fits small room = (refl, ground arith)
emit_string-buffer (c ∷ t) out j h fits small room =
    let (console, size, buffer, count) = emit-keeps c out in
    let (printed, byte) = emit-buffer c out j h (omega arith) room in
    let count1 : (emit c out).count ≡ out.count + 1 = omega (arith, count) in
    let (a, b) =
      emit_string-buffer t (emit c out) j (console ∙ h) (omega (arith, count1))
        (omega (arith, size)) (omega (arith, size, buffer)) in
    let first : j ≡ out.buffer + out.count → get_or (c ∷ t) (j - (out.buffer + out.count)) 0 ≡ c =
      λ e.
        ap (λ (k : ℕ). get_or (c ∷ t) k 0) {x = j - (out.buffer + out.count)} {y = 0}
          (omega arith) in
    let later : out.buffer + out.count < j
        → get_or (c ∷ t) (j - (out.buffer + out.count)) 0
          ≡ get_or t (j - ((emit c out).buffer + (emit c out).count)) 0 =
      λ k.
        ap (λ (k : ℕ). get_or (c ∷ t) k 0) {x = j - (out.buffer + out.count)}
          {y = suc (j - ((emit c out).buffer + (emit c out).count))}
          (omega (arith, count1, buffer)) in
    (a ∙ printed, window _ _ _ _ _ _ (length t) j c _ _ _ _ _ count1 size buffer b byte first later)

-- The output functions start to count from 0.
emit_string-count :
    (t : List ℕ) (out : Output)
    → out.count ≡ 0
    → length t < 2 ^ 32
    → (emit_string t out).count ≡ length t
emit_string-count t out zero_count small = ground (arith, (emit_string-keeps t out).3)

format-terminate :
    (fmt : List ℕ) (va : List Arg) (t : List ℕ) (out : Output)
    → format_text (suc (length fmt)) fmt va ≡ ok t
    → format fmt va out ≡ ok (terminate (emit_string t out))
unfolding format
format-terminate fmt va t out text =
    ap (λ (m : Outcome Output). m >>= λ out1. ok (terminate out1))
      (format_from-format_text (suc (length fmt)) fmt va out
        ∙ ap (λ (m : Outcome (List ℕ)). m >>= λ t. ok (emit_string t out)) text)

terminate-console : (out : Output) → out.console ≡ true → terminate out ≡ (out.count, out)
unfolding terminate
terminate-console out h = rw h refl

terminate-buffer :
    (out : Output) (j : ℕ)
    → out.console ≡ false
    → out.size < 2 ^ 32
    → out.buffer + out.size ≤ 2 ^ 32
    → ((terminate out).0 ≡ out.count)
      × ((terminate out).1.printed ≡ out.printed)
      × ((terminate out).1.mem j ≡ (
          if (j == out.buffer + min out.count (out.size - 1)) && (out.size != 0)
          then 0
          else out.mem j))
unfolding terminate update
terminate-buffer out j h small room = (refl, ground arith, ground arith)

ending :
    (buf1 buf cnt k size1 n j g1 g old mid final : ℕ)
    → buf1 ≡ buf
    → cnt ≡ k
    → size1 ≡ n
    → final ≡ (if (j == buf1 + min cnt (size1 - 1)) && (size1 != 0) then 0 else mid)
    → mid ≡ (if leb (buf + 0) j && ltb j (buf + min (0 + k) (n - 1)) then g1 else old)
    → g1 ≡ g
    → final ≡ (
        if leb buf j && ltb j (buf + min k (n - 1))
        then g
        else (if (j == buf + min k (n - 1)) && (n != 0) then 0 else old))
ending buf1 buf cnt k size1 n j g1 g old mid final h1 h2 h3 h4 h5 h6 = ground arith

-- printf, for a format whose text with these arguments is `t`: it returns the length, it prints
-- the text behind what was printed, and it writes no memory.
pub vprintf_lem :
    (m : Bytes) (printed fmt : List ℕ) (va : List Arg) (t : List ℕ)
    → format_text (suc (length fmt)) fmt va ≡ ok t
    → length t < 2 ^ 32
    → (out : Output) × (vprintf m printed fmt va ≡ ok (length t, out))
      × (out.printed ≡ printed ++ t)
      × (out.mem ≡ m)
unfolding vprintf
vprintf_lem m printed fmt va t text small =
    let out : Output = record {
      buffer = 0;
      size = 0;
      count = 0;
      console = true;
      mem = m;
      printed = printed;
    } in
    let (console, _, _, _) = emit_string-keeps t out in
    let (shown, same) = emit_string-console t out refl in
    (
      emit_string t out,
      format-terminate fmt va t out text
          ∙ ap ok (
              terminate-console (emit_string t out) console
              ∙ ap (λ (k : ℕ). (k, emit_string t out)) (emit_string-count t out refl small)),
      shown,
      same,
    )

-- snprintf on a buffer of n bytes that ends in the address space, for a format whose text with
-- these arguments is `t`: it returns the length of the whole text and prints nothing; when n is
-- not 0 the buffer gets the first n - 1 characters of the text and a NUL behind them; all the
-- other bytes stay.
pub vsnprintf_lem :
    (m : Bytes) (printed : List ℕ) (buf n : ℕ) (fmt : List ℕ) (va : List Arg) (t : List ℕ)
    → format_text (suc (length fmt)) fmt va ≡ ok t
    → length t < 2 ^ 32
    → n < 2 ^ 32
    → buf + n ≤ 2 ^ 32
    → (out : Output) × (vsnprintf m printed buf n fmt va ≡ ok (length t, out))
      × (out.printed ≡ printed)
      × ((j : ℕ)
          → out.mem j ≡ (
              if leb buf j && ltb j (buf + min (length t) (n - 1))
              then get_or t (j - buf) 0
              else (if (j == buf + min (length t) (n - 1)) && (n != 0) then 0 else m j)))
unfolding vsnprintf
vsnprintf_lem m printed buf n fmt va t text small size room =
    let out : Output = record {
      buffer = buf;
      size = n;
      count = 0;
      console = false;
      mem = m;
      printed = printed;
    } in
    let out1 = emit_string t out in
    let (console, size1, buffer, _) = emit_string-keeps t out in
    let count = emit_string-count t out refl small in
    let ended = λ (j : ℕ).
      terminate-buffer out1 j console (omega (arith, size1)) (omega (arith, size1, buffer)) in
    let filled = λ (j : ℕ). emit_string-buffer t out j refl (omega arith) size room in
    (
      (terminate out1).1,
      format-terminate fmt va t out text
          ∙ ap (λ (k : ℕ). ok (k, (terminate out1).1)) ((ended 0).0 ∙ count),
      (ended 0).1 ∙ (filled 0).0,
      λ j.
          ending _ _ _ _ _ _ j _ _ _ _ _ buffer count size1 ((ended j).2) ((filled j).1)
            (ap (λ (k : ℕ). get_or t k 0) (omega arith)),
    )
