-- ===== src/Nemu/Keyboard/Refine.antt =====
-- The array with its two indices behaves as that queue.
use model_lib.Base.{
  ℕ, zero, suc, ◌+◌, ◌-◌, ◌%◌, ◌^◌, ◌<◌, bit_or, ◌≡◌, refl, sym, ap, ap₂, ◌∙◌, ◌≢◌, inl, inr, Bool,
  true, false, List, [], ◌∷◌, ◌++◌, arith, ◌==◌, ◌!=◌, if◌then◌else◌, ==_iff, Bool-cases, length,
  get_or, set, length-set, length-replicate, get_or-set_self, get_or-set_ne,
}
use model_lib.Base.Bits.{bit_or_comm, bit_or_fields, bit_or-zero}
use model_lib.Outcome.{Outcome, ok, panic, ◌>>=◌}
use model_lib.Nemu.State.{RunState}
use model_lib.Nemu.Keyboard.{Keys, init_keys, key_enqueue, key_dequeue, send_key}
use model_lib.Nemu.Keyboard.Queue.{put, get, KeyOp, press, read, replies}

pub record IsValid (k : Keys) : Type 0 where
  pub room : length k.key_queue ≡ 1024
  pub front_in : k.key_f < 1024
  pub rear_in : k.key_r < 1024

-- `n` codes from index `i` on, round the end of the array.
abbrev codes_from : List ℕ → ℕ → ℕ → List ℕ
codes_from q i zero = []
codes_from q i (suc n) = get_or q i 0 ∷ codes_from q ((i + 1) % 1024) n

abbrev pub count : Keys → ℕ
count k = (k.key_r + 1024 - k.key_f) % 1024

abbrev pub contents : Keys → List ℕ
contents k = codes_from k.key_queue k.key_f (count k)

length-codes_from : (q : List ℕ) (i n : ℕ) → length (codes_from q i n) ≡ n
length-codes_from q i zero = refl
length-codes_from q i (suc n) = ap suc (length-codes_from q ((i + 1) % 1024) n)

-- A code written behind the last one comes last.
codes_from-set :
    (q : List ℕ) (c n i : ℕ)
    → length q ≡ 1024
    → i < 1024
    → n < 1024
    → codes_from (set q ((i + n) % 1024) c) i (suc n) ≡ codes_from q i n ++ (c ∷ [])
codes_from-set q c zero i full hi hn =
    let here : (i + 0) % 1024 ≡ i = omega arith in
    let first : get_or (set q ((i + 0) % 1024) c) i 0 ≡ c =
      ap (λ (t : ℕ). get_or (set q t c) i 0) here ∙ get_or-set_self q i c 0 (omega arith) in
    ap (λ (t : ℕ). t ∷ []) first
codes_from-set q c (suc n) i full hi hn =
    let next : (i + suc n) % 1024 ≡ ((i + 1) % 1024 + n) % 1024 = omega arith in
    let first : get_or (set q ((i + suc n) % 1024) c) i 0 ≡ get_or q i 0 =
      get_or-set_ne q ((i + suc n) % 1024) i c 0 (omega arith) in
    let rest : codes_from (set q ((i + suc n) % 1024) c) ((i + 1) % 1024) (suc n)
        ≡ codes_from q ((i + 1) % 1024) n ++ (c ∷ []) =
      ap (λ (t : ℕ). codes_from (set q t c) ((i + 1) % 1024) (suc n)) next
      ∙ codes_from-set q c n ((i + 1) % 1024) full (omega arith) (omega arith) in
    ap₂ ◌∷◌ first rest

codes_from-step :
    (q : List ℕ) (i n : ℕ)
    → n ≢ 0
    → codes_from q i n ≡ get_or q i 0 ∷ codes_from q ((i + 1) % 1024) (n - 1)
codes_from-step q i zero h = absurd (h refl)
codes_from-step q i (suc n) h =
    ap (λ (t : ℕ). get_or q i 0 ∷ codes_from q ((i + 1) % 1024) t) (omega arith)

-- A press on a queue with room adds its code at the end, and a press on a full one panics.
key_enqueue-full : (c : ℕ) (k : Keys) → IsValid k → count k ≡ 1023 → key_enqueue c k ≡ panic
unfolding key_enqueue
key_enqueue-full c k v h = ground arith

key_enqueue-room :
    (c : ℕ) (k : Keys)
    → IsValid k
    → count k ≢ 1023
    → (k2 : Keys) × (key_enqueue c k ≡ ok k2) × IsValid k2 × (contents k2 ≡ contents k ++ (c ∷ []))
unfolding key_enqueue
key_enqueue-room c k v h =
    let k2 : Keys = record k {
      key_queue = set k.key_queue k.key_r c;
      key_r = (k.key_r + 1) % 1024;
    } in
    let more : count k2 ≡ suc (count k) = omega (arith, v.front_in, v.rear_in) in
    let rear : k.key_r ≡ (k.key_f + count k) % 1024 = omega (arith, v.front_in, v.rear_in) in
    let same : contents k2 ≡ contents k ++ (c ∷ []) =
      ap₂ (λ (r n : ℕ). codes_from (set k.key_queue r c) k.key_f n) rear more
      ∙ codes_from-set k.key_queue c (count k) k.key_f v.room v.front_in (omega arith) in
    let room : length k2.key_queue ≡ 1024 = length-set k.key_queue k.key_r c ∙ v.room in
    (
      k2,
      ground (arith, h, v.front_in, v.rear_in),
      record { room = room; front_in = v.front_in; rear_in = omega arith },
      same,
    )

-- What one read gives and leaves.
abbrev Reads : Keys → ℕ × Keys → Type 0
Reads k r = IsValid r.1 × (r.0 ≡ (get (contents k)).0) × (contents r.1 ≡ (get (contents k)).1)

key_dequeue-nonempty : (k : Keys) → IsValid k → k.key_f ≢ k.key_r → Reads k (key_dequeue k)
unfolding key_dequeue
key_dequeue-nonempty k v h =
    let k2 : Keys = record k { key_f = (k.key_f + 1) % 1024 } in
    let step : contents k ≡ get_or k.key_queue k.key_f 0 ∷ contents k2 =
      codes_from-step k.key_queue k.key_f (count k) (omega (arith, v.front_in, v.rear_in))
      ∙ ap (λ (n : ℕ). get_or k.key_queue k.key_f 0 ∷ codes_from k.key_queue k2.key_f n)
          (omega (arith, v.front_in, v.rear_in)) in
    let valid : IsValid k2 = record {
      room = v.room;
      front_in = omega arith;
      rear_in = v.rear_in;
    } in
    let taken : key_dequeue k ≡ (get_or k.key_queue k.key_f 0, k2) = ground arith in
    let reads : Reads k (get_or k.key_queue k.key_f 0, k2) = (
      valid,
      sym (ap (λ (q : List ℕ). (get q).0) step),
      sym (ap (λ (q : List ℕ). (get q).1) step),
    ) in
    rw taken reads

key_dequeue-empty : (k : Keys) → IsValid k → k.key_f ≡ k.key_r → Reads k (key_dequeue k)
unfolding key_dequeue
key_dequeue-empty k v h =
    let zero_count : count k ≡ 0 = omega (arith, v.rear_in) in
    let bare : contents k ≡ [] = ap (codes_from k.key_queue k.key_f) zero_count in
    let left : key_dequeue k ≡ (0, k) = ground arith in
    let reads : Reads k (0, k) = (
      v,
      sym (ap (λ (q : List ℕ). (get q).0) bare),
      bare ∙ sym (ap (λ (q : List ℕ). (get q).1) bare),
    ) in
    rw left reads

key_dequeue_lem : (k : Keys) → IsValid k → Reads k (key_dequeue k)
key_dequeue_lem k v = elim (Bool-cases (k.key_f == k.key_r)) [
  | inl e ↦ key_dequeue-empty k v ((==_iff k.key_f k.key_r).0 e)
  | inr e ↦ key_dequeue-nonempty k v (ground arith)
]

-- The presses and reads on the arrays of the source.
abbrev pub run_keys : List KeyOp → Keys → Outcome (List ℕ)
run_keys [] k = ok []
run_keys (press c ∷ ops) k = key_enqueue c k >>= run_keys ops
run_keys (read ∷ ops) k = do rest ← run_keys ops (key_dequeue k).1; ok ((key_dequeue k).0 ∷ rest)

-- For every sequence of presses and reads from a valid state, the code and the queue give the
-- same replies, and one panics where the other does.
pub run_keys-replies :
    (ops : List KeyOp) (k : Keys) → IsValid k → run_keys ops k ≡ replies ops (contents k)
run_keys-replies [] k v = refl
run_keys-replies (press c ∷ ops) k v =
    let size : length (contents k) ≡ count k = length-codes_from k.key_queue k.key_f (count k) in
    elim (Bool-cases (count k == 1023)) [
      | inl e ↦
          let full : count k ≡ 1023 = (==_iff (count k) 1023).0 e in
          let stuck : put c (contents k) ≡ panic = ground (arith, size) in
          rw (key_enqueue-full c k v full, stuck) refl
      | inr e ↦
          let (k2, done, valid, same) = key_enqueue-room c k v (ground arith) in
          let fits : put c (contents k) ≡ ok (contents k ++ (c ∷ [])) = ground (arith, size) in
          rw (done, fits) (run_keys-replies ops k2 valid ∙ ap (replies ops) same)
    ]
run_keys-replies (read ∷ ops) k v =
    let (valid, reply, left) = key_dequeue_lem k v in
    ap₂ (λ (a : ℕ) (m : Outcome (List ℕ)). m >>= λ rest. ok (a ∷ rest)) reply
      (run_keys-replies ops (key_dequeue k).1 valid ∙ ap (replies ops) left)

ne→!= : (n : ℕ) → n ≢ 0 → (n != 0) ≡ true
ne→!= n h = ground arith

code-value :
    (code : ℕ) (b : Bool)
    → code < 2 ^ 15
    → bit_or code (if b then 0x8000 else 0) ≡ code + (if b then 0x8000 else 0)
code-value code true h = bit_or_comm code 0x8000 ∙ bit_or_fields 15 1 code h ∙ omega arith
code-value code false h = omega (arith, bit_or-zero code)

-- While the machine runs, an event on a key that the map knows by a code below 2 ^ 15, with room
-- in the queue, adds one code at the end: the key's, plus 0x8000 when the key goes down.
pub send_key-contents :
    (keymap : ℕ → ℕ) (scancode : ℕ) (is_keydown : Bool) (k : Keys)
    → IsValid k
    → count k ≢ 1023
    → keymap scancode ≢ 0
    → keymap scancode < 2 ^ 15
    → (k2 : Keys) × (send_key keymap RunState.running scancode is_keydown k ≡ ok k2)
      × IsValid k2
      × (contents k2 ≡ contents k ++ ((keymap scancode + (if is_keydown then 0x8000 else 0)) ∷ []))
unfolding send_key
send_key-contents keymap scancode is_keydown k v room known small =
    let code = bit_or (keymap scancode) (if is_keydown then 0x8000 else 0) in
    let (k2, done, valid, same) = key_enqueue-room code k v room in
    let guarded : send_key keymap RunState.running scancode is_keydown k ≡ key_enqueue code k =
      rw (ne→!= (keymap scancode) known) refl in
    (
      k2,
      guarded ∙ done,
      valid,
      same ∙ ap (λ (c : ℕ). contents k ++ (c ∷ [])) (code-value (keymap scancode) is_keydown small),
    )

pub init_keys-IsValid : IsValid init_keys
init_keys-IsValid = record {
  room = length-replicate {A = ℕ} 1024 0;
  front_in = omega arith;
  rear_in = omega arith;
}
