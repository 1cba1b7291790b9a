-- ===== src/Nemu/Keyboard/Queue.antt =====
-- The queue that the keyboard stands for: at most 1023 codes, the oldest first. A press on a full
-- queue panics, and a read of an empty one gives 0.
use model_lib.Base.{ℕ, List, [], ◌∷◌, ◌++◌, ◌==◌, if◌then◌else◌, length}
use model_lib.Outcome.{Outcome, ok, panic, ◌>>=◌}

abbrev pub put : ℕ → List ℕ → Outcome (List ℕ)
put c q = if length q == 1023 then panic else ok (q ++ (c ∷ []))

abbrev pub get : List ℕ → ℕ × List ℕ
get [] = (0, [])
get (c ∷ q) = (c, q)

-- What the two sides do, in the order in which it happens.
pub data KeyOp : Type 0 where
  press : ℕ → KeyOp
  read : KeyOp

-- The codes that the reads give.
abbrev pub replies : List KeyOp → List ℕ → Outcome (List ℕ)
replies [] q = ok []
replies (press c ∷ ops) q = put c q >>= replies ops
replies (read ∷ ops) q = do rest ← replies ops (get q).1; ok ((get q).0 ∷ rest)
