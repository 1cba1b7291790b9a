-- ===== src/Examples/Session.antt =====
-- A session of the debugger on an emulator that counts its runs.
use model_lib.Base.{ℕ, suc, ◌≡◌, false, Option, none, some, List, [], ◌∷◌}
use model_lib.Outcome.{Outcome, ok, ◌>>=◌}
use model_lib.Nemu.Sdb.{Session, sdb_mainloop}
use model_lib.Nemu.Sdb.Runs.{sdb_mainloop-runs}

-- The line as a single word.
abbrev whole_line : List ℕ → Option (List ℕ × List ℕ)
whole_line [] = none
whole_line (c ∷ cs) = some (c ∷ cs, [])

abbrev count_run : ℕ → Outcome ℕ
count_run n = ok (suc n)

abbrev session : Session ℕ
session = record { emulator = 0; printed = [] }

-- c, an empty line, x, c, q, c
abbrev input : List (List ℕ)
input = (99 ∷ []) ∷ [] ∷ (120 ∷ []) ∷ (99 ∷ []) ∷ (113 ∷ []) ∷ (99 ∷ []) ∷ []

sdb_mainloop-runs_example :
    (sdb_mainloop whole_line count_run false input session >>= λ t. ok t.emulator) ≡ ok 2
sdb_mainloop-runs_example = sdb_mainloop-runs whole_line count_run false input session
