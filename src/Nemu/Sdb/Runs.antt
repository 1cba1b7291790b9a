-- ===== src/Nemu/Sdb/Runs.antt =====
-- How often a session of the debugger runs the program.
use model_lib.Base.{
  ℕ, zero, suc, ◌≡◌, refl, ap, ap₂, ◌∙◌, inl, inr, Bool, true, false, Option, none, some, List, [],
  ◌∷◌, arith, if◌then◌else◌, Bool-cases, Option-cases,
}
use model_lib.Outcome.{Outcome, ok, ◌>>=◌, >>=-assoc, Outcome-cases}
use model_lib.Nemu.Pattern.{codes}
use model_lib.Nemu.Sdb.{
  cmd_help, Message, Session, cmd_table, same_text, find_command, print, help, go_on, round,
  lines_loop, sdb_mainloop,
}

same_text-eq : (a b : List ℕ) → same_text a b ≡ true → a ≡ b
same_text-eq [] [] h = refl
same_text-eq [] (d ∷ ds) h = cc
same_text-eq (c ∷ cs) [] h = cc
same_text-eq (c ∷ cs) (d ∷ ds) h =
    ap₂ (λ (x : ℕ) (l : List ℕ). x ∷ l) (ground arith) (same_text-eq cs ds (ground arith))

abbrev word_q : List ℕ
word_q = codes "q"

abbrev word_c : List ℕ
word_c = codes "c"

-- A word that is neither "q" nor "c".
other_command :
    (w : List ℕ)
    → same_text w word_q ≡ false
    → same_text w word_c ≡ false
    → find_command cmd_table w ≡ (
        if same_text w (codes "help")
        then some (record { name = "help"; handler = cmd_help })
        else none)
unfolding find_command
other_command w hq hc = rw (hq, hc) refl

module _ {E : Type 0} (strtok : List ℕ → Option (List ℕ × List ℕ)) (continue : E → Outcome E) where
  -- Whether the first word of a line is `name`.
  abbrev pub starts_with : List ℕ → List ℕ → Bool
  starts_with name line = elim (strtok line) [ none ↦ false | some t ↦ same_text t.0 name ]

  -- The lines "c" before the first line "q".
  abbrev pub runs : List (List ℕ) → ℕ
  runs [] = 0
  runs (line ∷ lines) =
      if starts_with (codes "q") line
      then 0
      else (if starts_with (codes "c") line then suc (runs lines) else runs lines)

  -- cpu_exec(-1) some times.
  abbrev pub repeat : ℕ → E → Outcome E
  repeat zero e = ok e
  repeat (suc n) e = do e' ← continue e; repeat n e'

  abbrev emulator_of : Outcome (Session E) → Outcome E
  emulator_of o = do s ← o; ok s.emulator

  -- The rounds on the lines of the three kinds.
  round_q :
      (line : List ℕ) (s : Session E)
      → starts_with word_q line ≡ true
      → round strtok continue line s ≡ ok (true, s)
  unfolding round find_command
  round_q line s h = elim (Option-cases (strtok line)) [
    | inl no_word ↦ cc (rw (no_word, starts_with) at h)
    | inr (t, e) ↦ rw (e, round, same_text-eq t.0 word_q (rw (e, starts_with) at h)) refl
  ]

  round_c :
      (line : List ℕ) (s : Session E)
      → starts_with word_c line ≡ true
      → round strtok continue line s ≡ (do s' ← go_on strtok continue s; ok (false, s'))
  unfolding round find_command
  round_c line s h = elim (Option-cases (strtok line)) [
    | inl no_word ↦ cc (rw (no_word, starts_with) at h)
    | inr (t, e) ↦ rw (e, round, same_text-eq t.0 word_c (rw (e, starts_with) at h)) refl
  ]

  help-emulator :
      (rest : List ℕ) (s : Session E) → (help strtok continue rest s).emulator ≡ s.emulator
  help-emulator rest s = elim (Option-cases (strtok rest)) [
    | inl no_word ↦ rw (no_word, help) refl
    | inr (t, e) ↦
        rw (e, help)
          (elim (Option-cases (find_command cmd_table t.0)) [
            | inl unknown ↦ rw unknown refl
            | inr (c, found) ↦ rw found refl
          ])
  ]

  round_other :
      (line : List ℕ) (s : Session E)
      → starts_with word_q line ≡ false
      → starts_with word_c line ≡ false
      → (s' : Session E) × (round strtok continue line s ≡ ok (false, s'))
        × (s'.emulator ≡ s.emulator)
  unfolding round
  round_other line s hq hc = elim (Option-cases (strtok line)) [
    | inl no_word ↦ (s, rw (no_word, round) refl, refl)
    | inr (t, e) ↦
        let found = other_command t.0 (rw (e, starts_with) at hq) (rw (e, starts_with) at hc) in
        elim (Bool-cases (same_text t.0 (codes "help"))) [
          | inl is_help ↦
              (help strtok continue t.1 s, rw (e, round, found, is_help) refl, help-emulator t.1 s)
          | inr no_help ↦ (
            print strtok continue (Message.unknown t.0 ∷ []) s,
            rw (e, round, found, no_help) refl,
            refl,
          )
        ]
  ]

  lines_loop-runs :
      (lines : List (List ℕ)) (s : Session E)
      → emulator_of (lines_loop strtok continue lines s) ≡ repeat (runs lines) s.emulator
  unfolding lines_loop
  lines_loop-runs [] s = refl
  lines_loop-runs (line ∷ lines) s = elim (Bool-cases (starts_with word_q line)) [
    | inl is_q ↦ rw (round_q line s is_q, is_q) refl
    | inr no_q ↦ elim (Bool-cases (starts_with word_c line)) [
      | inl is_c ↦
          rw (round_c line s is_c, no_q, is_c)
            (elim (Outcome-cases (continue s.emulator)) [
              | inl (e, ran) ↦ rw ran (lines_loop-runs lines (record s { emulator = e }))
              | inr (inl stop) ↦ rw stop refl
              | inr (inr stop) ↦ rw stop refl
            ])
      | inr no_c ↦
          let (s', ran, same) = round_other line s no_q no_c in
          rw (ran, no_q, no_c) (lines_loop-runs lines s' ∙ ap (repeat (runs lines)) same)
    ]
  ]

  -- Whatever strtok and the emulator do: a session of the debugger leaves the emulator as
  -- cpu_exec(-1) does, run once in batch mode, and else once for each line whose first word is "c",
  -- up to the first one whose first word is "q" or the end of the input; a panic of a run is one
  -- of the session.
  pub sdb_mainloop-runs :
      (batch : Bool) (lines : List (List ℕ)) (s : Session E)
      → (sdb_mainloop strtok continue batch lines s >>= λ t. ok t.emulator)
        ≡ repeat (if batch then 1 else runs lines) s.emulator
  unfolding sdb_mainloop
  sdb_mainloop-runs true lines s = >>=-assoc (continue s.emulator) _ _
  sdb_mainloop-runs false lines s = lines_loop-runs lines s
