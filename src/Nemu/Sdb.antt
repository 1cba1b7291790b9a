-- ===== src/Nemu/Sdb.antt =====
-- nemu/src/monitor/sdb/sdb.c: the commands of the debugger. A line or a word is the list of its
-- characters.
pub mod Runs
use model_lib.Base.{
  ℕ, zero, suc, ◌+◌, ◌-◌, ◌*◌, ◌/◌, ◌%◌, ◌^◌, ◌≤◌, ◌<◌, min, bit_and, bit_or, bit_xor, ◌≡◌, refl,
  sym, ap, ap₂, ◌∙◌, ◌≢◌, ◌↔◌, ◌⊎◌, inl, inr, Bool, true, false, not, ◌&&◌, ◌||◌, Option, none,
  some, List, [], ◌∷◌, ◌++◌, map, reverse, arith, ltb, leb, ◌==◌, ◌!=◌, if◌then◌else◌, ltb→lt,
  lt→ltb, le→ltb, ==_iff, ==_refl, ==_of_ne, Bool-cases, Option-cases, length, get_elem?, get_or,
  set, take, replicate, length-append, length-set, length-replicate, get_or-set_self, get_or-set_ne,
  get_or-append_left, get_or-append_length,
}
use Prim.Native.String.{String}
use model_lib.Outcome.{Outcome, ok, panic, ◌>>=◌}
use model_lib.Nemu.Pattern.{codes}

abbrev pub same_text : List ℕ → List ℕ → Bool
same_text [] [] = true
same_text [] (d ∷ ds) = false
same_text (c ∷ cs) [] = false
same_text (c ∷ cs) (d ∷ ds) = c == d && same_text cs ds

-- What is printed: a row of the table, or that a command is unknown.
pub data Message : Type 0 where
  row : String → Message
  unknown : List ℕ → Message

pub data Handler : Type 0 where
  cmd_help cmd_c cmd_q : Handler

pub record Command : Type 0 where
  pub name : String
  pub handler : Handler

abbrev pub cmd_table : List Command
cmd_table =
    (record { name = "help"; handler = cmd_help })
    ∷ (record { name = "c"; handler = cmd_c })
    ∷ (record { name = "q"; handler = cmd_q })
    ∷ []

-- The first command of the name; `none` is `i == NR_CMD`.
unfoldable pub find_command : List Command → List ℕ → Option Command
find_command [] word = none
find_command (c ∷ cs) word = if same_text word (codes c.name) then some c else find_command cs word

-- The emulator and what was printed.
pub record Session (E : Type 0) : Type 0 where
  pub emulator : E
  pub printed : List Message

-- strtok of the C library on the rest of a line, with " ": the next word and what is behind it.
-- cpu_exec(-1) on the emulator.
module _ {E : Type 0} (strtok : List ℕ → Option (List ℕ × List ℕ)) (continue : E → Outcome E) where
  abbrev pub print : List Message → Session E → Session E
  print ms s = record s { printed = s.printed ++ ms }

  abbrev pub rows : List Message
  rows = map (λ c. Message.row c.name) cmd_table

  abbrev pub help : List ℕ → Session E → Session E
  help rest s = elim (strtok rest) [
    | none ↦ print rows s
    | some a ↦ elim (find_command cmd_table a.0) [
      | none ↦ print (Message.unknown a.0 ∷ []) s
      | some c ↦ print (Message.row c.name ∷ []) s
    ]
  ]

  abbrev pub go_on : Session E → Outcome (Session E)
  go_on s = do e ← continue s.emulator; ok (record s { emulator = e })

  -- A handler, and whether it returns a negative number.
  abbrev pub handle : Handler → List ℕ → Session E → Outcome (Bool × Session E)
  handle cmd_help rest s = ok (false, help rest s)
  handle cmd_c rest s = do s' ← go_on s; ok (false, s')
  handle cmd_q rest s = ok (true, s)

  -- A round on a line, less the call that clears the queue of window events.
  unfoldable pub round : List ℕ → Session E → Outcome (Bool × Session E)
  round line s = elim (strtok line) [
    | none ↦ ok (false, s)
    | some t ↦ elim (find_command cmd_table t.0) [
      | none ↦ ok (false, print (Message.unknown t.0 ∷ []) s)
      | some c ↦ handle c.handler t.1 s
    ]
  ]

  -- The loop over the lines that readline gives; their end is the end of the input.
  unfoldable pub lines_loop : List (List ℕ) → Session E → Outcome (Session E)
  lines_loop [] s = ok s
  lines_loop (line ∷ lines) s = do r ← round line s; if r.0 then ok r.1 else lines_loop lines r.1

  unfoldable pub sdb_mainloop : Bool → List (List ℕ) → Session E → Outcome (Session E)
  sdb_mainloop is_batch_mode lines s = if is_batch_mode then go_on s else lines_loop lines s
