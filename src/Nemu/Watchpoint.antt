-- ===== src/Nemu/Watchpoint.antt =====
-- nemu/src/monitor/sdb/watchpoint.c: the pool of watchpoints. A pointer into the pool is the
-- number of its element.
use model_lib.Base.{
  ℕ, zero, suc, ◌+◌, ◌-◌, Option, none, some, List, [], ◌∷◌, ◌==◌, if◌then◌else◌, get_elem?,
}

pub record Wp : Type 0 where
  pub no : ℕ
  pub next : Option ℕ

pub record Pool : Type 0 where
  pub wp_pool : List Wp
  pub head : Option ℕ
  pub free : Option ℕ

abbrev pub nr_wp : ℕ
nr_wp = 32

-- The loop of init_wp_pool, with `left` elements to go.
unfoldable pub init_from : ℕ → ℕ → List Wp
init_from zero i = []
init_from (suc left) i =
    record { no = i; next = if i == nr_wp - 1 then none else some (i + 1) } ∷ init_from left (i + 1)

unfoldable pub init_wp_pool : Pool
init_wp_pool = record { wp_pool = init_from nr_wp 0; head = none; free = some 0 }

-- The elements that a chain of `next` visits, with fuel.
unfoldable pub chain : ℕ → List Wp → Option ℕ → List ℕ
chain fuel pool none = []
chain zero pool (some i) = []
chain (suc fuel) pool (some i) = elim (get_elem? pool i) [
  | none ↦ []
  | some w ↦ i ∷ chain fuel pool w.next
]
