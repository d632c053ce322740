-- ===== src/Board/Aside.antt =====
-- The writes of `InMemoryStore` (src/blackboard/_board.py) leave a board's run and agents alone.
use blackboardx.Prelude.{ℕ, String, ◌≡◌, arith}
use blackboardx.Json.{Value}
use blackboardx.Board.{Region, level, premise, BoardState}
use blackboardx.Board.Write.{Carried, declare_on, append_on, set_on}
use blackboardx.Board.Outcomes.{append_on-cases, set_on-cases}

pub record SameRun (b c : BoardState) : Type 0 where
  pub run : c.run ≡ b.run
  pub agents : c.agents ≡ b.agents

pub declare_on-SameRun : (r : Region) (b : BoardState) → SameRun b (declare_on r b).1
unfolding declare_on
declare_on-SameRun (level n w) b = ground arith
declare_on-SameRun (premise n w) b = ground arith

pub append_on-SameRun :
    (now : ℕ) (n : String) (v : Value) (c : Carried) (b : BoardState)
    → SameRun b (append_on now n v c b).1
append_on-SameRun now n v c b = ground (arith, append_on-cases now n v c b)

pub set_on-SameRun :
    (now : ℕ) (n : String) (v : Value) (expected : ℕ) (c : Carried) (b : BoardState)
    → SameRun b (set_on now n v expected c b).1
set_on-SameRun now n v expected c b = ground (arith, set_on-cases now n v c b expected)
