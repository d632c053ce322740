-- ===== src/Store/Progress.antt =====
-- How far agents have been told and have answered (`mark_notified`, `acknowledge`, `declare_agent` and
-- `close_run` of `InMemoryStore`, src/blackboard/_board.py).
use blackboardx.Prelude.{
  ℕ, ◌≤◌, String, ◌≡◌, refl, sym, ap, subst, ◌∙◌, Option, some, List, [], ◌∷◌, arith, eq_iff,
  Option-cases, Bool-cases, inl, inr, max, ltb,
}
use blackboardx.Dict.{get, get_or, get-put}
use blackboardx.Errors.{Result-cases}
use blackboardx.Json.{as_json}
use blackboardx.Board.{HeldAgent, new_agent, BoardState, new_board}
use blackboardx.Board.Run.{close_run_on}
use blackboardx.Board.Agents.{Wants, declare_agent_on, mark_notified_on, acknowledge_on}
use blackboardx.Board.Aside.{declare_on-SameRun, append_on-SameRun, set_on-SameRun}
use blackboardx.Board.Outbox.{mark_sent_on}
use blackboardx.Board.Run.{open_run_on, touch_run_on}
use blackboardx.Store.{board_of}
use blackboardx.Store.Calls.{
  Call, run, effect, effects, calls_on, declares, appends, sets, deletes, opens_run, touches_run,
  closes_run, marks_sent, declares_agent, marks_notified, acknowledges,
}
use blackboardx.Store.Isolation.{board_of-run}

-- No agent has answered further than it was told.
pub record IsTold (b : BoardState) : Type 0 where
  pub at :
      (agent : String) (h : HeldAgent)
      → get agent b.agents ≡ some h
      → h.acknowledged_through ≤ h.notified_through

same_agents : {b c : BoardState} → c.agents ≡ b.agents → IsTold b → IsTold c
same_agents e v = record { at = λ agent h g. v.at agent h (ap (get agent) (sym e) ∙ g) }

declare_agent_on-IsTold :
    (agent : String) (w : Wants) (b : BoardState) → IsTold b → IsTold (declare_agent_on agent w b)
unfolding declare_agent_on
declare_agent_on-IsTold agent w b v = record {
  at = λ j h g. ground (
    arith,
    get-put agent j
        (record (get_or agent new_agent b.agents) {
          subscribes_to = w.subscribes_to;
          writes_to = w.writes_to;
          address = w.address;
        })
        b.agents,
    v.at j h,
    v.at agent (get_or agent new_agent b.agents),
    eq_iff agent j,
  );
}

mark_notified_on-IsTold :
    (agent : String) (through : ℕ) (b : BoardState)
    → IsTold b
    → IsTold (mark_notified_on agent through b)
unfolding mark_notified_on
mark_notified_on-IsTold agent through b v = record {
  at = λ j h g. ground (
    arith,
    get-put agent j
        (record (get_or agent new_agent b.agents) {
          notified_through = max (get_or agent new_agent b.agents).notified_through through;
        })
        b.agents,
    v.at j h,
    v.at agent (get_or agent new_agent b.agents),
    eq_iff agent j,
  );
}

acknowledge_on-IsTold :
    (agent : String) (through : ℕ) (b : BoardState)
    → IsTold b
    → IsTold (acknowledge_on agent through b).1
unfolding acknowledge_on
acknowledge_on-IsTold agent through b v = elim (Option-cases (get agent b.agents)) [
  | inl e ↦ rw (e, acknowledge_on) v
  | inr (held, e) ↦ elim (Bool-cases (ltb held.notified_through through)) [
    | inl l ↦ rw (e, acknowledge_on, l) v
    | inr l ↦
        rw (e, acknowledge_on, l)
          (record {
            at = λ j h g. ground (
              arith,
              get-put agent j
                  (record held { acknowledged_through = max held.acknowledged_through through })
                  b.agents,
              v.at j h,
              v.at agent held,
              eq_iff agent j,
            );
          })
  ]
]

close_run_on-IsTold :
    (closed_as : String) (reason : Option String) (unfinished : List String) (b : BoardState)
    → IsTold b
    → IsTold (close_run_on closed_as reason unfinished b).1
unfolding close_run_on get
close_run_on-IsTold closed_as reason unfinished b v = record {
  at = λ j h g. ground (arith, v.at j h);
}

effect-IsTold : (c : Call) (b : BoardState) → IsTold b → IsTold (effect c b)
unfolding effect open_run_on touch_run_on mark_sent_on get
effect-IsTold (declares r) b v = same_agents (declare_on-SameRun r b).agents v
effect-IsTold (appends now n w c) b v = elim (Result-cases (as_json w)) [
  | inl (e, q) ↦ rw (q, effect) v
  | inr (x, q) ↦ rw (q, effect) (same_agents (append_on-SameRun now n x c b).agents v)
]
effect-IsTold (sets now n w expected c) b v = elim (Result-cases (as_json w)) [
  | inl (e, q) ↦ rw (q, effect) v
  | inr (x, q) ↦ rw (q, effect) (same_agents (set_on-SameRun now n x expected c b).agents v)
]
effect-IsTold deletes b v = record { at = λ agent h g. ground arith }
effect-IsTold (opens_run now wall idle) b v = same_agents {b = b} refl v
effect-IsTold (touches_run now idle) b v = same_agents {b = b} (ground arith) v
effect-IsTold (closes_run a r u) b v = close_run_on-IsTold a r u b v
effect-IsTold (marks_sent agent through) b v = same_agents {b = b} (ground arith) v
effect-IsTold (declares_agent agent w) b v = declare_agent_on-IsTold agent w b v
effect-IsTold (marks_notified agent through) b v = mark_notified_on-IsTold agent through b v
effect-IsTold (acknowledges agent through) b v = acknowledge_on-IsTold agent through b v
effect-IsTold _ b v = v

effects-IsTold : (cs : List Call) (b : BoardState) → IsTold b → IsTold (effects cs b)
unfolding effects
effects-IsTold [] b v = v
effects-IsTold (c ∷ cs) b v = effects-IsTold cs (effect c b) (effect-IsTold c b v)

-- From an empty store, whatever calls processes make in whatever order, no agent of any board has
-- acknowledged further than it was notified.
pub run-IsTold : (cs : List (String × Call)) (id : String) → IsTold (board_of id (run cs []))
unfolding get
run-IsTold cs id =
    subst IsTold (sym (board_of-run id cs []))
      (effects-IsTold (calls_on id cs) new_board (record { at = λ agent h g. ground arith }))
