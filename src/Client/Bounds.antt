-- ===== src/Client/Bounds.antt =====
-- How often a client asks (`_send` of src/blackboard/agent.py), and how much the service reads for it
-- (`_bounds` of src/blackboard/server.py).
use blackboardx.Prelude.{ℕ, zero, suc, ◌+◌, ◌≤◌, ◌≡◌, refl, arith, if◌then◌else◌, ◌⊎◌, inl, inr}
use blackboardx.Service.{Response}
use blackboardx.Service.Queries.{Read, read, refused}
use blackboardx.Client.{Asked, Call, Outcome, send, send_from}

-- A transport that counts what it is asked.
abbrev pub counting {ℓ} :
    {S : Type ℓ} → (Asked → S → Outcome × S) → Asked → S × ℕ → Outcome × (S × ℕ)
counting transport asked (s, n) = let r = transport asked s in (r.0, (r.1, n + 1))

module _ {S : Type 0} {A : Type 0} (transport : Asked → S → Outcome × S) (call : Call A) where
  send_from-counting :
      (left : ℕ) (s : S) (n : ℕ) → (send_from (counting transport) call left (s, n)).1.1 ≤ n + left
  unfolding send_from
  send_from-counting zero s n = omega arith
  send_from-counting (suc left) s n =
      ground (arith, send_from-counting left (transport call.asked s).1 (n + 1))

  -- A call that may be repeated is sent at most as often as the client's attempts say, and any other at most once.
  pub send-counting :
      (attempts : ℕ) (s : S)
      → (send (counting transport) call attempts (s, 0)).1.1
        ≤ (if call.repeatable then attempts else 1)
  unfolding send
  send-counting attempts s =
      omega (arith, send_from-counting (if call.repeatable then attempts else 1) s 0)

Read-cases :
    {A : Type 0} (r : Read A) → ((x : Response) × (r ≡ refused x)) ⊎ ((a : A) × (r ≡ read a))
Read-cases (read a) = inr (a, refl)
Read-cases (refused x) = inl (x, refl)
