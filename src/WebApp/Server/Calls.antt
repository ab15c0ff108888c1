-- ===== src/WebApp/Server/Calls.antt =====
-- How many calls the requests of main.go's server make, when they interleave.
use appliance_registry.Prelude.{ℕ, ◌+◌, ◌*◌, ◌≤◌, subst, List, [], ◌∷◌, ◌++◌, arith}
use appliance_registry.External.{External, Backend}
use appliance_registry.World.{World}
use appliance_registry.Program.{Op, Answer, call}
use appliance_registry.Program.Run.{perform}
use appliance_registry.Program.Steps.{AtMost, at_call, AtMost-le}
use appliance_registry.WebApp.{WebApp, Handler}
use appliance_registry.WebApp.Server.{Request, Response}
use appliance_registry.WebApp.Server.Steps.{most_calls, AtMost-serve}
use appliance_registry.WebApp.Server.Interleaving.{
  System, Step, arrives, advances, leaves, Reach, here, step,
}

-- The requests on their way can make at most so many calls, all together.
data Budget : ℕ → List (Handler Response) → Type 0 where
  nobody : (n : ℕ) → Budget n []
  share :
      (n k j : ℕ) (m : Handler Response) (ms : List (Handler Response))
      → AtMost k m
      → Budget j ms
      → k + j ≤ n
      → Budget n (m ∷ ms)

Budget-le : {n : ℕ} (k : ℕ) {ms : List (Handler Response)} → Budget n ms → n ≤ k → Budget k ms
Budget-le k (nobody n) h = nobody k
Budget-le k (share n i j m ms u b l) h = share k i j m ms u b (omega (arith, l, h))

-- One call is made, and the budget is smaller.
record Charged (n : ℕ) (ms : List (Handler Response)) : Type 0 where
  left : ℕ
  less : left + 1 ≤ n
  budget : Budget left ms

charge :
    {n : ℕ} (before after : List (Handler Response)) (o : Op) (k : Answer o → Handler Response)
    (r : Answer o)
    → Budget n (before ++ call o k ∷ after)
    → Charged n (before ++ k r ∷ after)
charge [] after o k r (share n _ j m ms (at_call i _ _ u) b l) = record {
  left = i + j;
  less = omega (arith, l);
  budget = share (i + j) i j (k r) after (u r) b (omega arith);
}
charge (p ∷ before) after o k r (share n i j m ms u b l) =
    let c = charge before after o k r b in
    record {
      left = i + c.left;
      less = omega (arith, l, c.less);
      budget = share (i + c.left) i c.left p _ u c.budget (omega arith);
    }

drop_one :
    {n : ℕ} (before after : List (Handler Response)) (m : Handler Response)
    → Budget n (before ++ m ∷ after)
    → Budget n (before ++ after)
drop_one [] after m (share n i j p ms u b l) = Budget-le n b (omega (arith, l))
drop_one (p ∷ before) after m (share n i j q ms u b l) =
    share n i j p _ u (drop_one before after m b) l

most_calls-le : (r : Request) → most_calls r ≤ 21
most_calls-le r = ground arith

module _ {b : Backend} (x : External) (app : WebApp) where
  abbrev arrived : {s t : System b} → Step x app s t → ℕ
  arrived (arrives r w ms) = 1
  arrived (advances before after o k w ms e) = 0
  arrived (leaves before after m w ms e) = 0

  abbrev made : {s t : System b} → Step x app s t → ℕ
  made (arrives r w ms) = 0
  made (advances before after o k w ms e) = 1
  made (leaves before after m w ms e) = 0

  -- The requests that come in on the way, and the calls that are made on it.
  abbrev pub arrivals : {s t : System b} → Reach x app s t → ℕ
  arrivals (here s) = 0
  arrivals (step s t u one rest) = arrived one + arrivals rest

  abbrev pub calls : {s t : System b} → Reach x app s t → ℕ
  calls (here s) = 0
  calls (step s t u one rest) = made one + calls rest

  calls-le-Budget :
      {s t : System b} {n : ℕ} (r : Reach x app s t)
      → Budget n s.requests
      → calls r ≤ n + 21 * arrivals r
  calls-le-Budget (here s) h = omega arith
  calls-le-Budget {n = n} (step s t u (arrives r w ms) rest) h =
      let ih = calls-le-Budget {n = 21 + n} rest (
        share (21 + n) 21 n _ _ (AtMost-le 21 (AtMost-serve x app r) (most_calls-le r)) h
          (omega arith)) in
      omega (arith, ih)
  calls-le-Budget (step s t u (advances before after o k w ms e) rest) h =
      let c = charge before after o k (perform o w).0 (subst (Budget _) e h) in
      let ih = calls-le-Budget rest c.budget in omega (arith, ih, c.less)
  calls-le-Budget (step s t u (leaves before after m w ms e) rest) h =
      let ih = calls-le-Budget rest (drop_one before after m (subst (Budget _) e h)) in
      omega (arith, ih)

  -- However the calls of requests interleave, and whatever is answered to them, a server that starts
  -- idle has made at most 21 calls for each request that has come in: none of its requests goes on
  -- for ever.
  pub calls-le :
      (w : World b) (t : System b) (r : Reach x app (record { world = w; requests = [] }) t)
      → calls r ≤ 21 * arrivals r
  calls-le w t r = let h = calls-le-Budget {n = 0} r (nobody 0) in omega (arith, h)
