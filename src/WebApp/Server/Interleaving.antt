-- ===== src/WebApp/Server/Interleaving.antt =====
-- The requests of main.go's server, when their calls interleave.
use appliance_registry.Prelude.{arith, true, ℕ, ◌≡◌, refl, subst, List, [], ◌∷◌, ◌++◌, All}
use appliance_registry.External.{External, Backend}
use appliance_registry.World.{World}
use appliance_registry.World.Invariants.{Kept}
use appliance_registry.World.{Database}
use appliance_registry.Program.{Op, Answer, call, ret, fail}
use appliance_registry.Program.Footprint.{uses_call}
use appliance_registry.Program.Run.{perform, run}
use appliance_registry.Program.Invariants.{perform-keeps}
use appliance_registry.Mariadb.Footprint.{Emitted, Quiet}
use appliance_registry.WebApp.{WebApp, Handler}
use appliance_registry.WebApp.Server.{Request, Response, serve, serve_all}
use appliance_registry.WebApp.Server.Footprint.{Quiet-serve}
use appliance_registry.World.Integrity.{IsConsistent, Kept-IsConsistent}
use appliance_registry.World.Lifecycle.{IsSettled, Kept-AtLeast}

-- The world, and what is left to do of each request that is being served.
pub record System (b : Backend) : Type 0 where
  pub world : World b
  pub requests : List (Handler Response)

-- The requests on their way make no call that is not in `Emitted`.
abbrev AllQuiet : List (Handler Response) → Type 0
AllQuiet = All (Quiet true)

all-append :
    (before after : List (Handler Response)) {m : Handler Response}
    → AllQuiet (before ++ m ∷ after)
    → Quiet true m
      × ((n : Handler Response) → Quiet true n → AllQuiet (before ++ n ∷ after))
      × AllQuiet (before ++ after)
all-append [] after (q, qs) = (q, (λ n u. (u, qs)), qs)
all-append (p ∷ before) after (u, us) =
    let (q, replace, without) = all-append before after us in
    (q, (λ n v. (u, replace n v)), (u, without))

Quiet-call :
    {o : Op} {k : Answer o → Handler Response}
    → Quiet true (call o k)
    → Emitted true o × ((r : Answer o) → Quiet true (k r))
Quiet-call (uses_call o k e u) = (e, u)

module _ {b : Backend} (x : External) (app : WebApp) where
  -- A request comes in; one of the requests makes its next call; or one of them is left where it is,
  -- because it has ended, its client is gone, or the process was stopped.
  pub data Step : System b → System b → Type 0 where
    arrives :
        (r : Request) (w : World b) (ms : List (Handler Response))
        → Step
            (record { world = w; requests = ms })
            (record { world = w; requests = serve x app r ∷ ms })
    advances :
        (before after : List (Handler Response)) (o : Op) (k : Answer o → Handler Response)
        (w : World b) (ms : List (Handler Response))
        → ms ≡ before ++ call o k ∷ after
        → Step
            (record { world = w; requests = ms })
            (record { world = (perform o w).1; requests = before ++ k (perform o w).0 ∷ after })
    leaves :
        (before after : List (Handler Response)) (m : Handler Response) (w : World b)
        (ms : List (Handler Response))
        → ms ≡ before ++ m ∷ after
        → Step
            (record { world = w; requests = ms })
            (record { world = w; requests = before ++ after })

  pub data Reach : System b → System b → Type 0 where
    here : (s : System b) → Reach s s
    step : (s t u : System b) → Step s t → Reach t u → Reach s u

  append-Reach : {s t u : System b} → Reach s t → Reach t u → Reach s u
  append-Reach (here s) r = r
  append-Reach (step s t u one rest) r = step s t _ one (append-Reach rest r)

  Reach-run :
      (m : Handler Response) (w : World b)
      → Reach
          (record { world = w; requests = m ∷ [] })
          (record { world = (run m w).1; requests = [] })
  unfolding run
  Reach-run (ret a) w = step _ _ _ (leaves [] [] (ret a) w _ refl) (here _)
  Reach-run (fail e) w = step _ _ _ (leaves [] [] (fail e) w _ refl) (here _)
  Reach-run (call o k) w =
      step _ _ _ (advances [] [] o k w _ refl) (Reach-run (k (perform o w).0) (perform o w).1)

  -- Requests that are served one after another are one way for their calls to interleave.
  pub Reach-serve_all :
      (rs : List Request) (w : World b)
      → Reach
          (record { world = w; requests = [] })
          (record { world = serve_all x app rs w; requests = [] })
  unfolding serve_all
  Reach-serve_all [] w = here _
  Reach-serve_all (r ∷ rs) w =
      step _ _ _ (arrives r w [])
        (append-Reach (Reach-run (serve x app r) w) (Reach-serve_all rs (run (serve x app r) w).1))

  module _ (I : Database → Type 0) (kept : Kept true I) where
    Step-keeps :
        {s t : System b}
        → Step s t
        → I s.world.db × AllQuiet s.requests
        → I t.world.db × AllQuiet t.requests
    Step-keeps (arrives r w ms) (h, q) = (h, (Quiet-serve x app r, q))
    Step-keeps (advances before after o k w ms e) (h, q) =
        let (mine, replace, _) = all-append before after (subst AllQuiet e q) in
        let (emitted, rest) = Quiet-call mine in
        (perform-keeps I kept o w emitted h, replace (k (perform o w).0) (rest (perform o w).0))
    Step-keeps (leaves before after m w ms e) (h, q) =
        let (_, _, without) = all-append before after (subst AllQuiet e q) in (h, without)

    Reach-keeps : {s t : System b} → Reach s t → I s.world.db × AllQuiet s.requests → I t.world.db
    Reach-keeps (here s) (h, q) = h
    Reach-keeps (step s t u one rest) h = Reach-keeps rest (Step-keeps one h)

  -- Start from any tables in which an appliance exists and is not pending. However the calls of any
  -- requests interleave, fail, lose their answers or are cut short, the appliance still exists and is
  -- not pending.
  pub Reach-IsSettled :
      (id : ℕ) (w : World b) (t : System b)
      → IsSettled id w.db
      → Reach (record { world = w; requests = [] }) t
      → IsSettled id t.world.db
  Reach-IsSettled id w t h r =
      Reach-keeps (IsSettled id) (Kept-AtLeast 2 id true (λ _. omega arith)) r (h, tt)

  -- Start from any tables that keep their keys and foreign keys: distinct ids below the next one,
  -- distinct hostname labels, at most one claim token and one exchange code for an appliance, distinct
  -- hashes of login codes, each of these of an appliance that exists. However the calls of any requests
  -- interleave, fail, lose their answers or are cut short, the tables keep them.
  pub Reach-IsConsistent :
      (w : World b) (t : System b)
      → IsConsistent w.db
      → Reach (record { world = w; requests = [] }) t
      → IsConsistent t.world.db
  Reach-IsConsistent w t h r = Reach-keeps IsConsistent Kept-IsConsistent r (h, tt)
