-- ===== src/Server/Bound.antt =====
-- server.c: a server and its children as they start, exit and are reaped, step by step.
use jawas.Base.{
  ℕ, zero, suc, ◌+◌, ◌-◌, ◌≤◌, ◌<◌, true, false, ◌≡◌, refl, sym, ap, subst, arith, leb,
  if◌then◌else◌, Bool-cases, inl, inr,
}
use jawas.Server.{Server, max_procs, parent, serves, incoming, wait_proc}

-- The server, the children that run, and those that have exited and are not reaped.
pub record World : Type 0 where
  pub server : Server
  pub live : ℕ
  pub exited : ℕ

abbrev pub running : Server → ℕ → ℕ → World
running s l e = record { server = s; live = l; exited = e }

-- One thing that happens: a connection starts a child, one is turned away, a child exits, the server
-- reaps, or a signal ends the server.
pub data Step : World → World → Type 0 where
  starts :
      {s s' : Server} {l e : ℕ}
      → s.procs < max_procs
      → incoming s parent ≡ serves s'
      → Step (running s l e) (running s' (suc l) e)
  refuses :
      {s : Server} {l e : ℕ}
      → incoming s parent ≡ serves s
      → max_procs ≤ s.procs
      → Step (running s l e) (running s l e)
  leaves : {s : Server} {l e : ℕ} → Step (running s (suc l) e) (running s l (suc e))
  reaps :
      {s : Server} {l e : ℕ} → Step (running s l e) (running (wait_proc s e).0 l (wait_proc s e).1)
  stops : {s : Server} {l e : ℕ} → Step (running s l e) (running (record s { done = true }) l e)

pub data Reachable : World → Type 0 where
  begins : Reachable (running (record { procs = 0; done = false }) 0 0)
  goes_on : {w w' : World} → Reachable w → Step w w' → Reachable w'

-- The count is at most the bound, it covers every child, and as long as the server is not done it is
-- their number.
pub record IsCounted (w : World) : Type 0 where
  pub bounded : w.server.procs ≤ max_procs
  pub covered : w.live + w.exited ≤ w.server.procs
  pub exact : w.server.done ≡ false → w.server.procs ≡ w.live + w.exited

wait_proc_done : (s : Server) (e : ℕ) → s.done ≡ true → wait_proc s (suc e) ≡ (s, e)
unfolding wait_proc
wait_proc_done s e h =
    ap (λ b. if b then (s, e) else wait_proc (record s { procs = s.procs - 1 }) e) h

wait_proc_still :
    (s : Server) (e : ℕ)
    → s.done ≡ false
    → wait_proc s (suc e) ≡ wait_proc (record s { procs = s.procs - 1 }) e
unfolding wait_proc
wait_proc_still s e h =
    ap (λ b. if b then (s, e) else wait_proc (record s { procs = s.procs - 1 }) e) h

-- Reaping keeps the count.
wait_proc-IsCounted :
    (e l : ℕ) (s : Server)
    → IsCounted (running s l e)
    → IsCounted (running (wait_proc s e).0 l (wait_proc s e).1)
unfolding wait_proc
wait_proc-IsCounted zero l s c = c
wait_proc-IsCounted (suc e) l s c = elim (Bool-cases s.done) [
  | inl done ↦
      subst (λ r. IsCounted (running r.0 l r.1)) (sym (wait_proc_done s e done))
        (record {
          bounded = c.bounded;
          covered = omega (arith, c.covered);
          exact = λ n. cc (done, n);
        })
  | inr still ↦
      subst (λ r. IsCounted (running r.0 l r.1)) (sym (wait_proc_still s e still))
        (wait_proc-IsCounted e l (record s { procs = s.procs - 1 })
          (record {
            bounded = omega (arith, c.bounded);
            covered = omega (arith, c.covered, c.exact still);
            exact = λ n. omega (arith, c.exact still);
          }))
]

incoming-procs :
    (s s' : Server)
    → s.procs < max_procs
    → incoming s parent ≡ serves s'
    → s' ≡ record s { procs = s.procs + 1 }
unfolding incoming
incoming-procs s s' lt e = let b : leb max_procs s.procs ≡ false = ground arith in cc (e, e' b)
  where
    e' :
        leb max_procs s.procs ≡ false
        → incoming s parent ≡ serves (record s { procs = s.procs + 1 })
    e' b = rw b refl

Step-IsCounted : (w w' : World) → Step w w' → IsCounted w → IsCounted w'
Step-IsCounted _ _ (starts {s = s} {s' = s'} {l = l} {e = e} lt run) c =
    subst (λ t. IsCounted (running t (suc l) e)) (sym (incoming-procs s s' lt run))
      (record {
        bounded = omega arith;
        covered = omega (arith, c.covered);
        exact = λ n. omega (arith, c.exact n);
      })
Step-IsCounted _ _ (refuses run full) c = c
Step-IsCounted _ _ leaves c = record {
  bounded = c.bounded;
  covered = omega (arith, c.covered);
  exact = λ n. omega (arith, c.exact n);
}
Step-IsCounted _ _ (reaps {s = s} {l = l} {e = e}) c = wait_proc-IsCounted e l s c
Step-IsCounted _ _ stops c = record { bounded = c.bounded; covered = c.covered; exact = λ n. cc n }

-- However connections arrive, children exit and the server reaps, the count of processes stays within
-- the bound and covers every child, and until the server is done it is their number.
pub Reachable-IsCounted : (w : World) → Reachable w → IsCounted w
Reachable-IsCounted _ begins = record {
  bounded = omega arith;
  covered = omega arith;
  exact = λ n. refl;
}
Reachable-IsCounted w (goes_on r step) = Step-IsCounted _ w step (Reachable-IsCounted _ r)
