-- ===== src/Server/Tests.antt =====
-- Runs of server.c, and the instance of its theorem.
use jawas.Base.{true, false, ◌≡◌, refl, arith}
use jawas.Server.{Server, max_procs, serves, parent, incoming, wait_proc}
use jawas.Server.Bound.{running, Reachable, begins, goes_on, starts, IsCounted, Reachable-IsCounted}

abbrev idle : Server
idle = record { procs = 0; done = false }

-- At the bound a connection starts no process.
full_runs :
    incoming (record { procs = max_procs; done = false }) parent
    ≡ serves (record { procs = 200; done = false })
unfolding incoming
full_runs = refl

-- A server that is done reaps one child and does not count it.
done_runs : wait_proc (record { procs = 3; done = true }) 2 ≡ (record { procs = 3; done = true }, 1)
unfolding wait_proc
done_runs = refl

one_child : Reachable (running (record { procs = 1; done = false }) 1 0)
unfolding incoming
one_child = goes_on begins (starts (omega arith) refl)

Reachable-IsCounted_example : IsCounted (running (record { procs = 1; done = false }) 1 0)
Reachable-IsCounted_example =
    Reachable-IsCounted (running (record { procs = 1; done = false }) 1 0) one_child
