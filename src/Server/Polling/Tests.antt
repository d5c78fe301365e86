-- ===== src/Server/Polling/Tests.antt =====
-- An event of the server: a run, and the instance of its theorem.
use jawas.Base.{false, ◌≡◌, refl, arith}
use jawas.Server.{serves, parent, incoming, wait_proc, server_poll}
use jawas.Server.Polling.{counting, Polled, server_poll-Polled}

connect_runs : server_poll 3 4 4 false parent 1 0 (counting 2) ≡ (serves (counting 2), 0)
unfolding server_poll incoming wait_proc
connect_runs = refl

server_poll-Polled_example :
    Polled 3 4 4 2 1 0 false parent (server_poll 3 4 4 false parent 1 0 (counting 2))
server_poll-Polled_example = server_poll-Polled 3 4 4 2 1 0 false parent (omega arith)
