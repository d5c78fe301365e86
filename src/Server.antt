-- ===== src/Server.antt =====
-- server.c: how many processes the server has, as `incoming` starts them and `wait_proc` reaps them.
pub mod Bound
pub mod Polling
mod Tests
use jawas.Base.{ℕ, zero, suc, ◌+◌, ◌-◌, Bool, true, false, leb, if◌then◌else◌, ◌==◌, ◌||◌}

-- The fields of `server_struct` that count the processes.
pub record Server : Type 0 where
  pub procs : ℕ
  pub done : Bool

abbrev pub max_procs : ℕ
max_procs = 200

-- What `fork` returns: 0 in the child, the child's number in the parent, or an error.
pub data Fork : Type 0 where
  child : Fork
  parent : Fork
  failed : Fork

-- What a process does behind `incoming`: it goes on as the server, it handles the connection, or it
-- exits with `JAWAS_EXIT_FORK`.
pub data Role : Type 0 where
  serves : Server → Role
  handles : Server → Role
  exits : Role

abbrev pub forked : Fork → Server → Role
forked child s = handles s
forked parent s = serves s
forked failed s = exits

unfoldable pub incoming : Server → Fork → Role
incoming s fork =
    if leb max_procs s.procs then serves s else forked fork (record s { procs = s.procs + 1 })

-- The loop of `wait_proc`, where `exited` children wait to be reaped: the server, and how many still
-- wait. `waitpid` is called before `done` is looked at, so one child is reaped and not counted where
-- the server is done.
unfoldable pub wait_proc : Server → ℕ → Server × ℕ
wait_proc s zero = (s, zero)
wait_proc s (suc exited) =
    let next = wait_proc (record s { procs = s.procs - 1 }) exited in
    if s.done then (s, exited) else next

-- Is the socket one that clients connect to? `http_sock` and `tls_sock` are the server's.
unfoldable pub external_port : (http_sock tls_sock fd : ℕ) → Bool
external_port http_sock tls_sock fd = fd == http_sock || fd == tls_sock

-- `server_poll` at an event of `fd`, which is one of a process or another: what becomes of the process, and how
-- many children still wait. `exited` children wait at first, and `again` at a second look. `reload`, which maps a file
-- of the cache anew, leaves the server as it is.
unfoldable pub server_poll :
    (http_sock tls_sock fd : ℕ) (of_process : Bool) (fork : Fork) (exited again : ℕ)
    → Server
    → Role × ℕ
unfolding external_port
server_poll http_sock tls_sock fd of_process fork exited again s =
    let (s₁, left) = wait_proc s exited in
    let (s₂, left₂) = wait_proc s₁ again in
    if external_port http_sock tls_sock fd
    then (incoming s₁ fork, left)
    else if of_process
    then (serves s₂, left₂)
    else (serves s₁, left)
