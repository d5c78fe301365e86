-- ===== src/Server/Polling.antt =====
-- server.c, `server_poll`: what becomes of the server at an event, for every kind of event and every way that
-- `fork` may end.
mod Tests
use jawas.Base.{
  ℕ, zero, suc, ◌+◌, ◌-◌, ◌≤◌, ◌<◌, Bool, true, false, ◌≡◌, ◌≢◌, refl, sym, ap, ◌∙◌, arith, leb,
  if◌then◌else◌, Bool-cases, inl, inr, ◌||◌, ◌==◌, ◌⊎◌, subst,
}
use native.Mathlib.Decide.{dec_lt}
use jawas.Server.{
  Server, Role, serves, handles, exits, Fork, child, parent, failed, max_procs, forked, incoming,
  wait_proc, external_port, server_poll,
}

-- The server with `n` processes.
abbrev pub counting : ℕ → Server
counting n = record { procs = n; done = false }

-- What an event may do to a server with `procs` processes, of which `exited` have ended at first and `again` more
-- by a second look.
pub data Polled (http_sock tls_sock fd procs exited again : ℕ)
    : Bool → Fork → Role × ℕ → Type 0 where
  full :
      {p : Bool} {fork : Fork}
      → (fd ≡ http_sock) ⊎ (fd ≡ tls_sock)
      → 200 ≤ procs - exited
      → Polled http_sock tls_sock fd procs exited again p fork
          (serves (counting (procs - exited)), 0)
  starts :
      {p : Bool}
      → (fd ≡ http_sock) ⊎ (fd ≡ tls_sock)
      → procs - exited < 200
      → Polled http_sock tls_sock fd procs exited again p parent
          (serves (counting (procs - exited + 1)), 0)
  becomes_child :
      {p : Bool}
      → (fd ≡ http_sock) ⊎ (fd ≡ tls_sock)
      → procs - exited < 200
      → Polled http_sock tls_sock fd procs exited again p child
          (handles (counting (procs - exited + 1)), 0)
  fails :
      {p : Bool}
      → (fd ≡ http_sock) ⊎ (fd ≡ tls_sock)
      → procs - exited < 200
      → Polled http_sock tls_sock fd procs exited again p failed (exits, 0)
  reloads :
      {fork : Fork}
      → fd ≢ http_sock
      → fd ≢ tls_sock
      → Polled http_sock tls_sock fd procs exited again false fork
          (serves (counting (procs - exited)), 0)
  reaps :
      {fork : Fork}
      → fd ≢ http_sock
      → fd ≢ tls_sock
      → Polled http_sock tls_sock fd procs exited again true fork
          (serves (counting (procs - exited - again)), 0)

-- As long as the server is not done every child that has ended is reaped and counted.
wait_proc-counting : (n e : ℕ) → e ≤ n → wait_proc (counting n) e ≡ (counting (n - e), 0)
unfolding wait_proc
wait_proc-counting n zero le = ap (λ k. (counting k, 0)) (omega arith)
wait_proc-counting n (suc e) le =
    wait_proc-counting (n - 1) e (omega arith) ∙ ap (λ k. (counting k, 0)) (omega arith)

connects :
    (http_sock tls_sock fd : ℕ)
    → external_port http_sock tls_sock fd ≡ true
    → (fd ≡ http_sock) ⊎ (fd ≡ tls_sock)
unfolding external_port
connects http_sock tls_sock fd e = elim (Bool-cases (fd == http_sock)) [
  | inl same ↦ inl (ground arith)
  | inr other ↦ inr (ground arith)
]

others :
    (http_sock tls_sock fd : ℕ)
    → external_port http_sock tls_sock fd ≡ false
    → (fd ≢ http_sock) × (fd ≢ tls_sock)
unfolding external_port
others http_sock tls_sock fd e = (λ q. ground arith, λ q. ground arith)

incoming-Polled :
    (http_sock tls_sock fd procs exited again : ℕ) (p : Bool) (fork : Fork)
    → (fd ≡ http_sock) ⊎ (fd ≡ tls_sock)
    → Polled http_sock tls_sock fd procs exited again p fork
        (incoming (counting (procs - exited)) fork, 0)
unfolding incoming
incoming-Polled http_sock tls_sock fd procs exited again p fork at_port =
    elim (dec_lt (procs - exited) max_procs) [
      | yes lt ↦
          let room : leb max_procs (procs - exited) ≡ false = ground arith in
          rw room (by_fork fork lt)
      | no ge ↦
          let none_more : leb max_procs (procs - exited) ≡ true = ground arith in
          rw none_more (full at_port (omega arith))
    ]
  where
    by_fork :
        (f : Fork)
        → procs - exited < max_procs
        → Polled http_sock tls_sock fd procs exited again p f
            (forked f (counting (procs - exited + 1)), 0)
    by_fork child lt = becomes_child at_port lt
    by_fork parent lt = starts at_port lt
    by_fork failed lt = fails at_port lt

branches :
    (http_sock tls_sock fd procs exited again : ℕ) (a b : Bool) (fork : Fork)
    → external_port http_sock tls_sock fd ≡ a
    → Polled http_sock tls_sock fd procs exited again b fork (
        if a
        then (incoming (counting (procs - exited)) fork, 0)
        else if b
        then (serves (counting (procs - exited - again)), 0)
        else (serves (counting (procs - exited)), 0))
branches http_sock tls_sock fd procs exited again true b fork e =
    incoming-Polled http_sock tls_sock fd procs exited again b fork
      (connects http_sock tls_sock fd e)
branches http_sock tls_sock fd procs exited again false true fork e =
    let (h, t) = others http_sock tls_sock fd e in reaps h t
branches http_sock tls_sock fd procs exited again false false fork e =
    let (h, t) = others http_sock tls_sock fd e in reloads h t

-- At an event of a server that is not done, with at least as many processes as have ended, these are reaped and
-- counted first. Then a connection on one of its two sockets is turned away at 200 processes, and else counted,
-- with the process going on as the server, as the child that handles it, or exiting, as `fork` ended; at an event
-- of a process those that have ended by then are reaped and counted as well; and any other event leaves the
-- server as it is.
pub server_poll-Polled :
    (http_sock tls_sock fd procs exited again : ℕ) (of_process : Bool) (fork : Fork)
    → exited + again ≤ procs
    → Polled http_sock tls_sock fd procs exited again of_process fork
        (server_poll http_sock tls_sock fd of_process fork exited again (counting procs))
unfolding server_poll
server_poll-Polled http_sock tls_sock fd procs exited again of_process fork le =
    rw
      (
        wait_proc-counting procs exited (omega arith),
        wait_proc-counting (procs - exited) again (omega arith),
      )
      (branches http_sock tls_sock fd procs exited again (external_port http_sock tls_sock fd)
        of_process fork refl)
