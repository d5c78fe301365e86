-- ===== src/Usage.antt =====
-- usage.c: the time that requests take, and its average over at most a thousand of them. An `int` is its
-- bit pattern, and so is a field of a `struct timeval` with 64 bits.
pub mod Average
mod Tests
use jawas.Base.{
  ℕ, ◌+◌, ◌-◌, ◌*◌, ◌/◌, ◌%◌, ◌^◌, ◌≤◌, ◌<◌, Bool, true, false, Option, none, some, ltb,
  if◌then◌else◌, ◌≡◌, refl, arith, ap, sym, ◌∙◌,
}
use jawas.Numbers.{int_mod, negate}

-- A `struct timeval`.
pub record Timeval : Type 0 where
  pub sec : ℕ
  pub usec : ℕ

-- The fields of a `struct rusage` that are read: the user's and the system's time.
pub record Rusage : Type 0 where
  pub utime : Timeval
  pub stime : Timeval

pub record Usage : Type 0 where
  pub start : Rusage
  pub end_ : Rusage
  pub requests : ℕ
  pub hits : ℕ
  pub time : ℕ

abbrev size_mod : ℕ
size_mod = 2 ^ 64

abbrev minus_size : ℕ → ℕ → ℕ
minus_size a b = (a + size_mod - b) % size_mod

unfoldable pub timediff : Timeval → Timeval → ℕ
timediff tva tvb =
    let sec = minus_size tva.sec tvb.sec in
    let usec = minus_size tva.usec tvb.usec in (sec * 2 ^ 20 + usec) % size_mod % int_mod

-- Division of an `int` by a positive one, towards zero.
abbrev pub int_div : ℕ → ℕ → ℕ
int_div x n = if ltb x 2147483648 then x / n else negate (negate x / n)

abbrev zero_time : Timeval
zero_time = record { sec = 0; usec = 0 }

-- `reserve` gives memory that is all zero.
unfoldable pub new_usage : Usage
new_usage =
    let none_yet : Rusage = record { utime = zero_time; stime = zero_time } in
    record { start = none_yet; end_ = none_yet; requests = 0; hits = 0; time = 0 }

-- What `getrusage` fills in; `none` is an error, which leaves the field as it was.
abbrev pub filled : Option Rusage → Rusage → Rusage
filled none old = old
filled (some now) old = now

unfoldable pub start_usage : Option Rusage → Usage → Usage
start_usage now u = record u { start = filled now u.start }

-- The time between start and end.
unfoldable pub elapsed : Usage → ℕ
unfolding timediff
elapsed u = (timediff u.end_.utime u.start.utime + timediff u.end_.stime u.start.stime) % int_mod

abbrev pub ended : Option Rusage → Usage → Usage
ended now u = record u { end_ = filled now u.end_ }

unfoldable pub stop_usage : Option Rusage → Usage → Usage
unfolding elapsed
stop_usage now u =
    let delta = elapsed (ended now u) in
    let hits = if ltb u.hits 1000 then u.hits + 1 else u.hits in
    record u {
      end_ = filled now u.end_;
      requests = (u.requests + 1) % int_mod;
      hits = hits;
      time = int_div (((hits - 1) * u.time + delta) % int_mod) hits;
    }
