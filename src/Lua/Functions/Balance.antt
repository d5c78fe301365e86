-- ===== src/Lua/Functions/Balance.antt =====
-- lws.c: the functions that scripts call leave as many values as they say, but for three.
use jawas.Base.{[], ◌>>=◌, Option, none, some, ◌≡◌, ◌≢◌, refl, arith, Str}
use jawas.Lua.{Lua, IsStack, str2lua-height}
use jawas.Lua.Pages.{goes_on, jumps}
use jawas.Lua.Queries.Results.{query_lua-height}
use jawas.Requests.Building.{Made}
use jawas.Lua.Functions.{
  Function, exit, print, debug, error, use_file, include, cwd, header, param, now, query, encode,
  decode, md5sum, hmac1, base64, hex, rnd, post, socket, send, receive, parse, Surroundings, World,
  Call, run_function, cleared, answers,
}

module _ (lua : Lua) (laws : IsStack lua) {D : Type 0} (around : Surroundings lua D) where
  -- A function that returns has left as many values as it says; one that leaves the page, or does not
  -- end, returns none.
  abbrev pub IsBalanced : Call lua around → Type 0
  IsBalanced none = Unit
  IsBalanced (some (jumps r)) = Unit
  IsBalanced (some (goes_on (count, ((sc, s), db)))) = lua.get_top s ≡ count

  cleared_height : (s : lua.State) → lua.get_top (cleared lua around s) ≡ 0
  cleared_height s = omega (arith, laws.pop_height (lua.get_top s) s (omega arith))

  answers-IsBalanced : (r : Option Str) (w : World lua around) → IsBalanced (answers lua around r w)
  unfolding answers
  answers-IsBalanced none w = tt
  answers-IsBalanced (some r) ((sc, s), db) =
      omega (arith, str2lua-height lua laws r (cleared lua around s), cleared_height s)

  jumps-IsBalanced :
      (o : Option Made) (w : World lua around) → IsBalanced (o >>= λ req. some (jumps (0, w)))
  jumps-IsBalanced none w = tt
  jumps-IsBalanced (some req) w = tt

  -- Where Lua's stack keeps what its manual says of heights, every function of the table but `use`, `include` and
  -- `parse` that returns leaves exactly as many values on the stack as it says, whatever its arguments and whatever the
  -- database and the system answer.
  pub run_function-IsBalanced :
      (f : Function) (w : World lua around)
      → f ≢ use_file
      → f ≢ include
      → f ≢ parse
      → IsBalanced (run_function lua around f w)
  unfolding run_function
  run_function-IsBalanced exit ((sc, s), db) nu ni np = tt
  run_function-IsBalanced print ((sc, s), db) nu ni np = cleared_height s
  run_function-IsBalanced debug ((sc, s), db) nu ni np = cleared_height s
  run_function-IsBalanced error ((sc, s), db) nu ni np = cleared_height s
  run_function-IsBalanced use_file ((sc, s), db) nu ni np = absurd (nu refl)
  run_function-IsBalanced include ((sc, s), db) nu ni np = absurd (ni refl)
  run_function-IsBalanced cwd ((sc, s), db) nu ni np = answers-IsBalanced _ ((sc, s), db)
  run_function-IsBalanced header ((sc, s), db) nu ni np = answers-IsBalanced _ ((sc, s), db)
  run_function-IsBalanced param ((sc, s), db) nu ni np = answers-IsBalanced _ ((sc, s), db)
  run_function-IsBalanced now ((sc, s), db) nu ni np = answers-IsBalanced _ ((sc, s), db)
  run_function-IsBalanced query ((sc, s), db) nu ni np =
      (query_lua-height lua laws around.memory around.exec around.escape [] s db).0
  run_function-IsBalanced encode ((sc, s), db) nu ni np = answers-IsBalanced _ ((sc, s), db)
  run_function-IsBalanced decode ((sc, s), db) nu ni np = answers-IsBalanced _ ((sc, s), db)
  run_function-IsBalanced md5sum ((sc, s), db) nu ni np = answers-IsBalanced _ ((sc, s), db)
  run_function-IsBalanced hmac1 ((sc, s), db) nu ni np = answers-IsBalanced _ ((sc, s), db)
  run_function-IsBalanced base64 ((sc, s), db) nu ni np = answers-IsBalanced _ ((sc, s), db)
  run_function-IsBalanced hex ((sc, s), db) nu ni np = answers-IsBalanced _ ((sc, s), db)
  run_function-IsBalanced rnd ((sc, s), db) nu ni np = answers-IsBalanced _ ((sc, s), db)
  run_function-IsBalanced post ((sc, s), db) nu ni np = jumps-IsBalanced _ _
  run_function-IsBalanced socket ((sc, s), db) nu ni np =
      omega (arith, laws.push_pointer_height _ (cleared lua around s), cleared_height s)
  run_function-IsBalanced send ((sc, s), db) nu ni np =
      omega (arith, laws.push_number_height _ (cleared lua around s), cleared_height s)
  run_function-IsBalanced receive ((sc, s), db) nu ni np = answers-IsBalanced _ ((sc, s), db)
  run_function-IsBalanced parse ((sc, s), db) nu ni np = absurd (np refl)
