-- ===== src/Methods.antt =====
-- methods.c: the handler that a method's name selects.
pub mod Dispatch
pub mod Get
pub mod Post
mod Tests
use jawas.Base.{
  ℕ, Bool, true, false, ◌&&◌, List, [], ◌∷◌, Option, none, some, ◌==◌, if◌then◌else◌, length, Bytes,
  codes,
}
use jawas.Str.{fncmp, inot_equal}

-- The handlers of the table.
pub data Handler : Type 0 where
  get_method : Handler
  post_method : Handler
  head_method : Handler
  options_method : Handler
  put_method : Handler
  delete_method : Handler
  trace_method : Handler

pub record MethodDispatch : Type 0 where
  pub name : Bytes
  pub handler : Handler

abbrev row : Bytes → Handler → MethodDispatch
row n h = record { name = n; handler = h }

-- The rows before the one with no name, where the search ends.
abbrev pub gdispatch : List MethodDispatch
gdispatch =
    row (codes "GET") get_method
    ∷ row (codes "POST") post_method
    ∷ row (codes "HEAD") head_method
    ∷ row (codes "OPTIONS") options_method
    ∷ row (codes "PUT") put_method
    ∷ row (codes "DELETE") delete_method
    ∷ row (codes "TRACE") trace_method
    ∷ []

-- `strncasecmp(a, b, n) == 0`, on texts of `n` bytes: in the C locale only the ASCII letters have two
-- cases.
unfoldable pub same_letters : Bytes → Bytes → ℕ → Bool
same_letters a b n = fncmp (some a) (some b) n inot_equal

-- The loop of `dispatch_method`.
pub find_method : List MethodDispatch → Bytes → Option Handler
unfolding same_letters
find_method [] method = none
find_method (r ∷ rest) method =
    let next = find_method rest method in
    if length r.name == length method && same_letters r.name method (length r.name)
    then some r.handler
    else next

-- What a request goes on with: the page, the form and then the page, or `error_handler` with a code.
pub data Action : Type 0 where
  get : Action
  post : Action
  refuse : ℕ → Action

-- The handlers that `NOT_IMPLEMENTED` declares answer with 405.
abbrev pub action_of : Handler → Action
action_of get_method = get
action_of post_method = post
action_of _ = refuse 405

abbrev pub action_or : Option Handler → Action
action_or none = refuse 400
action_or (some h) = action_of h

unfoldable pub dispatch_method : Bytes → Action
unfolding find_method
dispatch_method method = action_or (find_method gdispatch method)
