-- ===== src/Pages.antt =====
-- script.c, image.c, lws.c (`lws_handler`) and mime.c (`mimetype_handler`): how a file of the cache is
-- sent as the page of an answer.
pub mod Static
mod Tests
use jawas.Base.{ℕ, Bool, Option, none, some, Bytes, Str, codes, ◌>>=◌}
use jawas.Headers.{Headers, cache_control, date_field, expires, content_type}
use jawas.Files.{File, Cache}
use jawas.Index.{Stat}
use jawas.Mime.{Handler, script_handler, img_handler, lws_handler, lookup_mimetype}
use jawas.Sockets.{Socket, Write, send_headers}
use jawas.Status.{send_status}
use jawas.Status.Errors.{send_file, Outcome, error_handler}
use jawas.Lua.{Lua}
use jawas.Lua.Pages.{Scripts, run_lua_script}

-- What an answer takes from outside the program: the system calls, the clock in the format of `Date`,
-- for now and for a day later, and Lua; with the working directory and the cache of the server.
pub record Site : Type 1 where
  pub write : Write
  pub stat : Stat
  pub cwd : Bytes
  pub cache : Cache
  pub now : Bytes
  pub tomorrow : Bytes
  pub lua : Lua
  pub scripts : Scripts lua

-- The status that a handler returns, and the socket of the client.
abbrev pub Answered : Type 0
Answered = ℕ × Socket

abbrev pub refused : Outcome → Answered
refused out = (out.status, out.socket)

module _ (site : Site) where
  -- The status line and the fields, and the socket behind them.
  unfoldable pub send_head : Headers → Socket → Option Socket
  send_head headers sc = send_status site.write sc 200 >>= λ (_, sc₁).
      some (send_headers site.write sc₁ (some headers)).1

  -- `script_handler`; `none` is a loop that has not ended within the fuel.
  unfoldable pub script_page : ℕ → File → Headers → Socket → Option Answered
  unfolding send_head
  script_page fuel fc headers sc =
      send_head headers sc >>= λ sc₁. send_file site.write fuel sc₁ fc 0 >>= λ sc₂. some (200, sc₂)

  -- `img_handler`. The field `Range` is only written to the log.
  unfoldable pub img_page : ℕ → File → Headers → Socket → Option Answered
  unfolding send_head
  img_page fuel fc headers sc = cache_control headers (codes "max-age=86400, public") >>= λ h₁.
      date_field h₁ site.now >>= λ h₂. expires h₂ site.tomorrow >>= λ h₃.
      send_head h₃ sc >>= λ sc₁. send_file site.write fuel sc₁ fc 0 >>= λ sc₂. some (200, sc₂)

  -- `lws_handler`.
  unfoldable pub lws_page : Str → Option Headers → File → Headers → Socket → Option Answered
  unfolding send_head
  lws_page host query_vars fc headers sc =
      cache_control headers (codes "max-age=0, no-cache") >>= λ h₁. date_field h₁ site.now >>= λ h₂.
      send_head h₂ sc >>= λ sc₁.
      run_lua_script site.lua site.write site.scripts site.cwd host fc query_vars sc₁ >>= λ sc₂.
      some (200, sc₂)

  -- `fc->mime->handler(fc)`.
  unfoldable pub handle :
      Handler → ℕ → Str → Option Headers → File → Headers → Socket → Option Answered
  handle script_handler fuel host query_vars fc headers sc = script_page fuel fc headers sc
  handle img_handler fuel host query_vars fc headers sc = img_page fuel fc headers sc
  handle lws_handler fuel host query_vars fc headers sc = lws_page host query_vars fc headers sc

  unfoldable pub mimetype_handler :
      ℕ → Str → Option Headers → Option File → Headers → Socket → Option Answered
  unfolding handle
  mimetype_handler fuel host query_vars none headers sc =
      error_handler site.write site.cwd site.cache fuel 404 sc (some headers) >>= λ out.
      some (refused out)
  mimetype_handler fuel host query_vars (some fc) headers sc =
      let mime = lookup_mimetype fc.name in
      content_type headers mime.name >>= λ h. handle mime.handler fuel host query_vars fc h sc
