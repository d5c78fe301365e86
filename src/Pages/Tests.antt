-- ===== src/Pages/Tests.antt =====
-- The instance of the theorem on pages, for a picture, and a run of a page with a script.
use jawas.Base.{ℕ, false, [], none, some, ◌≡◌, refl, arith, length, codes, ◌>>=◌}
use jawas.Str.{ncmp}
use jawas.Format.{new_str}
use jawas.Headers.{new_headers, header_func, cache_control, date_field, content_type}
use jawas.Headers.Table.{new_headers-IsValid}
use jawas.Files.{File, file_path}
use jawas.Files.Segments.{parse_file}
use jawas.Index.{regular}
use jawas.Mime.{img_handler, lookup_mimetype}
use jawas.Sockets.{Socket, send_headers, write_chunk, write_to_socket, write_socket}
use jawas.Numbers.{hex_str}
use jawas.Status.{status_line, send_status}
use jawas.Lua.{Lua}
use jawas.Lua.Pages.{Scripts, jumps, run_lua_script}
use jawas.Pages.{Site, mimetype_handler, lws_page}
use jawas.Pages.Static.{IsPage, page_fields, mimetype_handler-IsPage}

abbrev no_lua : Lua
no_lua = record {
  State = ℕ;
  get_top = λ s. s;
  new_table = λ s. s;
  push_number = λ n s. s;
  push_string = λ t s. s;
  push_nil = λ s. s;
  push_pointer = λ a s. s;
  set_table = λ n s. s;
  pop = λ n s. s;
  string_at = λ i s. none;
  boolean_at = λ i s. none;
  pointer_at = λ i s. 0;
}

-- Every script leaves the page.
abbrev quits : Scripts no_lua
quits = record { begins = some 0; globals = 0; do_file = λ t p. p; eval = λ t p. jumps p }

abbrev site : Site
site = record {
  write = λ n d. some (length d);
  stat = λ p. regular;
  cwd = codes "/www";
  cache = [];
  now = codes "now";
  tomorrow = codes "later";
  lua = no_lua;
  scripts = quits;
}

abbrev fresh : Socket
fresh = record { closed = false; calls = 0; sent = [] }

abbrev picture : File
picture = record { name = codes "/www/a.png"; contents = codes "IMG" }

picture_type : (lookup_mimetype picture.name).handler ≡ img_handler
unfolding lookup_mimetype ncmp
picture_type = refl

mimetype_handler-IsPage_example :
    IsPage
      (page_fields site (λ n d. refl) picture)
      (codes "IMG")
      fresh
      (mimetype_handler site 4 none none (some picture) new_headers fresh)
unfolding new_headers
mimetype_handler-IsPage_example =
    mimetype_handler-IsPage site (λ n d. refl) fresh new_headers [] picture none none
      (λ e. cc (e, picture_type)) refl new_headers-IsValid (omega arith) refl

-- The script leaves the page, and the text behind it is not sent.
script_runs :
    (mimetype_handler site 4
        (some (codes "h"))
        none
        (some (record { name = codes "/a.lws"; contents = codes "ab<? exit() ?>c" }))
        new_headers
        fresh
      >>= λ a. some a.1.sent)
    ≡ some (
        codes
          "HTTP/1.1 200 OK\r\nContent-Type: text/html\r\nCache-Control: max-age=0, no-cache\r\nDate: now\r\n\r\n2\r\nab\r\n")
unfolding mimetype_handler lookup_mimetype ncmp new_headers header_func content_type cache_control
    date_field send_status status_line new_str send_headers write_to_socket write_chunk hex_str
    file_path parse_file lws_page run_lua_script write_socket
script_runs = refl
