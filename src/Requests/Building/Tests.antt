-- ===== src/Requests/Building/Tests.antt =====
-- A request of a script: a run, and the instance of its theorem.
use jawas.Base.{
  if◌then◌else◌, false, [], ◌∷◌, none, some, ◌≡◌, refl, arith, codes, length, map, List, ◌>>=◌,
}
use jawas.Str.{icmp}
use jawas.Str.Fields.{name_field, skip_fields}
use jawas.Numbers.{str_int}
use jawas.Headers.{Headers, over}
use jawas.Headers.Print.{Field, slot_of}
use jawas.Sockets.{Socket, Write}
use jawas.Requests.{parse_host}
use jawas.Requests.Sending.{send_request}
use jawas.Requests.Building.{post_http, new_request}
use jawas.Requests.Building.Posted.{pair_of, made, reached, sent_contents, post_http-made}

abbrev accept : Write
accept n d = some (length d)

abbrev fresh : Socket
fresh = record { closed = false; calls = 0; sent = [] }

abbrev fields : List Field
fields = record { key = codes "A"; value = codes "b" } ∷ []

-- The port is that of the host, and TLS is asked for in the request and not in the connection.
https_runs :
    (post_http accept
        (λ h port ssl. if ssl then none else some (record fresh { calls = port }))
        (some (codes "https"))
        (some (codes "h:7"))
        none
        []
        none
        none
      >>= λ m. m.outgoing.socket >>= λ sc. some (if m.ssl then sc.calls else 0))
    ≡ some 7
unfolding post_http new_request send_request icmp parse_host name_field skip_fields str_int
https_runs = refl

post_http-made_example :
    (h : Headers) × (post_http accept
        (λ h port ssl. some fresh)
        (some (codes "http"))
        (some (codes "b.org:81"))
        (some (codes "/x"))
        (map pair_of fields)
        (some (codes "hi"))
        none
      ≡ some (
          reached accept
            (λ h port ssl. some fresh)
            (some fresh)
            (made
              (codes "b.org")
              (codes "/x")
              h
              (sent_contents (some (codes "hi")))
              81
              (icmp (some (codes "https")) (some (codes "http")))
              none)))
    × (over h ≡ map slot_of fields)
unfolding parse_host name_field skip_fields str_int
post_http-made_example =
    post_http-made accept (λ h port ssl. some fresh) (some (codes "http")) (some (codes "b.org:81"))
      (codes "b.org") (codes "/x") 81 fields (some (codes "hi")) none refl (omega arith)
