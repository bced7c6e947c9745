-- ===== src/Tests/Services.antt =====
-- The contexts, the DNS server and the logger (context.cpp, dns.cpp, format.cpp).
use wshttp.Prelude.{ℕ, String, ◌≡◌, ◌&&◌, true, false, none, some, List, [], ◌∷◌}
use wshttp.Prelude.Outcome.{ok, throw, runtime_error, null_access}
use wshttp.Context.{Answers, Creds, AppContext, init}
use wshttp.Context.Credentials.{with_key_works, AreReady, init_lem}
use wshttp.Dns.{
  Question, Request, class_inet, aaaa, soa, cname, aaaa_reply, a_reply, respond, drop, main_lookup,
  server_cb, server_cb_lem,
}

abbrev good : Answers
good = record {
  ctx_made = true;
  paths_set = true;
  key_read = true;
  certificate_read = true;
  key_checked = true;
}

abbrev creds : Creds
creds = record { keyfile = "key.pem"; certfile = "cert.pem" }

init_lem_example :
    ((with_key_works good && with_key_works good ≡ true)
      → (x : AppContext) × ((init good good (some creds) ≡ ok x) × AreReady creds x))
    × ((with_key_works good && with_key_works good ≡ false)
        → init good good (some creds) ≡ throw runtime_error)
init_lem_example = init_lem good good creds

abbrev questions : List Question
questions =
    record { name = "a.test"; type = aaaa; dns_question_class = class_inet }
    ∷ record { name = "b.test"; type = soa; dns_question_class = class_inet }
    ∷ record { name = "c.test"; type = cname; dns_question_class = class_inet }
    ∷ []

-- Any text for a number will do here.
abbrev dec : ℕ → String
dec n = "0"

abbrev request : Request
request = record { flags = 0; questions = questions }

server_cb_lem_example :
    (server_cb dec false (some request)
      ≡ ok (aaaa_reply "a.test" 1 10 ∷ a_reply "c.test" 1 10 ∷ respond ∷ drop ∷ []))
    × (server_cb dec false none ≡ throw null_access)
unfolding main_lookup
server_cb_lem_example = server_cb_lem dec false request
