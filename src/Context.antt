-- ===== src/Context.antt =====
-- include/wshttp/context.hpp and src/context.cpp: the two TLS contexts of an endpoint. What OpenSSL
-- answers is the argument `Answers`.
pub mod Credentials
use wshttp.Prelude.{
  ℕ, ◌≡◌, ◌∙◌, refl, String, Bool, true, false, not, ◌&&◌, ◌||◌, Option, none, some, List, [], ◌∷◌,
  ◌==◌, nat_eq, string_eq, if◌then◌else◌, arith,
}
use wshttp.Prelude.Outcome.{
  Result, ok, throw, runtime_error, invalid_argument, ◌>>=◌, ◌>>◌, require,
}

-- `ssl_creds`
pub record Creds : Type 0 where
  pub keyfile : String
  pub certfile : String

unfoldable pub make_creds : String → String → Result Creds
make_creds keyfile certfile =
    if keyfile == "" || certfile == ""
    then throw invalid_argument
    else ok (record { keyfile = keyfile; certfile = certfile })

-- The options that the program sets.
pub data Flag : Type 0 where
  op_all op_no_sslv2 op_no_sslv3 op_no_compression op_no_session_resumption_on_renegotiation : Flag
  op_single_ecdh_use op_no_ticket op_cipher_server_preference : Flag

pub data Method : Type 0 where
  tls_server_method tls_client_method : Method

-- An `SSL_CTX`: what the program configures in it.
pub record SslCtx : Type 0 where
  pub method : Method
  pub options : List Flag
  pub system_paths : Bool
  pub verify_peer : Bool
  pub key : Option String
  pub certificate : Option String
  pub selects_alpn : Bool

-- What OpenSSL answers while one context is set up.
pub record Answers : Type 0 where
  pub ctx_made : Bool
  pub paths_set : Bool
  pub key_read : Bool
  pub certificate_read : Bool
  pub key_checked : Bool

-- `SSL_CTX_new`
abbrev pub new_ctx : Method → SslCtx
new_ctx method = record {
  method = method;
  options = [];
  system_paths = false;
  verify_peer = false;
  key = none;
  certificate = none;
  selects_alpn = false;
}

abbrev pub common_flags : List Flag → List Flag
common_flags more =
    op_all ∷ op_no_sslv2 ∷ op_no_sslv3 ∷ op_no_compression
    ∷ op_no_session_resumption_on_renegotiation ∷ op_single_ecdh_use ∷ op_no_ticket ∷ more

-- `_init_inbound()`
unfoldable pub init_inbound : Answers → Result SslCtx
init_inbound a = do
  require a.ctx_made runtime_error
  require a.paths_set runtime_error
  ok (record (new_ctx tls_server_method) { system_paths = true; verify_peer = true })

-- `_init_inbound(_keyfile, _certfile)`
unfoldable pub init_inbound_with : Answers → Creds → Result SslCtx
init_inbound_with a c = do
  require a.ctx_made runtime_error
  require a.key_read runtime_error
  require a.certificate_read runtime_error
  require a.key_checked runtime_error
  ok (record (new_ctx tls_server_method) {
    options = common_flags (op_cipher_server_preference ∷ []);
    key = some c.keyfile;
    certificate = some c.certfile;
    selects_alpn = true;
  })

-- `_init_outbound()`
unfoldable pub init_outbound : Answers → Result SslCtx
init_outbound a = do
  require a.ctx_made runtime_error
  require a.paths_set runtime_error
  ok (record (new_ctx tls_client_method) {
    options = common_flags [];
    system_paths = true;
    verify_peer = true;
  })

-- `_init_outbound(_keyfile, _certfile)`
unfoldable pub init_outbound_with : Answers → Creds → Result SslCtx
init_outbound_with a c = do
  require a.ctx_made runtime_error
  require a.key_read runtime_error
  require a.certificate_read runtime_error
  require a.key_checked runtime_error
  ok (record (new_ctx tls_client_method) {
    options = common_flags [];
    verify_peer = true;
    key = some c.keyfile;
    certificate = some c.certfile;
  })

pub record AppContext : Type 0 where
  pub inbound : SslCtx
  pub outbound : SslCtx

-- `_init()`, and so the constructor; `i` and `o` are the answers for the two contexts.
unfoldable pub init : (i o : Answers) → Option Creds → Result AppContext
unfolding init_inbound init_outbound init_inbound_with init_outbound_with
init i o none = do
  inbound ← init_inbound i
  outbound ← init_outbound o
  ok (record { inbound = inbound; outbound = outbound })
init i o (some c) = do
  inbound ← init_inbound_with i c
  outbound ← init_outbound_with o c
  ok (record { inbound = inbound; outbound = outbound })

-- What the ALPN callback answers OpenSSL; the argument is what `nghttp2_select_alpn` returns, which
-- is −1 where the client offers no protocol that it knows, 0 for http/1.1 and 1 for h2.
pub data AlpnAnswer : Type 0 where
  noack selected : AlpnAnswer

unfoldable pub server_select_alpn_proto_cb : Option ℕ → AlpnAnswer
server_select_alpn_proto_cb none = noack
server_select_alpn_proto_cb (some rv) = if not (rv == 1) then noack else selected
