-- ===== src/Context/Credentials.antt =====
-- context.cpp: the contexts that are made with credentials.
use wshttp.Prelude.{◌≡◌, ◌∙◌, refl, Bool, true, false, ◌&&◌, some, [], ◌∷◌, if◌then◌else◌, arith}
use wshttp.Prelude.Outcome.{ok, throw, runtime_error}
use wshttp.Context.{
  Creds, SslCtx, Answers, AppContext, tls_server_method, tls_client_method, new_ctx, common_flags,
  op_all, op_no_sslv2, op_no_sslv3, op_no_compression, op_no_session_resumption_on_renegotiation,
  op_single_ecdh_use, op_no_ticket, op_cipher_server_preference, init_inbound_with,
  init_outbound_with, init,
}

abbrev pub with_key_works : Answers → Bool
with_key_works a = a.ctx_made && (a.key_read && (a.certificate_read && a.key_checked))

-- The ends of a connection as the program means them: the server shows its key and certificate and
-- selects the protocol; both present the same credentials; the client verifies its peer; and both
-- have the options that refuse the old protocols, compression, tickets and resumption.
abbrev pub AreReady : Creds → AppContext → Type 0
AreReady c x =
    (x.inbound.method ≡ tls_server_method)
    × (x.outbound.method ≡ tls_client_method)
    × (x.inbound.key ≡ some c.keyfile)
    × (x.outbound.key ≡ some c.keyfile)
    × (x.inbound.certificate ≡ some c.certfile)
    × (x.outbound.certificate ≡ some c.certfile)
    × (x.inbound.selects_alpn ≡ true)
    × (x.outbound.verify_peer ≡ true)
    × (x.inbound.options
        ≡ op_all ∷ op_no_sslv2 ∷ op_no_sslv3 ∷ op_no_compression
          ∷ op_no_session_resumption_on_renegotiation ∷ op_single_ecdh_use ∷ op_no_ticket
          ∷ op_cipher_server_preference ∷ [])
    × (x.outbound.options
        ≡ op_all ∷ op_no_sslv2 ∷ op_no_sslv3 ∷ op_no_compression
          ∷ op_no_session_resumption_on_renegotiation ∷ op_single_ecdh_use ∷ op_no_ticket ∷ [])

abbrev server_ctx : Creds → SslCtx
server_ctx c = record (new_ctx tls_server_method) {
  options = common_flags (op_cipher_server_preference ∷ []);
  key = some c.keyfile;
  certificate = some c.certfile;
  selects_alpn = true;
}

abbrev client_ctx : Creds → SslCtx
client_ctx c = record (new_ctx tls_client_method) {
  options = common_flags [];
  verify_peer = true;
  key = some c.keyfile;
  certificate = some c.certfile;
}

init_inbound_with_lem :
    (a : Answers) (c : Creds)
    → init_inbound_with a c ≡ (if with_key_works a then ok (server_ctx c) else throw runtime_error)
unfolding init_inbound_with
init_inbound_with_lem a c = ground arith

init_outbound_with_lem :
    (a : Answers) (c : Creds)
    → init_outbound_with a c ≡ (if with_key_works a then ok (client_ctx c) else throw runtime_error)
unfolding init_outbound_with
init_outbound_with_lem a c = ground arith

init_branches :
    (i o : Answers) (c : Creds)
    → init i o (some c) ≡ (
        if with_key_works i && with_key_works o
        then ok (record { inbound = server_ctx c; outbound = client_ctx c })
        else throw runtime_error)
unfolding init
init_branches i o c = rw (init_inbound_with_lem i c, init_outbound_with_lem o c) (ground arith)

-- With credentials the contexts are made exactly when OpenSSL makes both, reads the key and the
-- certificate into each and finds that they match; else a runtime error is thrown. The context of
-- the server and that of the client then have their method, the credentials and exactly the options
-- of the source, the server selects the protocol and the client verifies its peer.
pub init_lem :
    (i o : Answers) (c : Creds)
    → ((with_key_works i && with_key_works o ≡ true)
        → (x : AppContext) × ((init i o (some c) ≡ ok x) × AreReady c x))
      × ((with_key_works i && with_key_works o ≡ false) → init i o (some c) ≡ throw runtime_error)
init_lem i o c = (
  λ good. (
    record { inbound = server_ctx c; outbound = client_ctx c },
    (
      init_branches i o c ∙ rw good refl,
      (refl, refl, refl, refl, refl, refl, refl, refl, refl, refl),
    ),
  ),
  λ bad. init_branches i o c ∙ rw bad refl,
)
