-- ===== src/Net/Tls.antt =====
-- src/net/ssl.c. OpenSSL is a parameter: whether it accepts a certificate file, a key file, and the two
-- together. Its contexts and objects are created; an object holds the descriptor it was given.
use httpserv.Prelude.{ℕ, Bool, not, Option, some, none, Bytes, if◌then◌else◌}
use httpserv.Net.{
  Run, Pointer, wild, to, certchains_block, privkey_block, ssl_shutdown, closed, ssl_freed,
  ctx_freed, pure, emit, deref, free, ◌>>=◌, ◌>>◌,
}

pub record OpenSsl : Type 0 where
  pub use_certificate : Bytes → Bool
  pub use_private_key : Bytes → Bool
  pub check_private_key : Bytes → Bytes → Bool

-- `httpserv_ssl_t`: the member `ssl` points to an object with a descriptor, the texts to copies of the
-- names of the files.
pub record Tls : Type 0 where
  pub ssl : Pointer (Option ℕ)
  pub certchains : Pointer Bytes
  pub privkey : Pointer Bytes

-- `httpserv_ssl_destroy`
unfoldable pub ssl_destroy : Tls → Run (Unit {0})
ssl_destroy t = do
  fd ← deref t.ssl
  emit ssl_shutdown
  emit (closed fd)
  free certchains_block t.certchains
  free privkey_block t.privkey
  emit ssl_freed
  emit ctx_freed

-- The members before `SSL_new`.
abbrev pub half_built : Bytes → Bytes → Tls
half_built key cert = record { ssl = wild; certchains = to cert; privkey = to key }

-- `httpserv_ssl_destroy(ssl); return NULL;`
unfoldable pub give_up : Tls → Run (Option Tls)
unfolding ssl_destroy
give_up t = do ssl_destroy t; pure none

-- `httpserv_ssl_init` with two file names.
pub ssl_init_files : OpenSsl → Bytes → Bytes → Run (Option Tls)
unfolding give_up
ssl_init_files o key cert =
    if not (o.use_certificate cert)
    then give_up (half_built key cert)
    else if not (o.use_private_key key)
    then give_up (half_built key cert)
    else if not (o.check_private_key key cert)
    then give_up (half_built key cert)
    else pure (some (record (half_built key cert) { ssl = to none }))

-- `httpserv_ssl_init`
unfoldable pub ssl_init : OpenSsl → Option Bytes → Option Bytes → Run (Option Tls)
unfolding ssl_init_files
ssl_init o (some key) (some cert) = ssl_init_files o key cert
ssl_init o key cert = pure none

-- `SSL_set_fd(t->ssl, fd)`
unfoldable pub set_fd : Tls → Option ℕ → Run Tls
set_fd t fd = do _ ← deref t.ssl; pure (record t { ssl = to fd })

-- `httpserv_ssl_init_conn`: the texts are never set.
unfoldable pub ssl_init_conn : Option ℕ → Tls
ssl_init_conn fd = record { ssl = to fd; certchains = wild; privkey = wild }
