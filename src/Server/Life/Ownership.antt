-- ===== src/Server/Life/Ownership.antt =====
-- Which descriptor and blocks a server owns, from its creation to its end.
use httpserv.Prelude.{
  ℕ, ◌≡◌, refl, ap, true, false, ◌&&◌, List, [], ◌∷◌, ◌++◌, Option, some, none, Bytes, arith, ◌⊎◌,
  inl, inr, Bool-cases, if◌then◌else◌,
}
use httpserv.Net.{
  Run, Event, Block, wrote, closed, freed, ssl_shutdown, ssl_freed, ctx_freed, pool_destroyed, to,
  endless, undefined, returns, after, pure, ◌>>=◌,
}
use httpserv.Net.Tls.{OpenSsl, Tls}
use httpserv.Net.Connector.{Kind, ssl, sck, Conn, sck_conn, ssl_conn}
use httpserv.Router.{Route}
use httpserv.Resource.{Loader}
use httpserv.Server.Life.{
  AddrKind, Sockets, Server, server_new, open_socket, bind_server, fresh, use_ssl, add_router,
  add_resource_loader,
}

-- The descriptors that are closed and the blocks that are freed by name, in order.
abbrev pub closings : List Event → List (Option ℕ)
closings [] = []
closings (closed fd ∷ es) = fd ∷ closings es
closings (_ ∷ es) = closings es

abbrev pub freeings : List Event → List Block
freeings [] = []
freeings (freed b ∷ es) = b ∷ freeings es
freeings (_ ∷ es) = freeings es

pub closings-append : (es fs : List Event) → closings (es ++ fs) ≡ closings es ++ closings fs
closings-append [] fs = refl
closings-append (closed fd ∷ es) fs = ap (◌∷◌ fd) (closings-append es fs)
closings-append (wrote fd b ∷ es) fs = closings-append es fs
closings-append (ssl_shutdown ∷ es) fs = closings-append es fs
closings-append (ssl_freed ∷ es) fs = closings-append es fs
closings-append (ctx_freed ∷ es) fs = closings-append es fs
closings-append (pool_destroyed ∷ es) fs = closings-append es fs
closings-append (freed b ∷ es) fs = closings-append es fs

-- The calls between the creation of a server and its end or its run.
pub data Setup (Regex : Type 0) : Type 0 where
  tls : Option Bytes → Option Bytes → Setup Regex
  routes : Option (List (Route Regex)) → Setup Regex
  resources : Option Loader → Setup Regex

-- The texts of an object for TLS on a descriptor.
abbrev pub secured : ℕ → Bytes → Bytes → Tls
secured fd key cert = record { ssl = to (some fd); certchains = to cert; privkey = to key }

-- The connector and its kind for a socket, without TLS and with it.
abbrev pub Holds : ℕ → Conn → Kind → Type 0
Holds fd conn kind =
    ((conn ≡ sck_conn (some fd)) × (kind ≡ sck))
    ⊎ ((key : Bytes) × (cert : Bytes) × (conn ≡ ssl_conn (some (secured fd key cert)))
        × (kind ≡ ssl))

-- The sockets that a creation opens.
abbrev pub opened : Sockets → Bytes → AddrKind → List (Option ℕ)
opened sys ip akind =
    if sys.inet_pton akind ip
    then elim (sys.socket akind) [ none ↦ [] | some fd ↦ some fd ∷ [] ]
    else []

module _ {Regex : Type 0} where
  abbrev pub setup_one : OpenSsl → Setup Regex → Option (Server Regex) → Run (Option (Server Regex))
  setup_one o (tls key cert) s = use_ssl o s key cert
  setup_one o (routes rs) s = pure (add_router s rs)
  setup_one o (resources l) s = pure (add_resource_loader s l)

  abbrev pub setup :
      OpenSsl → List (Setup Regex) → Option (Server Regex) → Run (Option (Server Regex))
  setup o [] s = pure s
  setup o (op ∷ ops) s = do s' ← setup_one o op s; setup o ops s'

  -- A server that does not run, with its connector for the socket.
  pub record Owns (fd : ℕ) (s : Server Regex) : Type 0 where
    pub holds : Holds fd s.conn s.ckind
    pub idle : s.alive ≡ false

  -- If OpenSSL accepts not both files, or not the two together, setting a server up for TLS reads a
  -- pointer that was never set, and so does not report an error.
  pub use_ssl-rejected :
      (o : OpenSsl) (s : Server Regex) (key cert : Bytes)
      → (o.use_certificate cert && o.use_private_key key && o.check_private_key key cert) ≡ false
      → use_ssl o (some s) (some key) (some cert) ≡ undefined
  unfolding use_ssl
  use_ssl-rejected o s key cert h = ground arith

  -- How a creation ends that opened these: with a server that owns the one socket, or with NULL after
  -- they are closed.
  abbrev pub Created : List (Option ℕ) → Run (Option (Server Regex)) → Type 0
  Created fds (returns (some s) es) =
      (fd : ℕ) × (fds ≡ some fd ∷ []) × (es ≡ []) × Owns fd s × (s.conn ≡ sck_conn (some fd))
  Created fds (returns none es) = closings es ≡ fds
  Created fds _ = ⊥

open_socket-Created :
    (Regex : Type 0) (sys : Sockets) (ip : Bytes) (port : ℕ) (akind : AddrKind) (sock : Option ℕ)
    → Created
        (elim sock [ none ↦ [] | some fd ↦ some fd ∷ [] ])
        (open_socket {Regex = Regex} sys ip port akind sock)
unfolding open_socket
open_socket-Created Regex sys ip port akind none = refl
open_socket-Created Regex sys ip port akind (some fd) =
    elim (Bool-cases (sys.bind fd akind ip port)) [
      | inl bound ↦
          rw bound (fd, refl, refl, record { holds = inl (refl, refl); idle = refl }, refl)
      | inr busy ↦ rw busy refl
    ]

pub server_new-Created :
    (Regex : Type 0) (sys : Sockets) (ip : Bytes) (port : ℕ) (akind : AddrKind)
    → Created (opened sys ip akind) (server_new {Regex = Regex} sys ip port akind)
unfolding server_new
server_new-Created Regex sys ip port akind = elim (Bool-cases (sys.inet_pton akind ip)) [
  | inl parses ↦ rw parses (open_socket-Created Regex sys ip port akind (sys.socket akind))
  | inr wrong ↦ rw wrong refl
]

module _ {Regex : Type 0} where
  -- What a call of the setup leaves, if it returns.
  abbrev pub Kept : ℕ → Run (Option (Server Regex)) → Type 0
  Kept fd (returns (some s) es) = (es ≡ []) × Owns fd s
  Kept fd (returns none es) = ⊥
  Kept fd _ = Unit

  use_ssl-Kept :
      (o : OpenSsl) (fd : ℕ) (s : Server Regex) (key cert : Option Bytes)
      → Owns fd s
      → Kept fd (use_ssl o (some s) key cert)
  unfolding use_ssl
  use_ssl-Kept o fd s none cert h = ground (arith, h.holds)
  use_ssl-Kept o fd s (some key) none h = ground (arith, h.holds)
  use_ssl-Kept o fd s (some key) (some cert) h = ground (arith, h.holds)

  pub Kept-after : (fd : ℕ) (r : Run (Option (Server Regex))) → Kept fd r → Kept fd (after [] r)
  Kept-after fd (returns (some s) es) k = k
  Kept-after fd (returns none es) k = k
  Kept-after fd endless k = k
  Kept-after fd undefined k = k

  setup_one-Kept :
      (o : OpenSsl) (fd : ℕ) (op : Setup Regex) (s : Server Regex)
      → Owns fd s
      → Kept fd (setup_one o op (some s))
  unfolding add_router add_resource_loader
  setup_one-Kept o fd (tls key cert) s h = use_ssl-Kept o fd s key cert h
  setup_one-Kept o fd (routes rs) s h = (refl, record { holds = h.holds; idle = h.idle })
  setup_one-Kept o fd (resources l) s h = (refl, record { holds = h.holds; idle = h.idle })

  pub setup-Kept :
      (o : OpenSsl) (fd : ℕ) (ops : List (Setup Regex)) (s : Server Regex)
      → Owns fd s
      → Kept fd (setup o ops (some s))
  setup-Kept o fd [] s h = (refl, h)
  setup-Kept o fd (op ∷ ops) s h =
      (elim (setup_one o op (some s)) as (λ r. Kept fd r → Kept fd (r >>= setup o ops)) [
        | returns none es ↦ λ k. absurd k
        | returns (some s') es ↦
            λ k. rw k.0 (Kept-after fd (setup o ops (some s')) (setup-Kept o fd ops s' k.1))
        | endless ↦ λ k. tt
        | undefined ↦ λ k. tt
      ])
        (setup_one-Kept o fd op s h)

  pub setup-none : (o : OpenSsl) (ops : List (Setup Regex)) → setup o ops none ≡ pure none
  unfolding use_ssl add_router add_resource_loader
  setup-none o [] = refl
  setup-none o (tls key cert ∷ ops) = rw (setup-none o ops)
  setup-none o (routes rs ∷ ops) = rw (setup-none o ops)
  setup-none o (resources l ∷ ops) = rw (setup-none o ops)

-- A creation in which every call on the socket succeeds.
pub server_new-fresh :
    (Regex : Type 0) (sys : Sockets) (ip : Bytes) (port : ℕ) (akind : AddrKind) (fd : ℕ)
    → sys.inet_pton akind ip ≡ true
    → sys.socket akind ≡ some fd
    → sys.bind fd akind ip port ≡ true
    → server_new {Regex = Regex} sys ip port akind
      ≡ returns (some (fresh ip port akind (some fd))) []
unfolding server_new bind_server fresh
server_new-fresh Regex sys ip port akind fd parses opens binds =
    rw (parses, opens, open_socket, binds) refl
