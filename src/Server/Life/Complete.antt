-- ===== src/Server/Life/Complete.antt =====
-- Calls that set a server up and return.
use httpserv.Prelude.{
  ℕ, ◌≡◌, refl, ◌∙◌, Bool, true, false, ◌&&◌, List, [], ◌∷◌, ◌++◌, Option, some, none, Bytes, arith,
  ap,
}
use httpserv.Net.{Run, Event, endless, undefined, returns, after, ◌>>=◌}
use httpserv.Net.Tls.{OpenSsl}
use httpserv.Net.Connector.{ssl, sck_conn, ssl_conn}
use httpserv.Router.{Route}
use httpserv.Resource.{Loader}
use httpserv.Server.Life.{
  AddrKind, Sockets, Server, server_new, use_ssl, add_router, add_resource_loader, destroy,
}
use httpserv.Server.Life.Ownership.{
  closings, opened, secured, Setup, tls, routes, resources, setup_one, setup, Created,
  server_new-Created, setup-none,
}
use httpserv.Server.Life.End.{server_life}

module _ {Regex : Type 0} where
  -- At most one of the calls is for TLS, with files that OpenSSL accepts.
  abbrev pub Allowed : OpenSsl → Bool → List (Setup Regex) → Type 0
  Allowed o plain [] = Unit
  Allowed o plain (routes rs ∷ ops) = Allowed o plain ops
  Allowed o plain (resources l ∷ ops) = Allowed o plain ops
  Allowed o true (tls (some key) (some cert) ∷ ops) =
      ((o.use_certificate cert && o.use_private_key key && o.check_private_key key cert) ≡ true)
      × Allowed o false ops
  Allowed o plain (tls key cert ∷ ops) = ⊥

  -- The server still has its socket without TLS.
  abbrev IsPlain : ℕ → Bool → Server Regex → Type 0
  IsPlain fd true s = s.conn ≡ sck_conn (some fd)
  IsPlain fd false s = Unit

  use_ssl-accepted :
      (o : OpenSsl) (fd : ℕ) (s : Server Regex) (key cert : Bytes)
      → (o.use_certificate cert && o.use_private_key key && o.check_private_key key cert) ≡ true
      → s.conn ≡ sck_conn (some fd)
      → use_ssl o (some s) (some key) (some cert)
        ≡ returns (some (record s { ckind = ssl; conn = ssl_conn (some (secured fd key cert)) })) []
  unfolding use_ssl
  use_ssl-accepted o fd s key cert h plain = rw plain (ground arith)

  -- Routes and resources leave the connector as it is.
  IsPlain-set :
      (fd : ℕ) (plain : Bool) (s : Server Regex) (rs : Option (List (Route Regex)))
      (l : Option Loader)
      → IsPlain fd plain s
      → IsPlain fd plain (record s { router = rs; resload = l })
  IsPlain-set fd true s rs l p = p
  IsPlain-set fd false s rs l p = p

  -- The result of a setup that returns a server without an effect.
  abbrev Sets : OpenSsl → List (Setup Regex) → Server Regex → Type 0
  Sets o ops s = (s' : Server Regex) × (setup o ops (some s) ≡ returns (some s') [])

  setup-cons :
      (o : OpenSsl) (op : Setup Regex) (ops : List (Setup Regex)) (s s1 : Server Regex)
      → setup_one o op (some s) ≡ returns (some s1) []
      → Sets o ops s1
      → Sets o (op ∷ ops) s
  setup-cons o op ops s s1 one (s2, more) =
      (s2, ap (λ r. r >>= setup o ops) one ∙ ap (after []) more)

  setup-Allowed :
      (o : OpenSsl) (fd : ℕ) (plain : Bool) (ops : List (Setup Regex)) (s : Server Regex)
      → Allowed o plain ops
      → IsPlain fd plain s
      → Sets o ops s
  unfolding add_router add_resource_loader
  setup-Allowed o fd plain [] s a p = (s, refl)
  setup-Allowed o fd plain (routes rs ∷ ops) s a p =
      setup-cons o (routes rs) ops s (record s { router = rs }) refl
        (setup-Allowed o fd plain ops (record s { router = rs }) a
          (IsPlain-set fd plain s rs s.resload p))
  setup-Allowed o fd plain (resources l ∷ ops) s a p =
      setup-cons o (resources l) ops s (record s { resload = l }) refl
        (setup-Allowed o fd plain ops (record s { resload = l }) a
          (IsPlain-set fd plain s s.router l p))
  setup-Allowed o fd true (tls (some key) (some cert) ∷ ops) s a p =
      setup-cons o (tls (some key) (some cert)) ops s
        (record s { ckind = ssl; conn = ssl_conn (some (secured fd key cert)) })
        (use_ssl-accepted o fd s key cert a.0 p)
        (setup-Allowed o fd false ops
          (record s { ckind = ssl; conn = ssl_conn (some (secured fd key cert)) }) a.1 tt)
  setup-Allowed o fd plain (tls key cert ∷ ops) s a p = absurd a

  Created-Allowed :
      (o : OpenSsl) (ops : List (Setup Regex)) (fds : List (Option ℕ))
      (r : Run (Option (Server Regex)))
      → Allowed o true ops
      → Created fds r
      → (s : Option (Server Regex)) × (es : List Event) × ((r >>= setup o ops) ≡ returns s es)
  Created-Allowed o ops fds (returns none es) a c = (none, es ++ [], rw (setup-none o ops) refl)
  Created-Allowed o ops fds (returns (some s) es) a c =
      let (fd, _, _, _, plain) = c in
      let (s', sets) = setup-Allowed o fd true ops s a plain in
      (some s', es ++ [], ap (after es) sets)
  Created-Allowed o ops fds endless a c = absurd c
  Created-Allowed o ops fds undefined a c = absurd c

  -- For any address and port, and any list of calls that set up routes, resources and TLS, this at
  -- most once and with files that OpenSSL accepts: creation and setup return a server or NULL, the
  -- destruction of it returns too, and altogether just the socket that was opened is closed, once;
  -- if no socket was opened nothing is closed.
  pub server_life_complete :
      (sys : Sockets) (o : OpenSsl) (ip : Bytes) (port : ℕ) (akind : AddrKind)
      (ops : List (Setup Regex))
      → Allowed o true ops
      → (s : Option (Server Regex)) × (es : List Event) × (gs : List Event) × ((server_new sys ip
              port akind
            >>= setup o ops)
          ≡ returns s es)
        × (destroy s ≡ returns tt gs)
        × (closings (es ++ gs) ≡ opened sys ip akind)
  server_life_complete sys o ip port akind ops a =
      let (s, es, done) =
        Created-Allowed o ops (opened sys ip akind) (server_new sys ip port akind) a
          (server_new-Created Regex sys ip port akind) in
      let (gs, ends, once) = server_life sys o ip port akind ops done in
      (s, es, gs, done, ends, once)
