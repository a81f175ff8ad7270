-- ===== src/Server/Life/End.antt =====
-- The end of a server, and its life from the creation on.
use httpserv.Prelude.{
  ℕ, ◌≡◌, refl, Bool, true, false, List, [], ◌∷◌, ◌++◌, Option, some, none, Bytes, inl, inr, ◌∙◌,
  append-nil, Bool-cases,
}
use mathlib.Core.Path.{subst}
use httpserv.Net.{
  Run, Event, conn_block, addr_block, ip_block, server_block, certchains_block, privkey_block,
  closed, freed, ssl_shutdown, ssl_freed, ctx_freed, pool_destroyed, endless, undefined, returns,
  after, ◌>>=◌,
}
use httpserv.Net.Tls.{OpenSsl}
use httpserv.Net.Connector.{Kind, ssl, sck}
use httpserv.Server.Life.{AddrKind, Sockets, Server, server_new, destroy}
use httpserv.Server.Life.Ownership.{
  closings, closings-append, opened, Setup, setup, Owns, Created, server_new-Created, Kept,
  Kept-after, setup-Kept, setup-none,
}

abbrev pub last_ends : Bool → List Event
last_ends true = pool_destroyed ∷ freed addr_block ∷ freed ip_block ∷ freed server_block ∷ []
last_ends false = freed addr_block ∷ freed ip_block ∷ freed server_block ∷ []

-- What the end of a server does.
abbrev pub ends : ℕ → Kind → Bool → List Event
ends fd sck tp = closed (some fd) ∷ freed conn_block ∷ last_ends tp
ends fd ssl tp =
    ssl_shutdown
    ∷ closed (some fd)
    ∷ freed certchains_block
    ∷ freed privkey_block
    ∷ ssl_freed
    ∷ ctx_freed
    ∷ freed conn_block
    ∷ last_ends tp

pub closings-ends : (fd : ℕ) (kind : Kind) (tp : Bool) → closings (ends fd kind tp) ≡ some fd ∷ []
closings-ends fd sck true = refl
closings-ends fd sck false = refl
closings-ends fd ssl true = refl
closings-ends fd ssl false = refl

module _ {Regex : Type 0} where
  pub destroy-Owns :
      (fd : ℕ) (s : Server Regex) → Owns fd s → destroy (some s) ≡ returns tt (ends fd s.ckind s.tp)
  unfolding destroy
  destroy-Owns fd s h = elim (Bool-cases s.tp) [
    | inl t ↦ elim h.holds [
      | inl (c, k) ↦ rw (h.idle, c, k, t) refl
      | inr (key, cert, c, k) ↦ rw (h.idle, c, k, t) refl
    ]
    | inr t ↦ elim h.holds [
      | inl (c, k) ↦ rw (h.idle, c, k, t) refl
      | inr (key, cert, c, k) ↦ rw (h.idle, c, k, t) refl
    ]
  ]

  -- A life that opened these sockets ends with a destruction that closes them, each once.
  abbrev Ended : List (Option ℕ) → Run (Option (Server Regex)) → Type 0
  Ended fds (returns s es) =
      (gs : List Event) × (destroy s ≡ returns tt gs) × (closings (es ++ gs) ≡ fds)
  Ended fds _ = Unit

  Kept-Ended : (fd : ℕ) (r : Run (Option (Server Regex))) → Kept fd r → Ended (some fd ∷ []) r
  Kept-Ended fd (returns none es) k = absurd k
  Kept-Ended fd (returns (some s) es) k =
      (ends fd s.ckind s.tp, destroy-Owns fd s k.1, rw k.0 (closings-ends fd s.ckind s.tp))
  Kept-Ended fd endless k = tt
  Kept-Ended fd undefined k = tt

  Created-Ended :
      (o : OpenSsl) (ops : List (Setup Regex)) (fds : List (Option ℕ))
      (r : Run (Option (Server Regex)))
      → Created fds r
      → Ended fds (r >>= setup o ops)
  unfolding destroy
  Created-Ended o ops fds (returns none es) c =
      rw (setup-none o ops)
        ([], refl, closings-append (es ++ []) [] ∙ rw (append-nil, append-nil) c)
  Created-Ended o ops fds (returns (some s) es) c =
      let (fd, one, quiet, h, _) = c in
      rw (one, quiet)
        (Kept-Ended fd (after [] (setup o ops (some s)))
          (Kept-after fd (setup o ops (some s)) (setup-Kept o fd ops s h)))
  Created-Ended o ops fds endless c = absurd c
  Created-Ended o ops fds undefined c = absurd c

  -- If the creation of a server and any calls that set it up return, then the destruction of the
  -- result returns too, and altogether just the socket that was opened is closed, once.
  pub server_life :
      (sys : Sockets) (o : OpenSsl) (ip : Bytes) (port : ℕ) (akind : AddrKind)
      (ops : List (Setup Regex)) {s : Option (Server Regex)} {es : List Event}
      → (server_new sys ip port akind >>= setup o ops) ≡ returns s es
      → (gs : List Event) × (destroy s ≡ returns tt gs)
        × (closings (es ++ gs) ≡ opened sys ip akind)
  server_life sys o ip port akind ops e = subst (Ended (opened sys ip akind)) e (
      Created-Ended o ops (opened sys ip akind) (server_new sys ip port akind)
        (server_new-Created Regex sys ip port akind))
