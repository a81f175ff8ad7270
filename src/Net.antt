-- ===== src/Net.antt =====
-- The calls of src/net/ssl.c, src/net/connector.c and the life of a server in src/net/server.c: what
-- they do to descriptors, to the objects of OpenSSL and to memory, in order.
pub mod Tls
pub mod Connector
pub mod Files
use httpserv.Prelude.{ℕ, List, [], ◌∷◌, ◌++◌, Option, Bytes}

-- The blocks of memory that are freed by name.
pub data Block : Type 0 where
  conn_block addr_block ip_block server_block certchains_block privkey_block : Block

-- A descriptor is a number, or `none` for -1.
pub data Event : Type 0 where
  wrote : Option ℕ → Bytes → Event
  closed : Option ℕ → Event
  ssl_shutdown ssl_freed ctx_freed pool_destroyed : Event
  freed : Block → Event

-- How a call ends: it returns a value and has had effects, it goes on for ever, or it reads through a
-- pointer that is NULL or was never set, or a member of a union that was not the last one written.
pub data Run {ℓ} (A : Type ℓ) : Type ℓ where
  returns : A → List Event → Run A
  endless undefined : Run A

abbrev pub after {ℓ} : {A : Type ℓ} → List Event → Run A → Run A
after es (returns a fs) = returns a (es ++ fs)
after es endless = endless
after es undefined = undefined

infixl 5 ◌>>=◌ ◌>>◌
abbrev pub ◌>>=◌ {ℓ κ} : {A : Type ℓ} {B : Type κ} → Run A → (A → Run B) → Run B
returns a es >>= f = after es (f a)
endless >>= f = endless
undefined >>= f = undefined

abbrev pub ◌>>◌ {ℓ} : {B : Type ℓ} → Run (Unit {0}) → Run B → Run B
m >> k = m >>= λ _. k

abbrev pub pure {ℓ} : {A : Type ℓ} → A → Run A
pure a = returns a []

abbrev pub emit : Event → Run (Unit {0})
emit e = returns tt (e ∷ [])

-- A pointer that may never have been set.
pub data Pointer (A : Type 0) : Type 0 where
  wild : Pointer A
  to : A → Pointer A

abbrev pub deref : {A : Type 0} → Pointer A → Run A
deref wild = undefined
deref (to a) = returns a []

-- `p->…` on a pointer that may be NULL.
abbrev pub deref_opt : {A : Type 0} → Option A → Run A
deref_opt Option.none = undefined
deref_opt (Option.some a) = returns a []

abbrev pub free : {A : Type 0} → Block → Pointer A → Run (Unit {0})
free b wild = undefined
free b (to a) = emit (freed b)
