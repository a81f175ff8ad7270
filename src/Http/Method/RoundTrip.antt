-- ===== src/Http/Method/RoundTrip.antt =====
-- The two conversions of a method are inverse to one another.
use httpserv.Prelude.{◌≡◌, ◌↔◌, ◌≢◌, some, Bytes, codes, arith}
use httpserv.Cstring.{eqs, eqs_iff}
use httpserv.Http.Method.{Method, get, invalid, strmethod, strtomethod}

pub strtomethod-strmethod : (m : Method) (s : Bytes) → strmethod m ≡ some s → strtomethod s ≡ m
unfolding strmethod strtomethod eqs
strtomethod-strmethod get s h = ground arith
strtomethod-strmethod invalid s h = cc
strtomethod-strmethod _ s h = ground arith

strmethod-strtomethod : (s : Bytes) → strtomethod s ≢ invalid → strmethod (strtomethod s) ≡ some s
unfolding strmethod strtomethod
strmethod-strtomethod s h = ground (
  arith,
  eqs_iff s (codes "GET"),
  eqs_iff s (codes "POST"),
  eqs_iff s (codes "PUT"),
  eqs_iff s (codes "DELETE"),
  eqs_iff s (codes "CONNECT"),
  eqs_iff s (codes "OPTIONS"),
  eqs_iff s (codes "TRACE"),
  eqs_iff s (codes "PATCH"),
)

-- A string converts to a given method other than the invalid one exactly when it is the name of
-- that method.
pub strtomethod_iff :
    (s : Bytes) (m : Method) → m ≢ invalid → (strtomethod s ≡ m) ↔ (strmethod m ≡ some s)
strtomethod_iff s m v = (λ e. rw e at (strmethod-strtomethod s (rw e v)), strtomethod-strmethod m s)
