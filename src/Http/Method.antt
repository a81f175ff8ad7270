-- ===== src/Http/Method.antt =====
-- `httpserv_http_method_t` of include/http/request.h with its two conversions of src/http/request.c.
pub mod RoundTrip
use httpserv.Prelude.{Option, some, none, Bytes, codes, if◌then◌else◌}
use httpserv.Cstring.{eqs}

pub data Method : Type 0 where
  get post put delete connect options trace patch invalid : Method

-- `none` is NULL.
unfoldable pub strmethod : Method → Option Bytes
strmethod get = some (codes "GET")
strmethod post = some (codes "POST")
strmethod put = some (codes "PUT")
strmethod delete = some (codes "DELETE")
strmethod connect = some (codes "CONNECT")
strmethod options = some (codes "OPTIONS")
strmethod trace = some (codes "TRACE")
strmethod patch = some (codes "PATCH")
strmethod invalid = none

unfoldable pub strtomethod : Bytes → Method
strtomethod s =
    if eqs s (codes "GET")
    then get
    else if eqs s (codes "POST")
    then post
    else if eqs s (codes "PUT")
    then put
    else if eqs s (codes "DELETE")
    then delete
    else if eqs s (codes "CONNECT")
    then connect
    else if eqs s (codes "OPTIONS")
    then options
    else if eqs s (codes "TRACE")
    then trace
    else if eqs s (codes "PATCH")
    then patch
    else invalid
