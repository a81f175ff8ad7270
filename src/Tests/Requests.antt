-- ===== src/Tests/Requests.antt =====
-- Instances for the parser of requests, its headers and methods.
use httpserv.Prelude.{◌≡◌, ◌≢◌, refl, [], ◌∷◌, ◌++◌, codes, length, arith}
use httpserv.Http.Method.{get, strmethod}
use httpserv.Http.Request.Parse.{RawData, fault, ok, from_raw}
use httpserv.Http.Request.Parse.Invariant.{IsSound, from_raw-IsSound}
use httpserv.Http.Request.Parse.RoundTrip.{render_head, from_raw-render_head}
use httpserv.Http.Request.Parse.Safety.{from_raw-ne-fault}
use httpserv.Tests.Data.{path, version, fields, fields-IsField, sample}

abbrev raw : RawData
raw = record {
  content = render_head (codes "GET") path b'H' version fields ++ 0 ∷ [];
  len = length (render_head (codes "GET") path b'H' version fields);
}

from_raw-render_head_example : from_raw raw ≡ ok sample
unfolding strmethod
from_raw-render_head_example =
    from_raw-render_head get path b'H' version fields (0 ∷ []) refl (omega arith) (omega arith)
      fields-IsField

from_raw-ne-fault_example : from_raw raw ≢ fault
from_raw-ne-fault_example = from_raw-ne-fault raw (omega arith)

from_raw-IsSound_example : IsSound sample
from_raw-IsSound_example = from_raw-IsSound raw from_raw-render_head_example
