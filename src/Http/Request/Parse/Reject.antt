-- ===== src/Http/Request/Parse/Reject.antt =====
-- Heads that the parser rejects.
use httpserv.Prelude.{◌≡◌, [], ◌∷◌, ◌++◌, length, Bytes}
use httpserv.Http.Method.{invalid, strtomethod}
use httpserv.Http.Request.Parse.Pieces.{IsWord, read_method-append}
use httpserv.Http.Request.Parse.{RawData, null, ok, ◌>>=◌, Cursor, read_method, checked, from_raw}

rejected :
    (raw : RawData) {name : Bytes} {c : Cursor}
    → read_method raw.len raw.content [] ≡ ok (name, c)
    → checked (strtomethod name) ≡ null
    → from_raw raw ≡ null
unfolding from_raw
rejected raw h e = rw (h, ◌>>=◌) (rw (e, ◌>>=◌))

-- A request is rejected if its first word, with no space and no NUL in it, is not the name of a
-- method, whatever follows.
pub from_raw-bad_method :
    (word rest slack : Bytes)
    → IsWord word
    → strtomethod word ≡ invalid
    → from_raw (record {
      content = (word ++ (b' ' ∷ rest)) ++ slack;
      len = length (word ++ (b' ' ∷ rest));
    })
      ≡ null
from_raw-bad_method word rest slack w bad =
    rejected _ (read_method-append word rest slack [] w) (rw bad)
