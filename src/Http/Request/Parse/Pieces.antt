-- ===== src/Http/Request/Parse/Pieces.antt =====
-- The loops of the parser over the request line. Each lemma runs a loop over one piece, with any rest
-- of the content and any memory behind it.
use httpserv.Prelude.{
  ℕ, ◌≡◌, ◌≢◌, [], ◌∷◌, ◌++◌, arith, length, Bytes, All, append-nil, append_assoc,
}
use httpserv.Http.Request.Parse.{ok, read_method, read_path, skip_line}

-- Bytes of a word on the request line, of the rest of that line, of a header's key and of its value.
abbrev pub IsWord : Bytes → Type 0
IsWord = All λ c. (c ≢ 0) × (c ≢ b' ')

abbrev pub IsLine : Bytes → Type 0
IsLine = All λ c. (c ≢ 0) × (c ≢ b'\r')

abbrev pub IsKey : Bytes → Type 0
IsKey = All λ c. (c ≢ 0) × (c ≢ b'\r') × (c ≢ b':')

pub read_method-append :
    (w r slack acc : Bytes)
    → IsWord w
    → read_method (length (w ++ (b' ' ∷ r))) ((w ++ (b' ' ∷ r)) ++ slack) acc
      ≡ ok (acc ++ w, record { rounds = length r; rest = r ++ slack })
unfolding read_method
read_method-append [] r slack acc h = rw append-nil
read_method-append (c ∷ w) r slack acc h =
    ground (arith, read_method-append w r slack (acc ++ c ∷ []) h.1, append_assoc acc (c ∷ []) w)

pub read_path-append :
    (w : Bytes) (v : ℕ) (r slack acc : Bytes)
    → IsWord w
    → read_path (length (w ++ (b' ' ∷ v ∷ r))) ((w ++ (b' ' ∷ v ∷ r)) ++ slack) acc
      ≡ ok (acc ++ w, record { rounds = length r; rest = r ++ slack })
unfolding read_path
read_path-append [] v r slack acc h = rw append-nil
read_path-append (c ∷ []) v r slack acc h = ground arith
read_path-append (c ∷ d ∷ w) v r slack acc h = ground (
  arith,
  read_path-append (d ∷ w) v r slack (acc ++ c ∷ []) h.1,
  append_assoc acc (c ∷ []) (d ∷ w),
)

pub skip_line-append :
    (w r slack : Bytes)
    → IsLine w
    → skip_line (length (w ++ (b'\r' ∷ b'\n' ∷ r))) ((w ++ (b'\r' ∷ b'\n' ∷ r)) ++ slack)
      ≡ ok (record { rounds = length r; rest = r ++ slack })
unfolding skip_line
skip_line-append [] r slack h = ground arith
skip_line-append (c ∷ []) r slack h = ground (arith, skip_line-append [] r slack)
skip_line-append (c ∷ d ∷ w) r slack h = ground (arith, skip_line-append (d ∷ w) r slack h.1)
