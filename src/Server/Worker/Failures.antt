-- ===== src/Server/Worker/Failures.antt =====
-- Streams on which the worker sends no answer.
use httpserv.Prelude.{
  ℕ, suc, ◌+◌, ◌≡◌, ◌≢◌, refl, ◌∙◌, true, List, [], ◌∷◌, ◌++◌, some, Bytes, codes, length,
  length-append, append_assoc, All,
}
use httpserv.Cstring.Decimal.{strtol_size}
use httpserv.Http.Request.{Request, text, get_header}
use httpserv.Http.Request.Parse.{RawData, from_raw}
use httpserv.Http.Request.Parse
use httpserv.Http.Method.{Method, invalid, strtomethod, strmethod}
use httpserv.Http.Request.Parse.Pieces.{IsWord, IsLine}
use httpserv.Http.Request.Parse.RoundTrip.{IsField, render_head, request_of, from_raw-render_head}
use httpserv.Http.Request.Parse.Reject.{from_raw-bad_method}
use httpserv.Server.Reader.{terminated}
use httpserv.Server.Reader.Complete.{Unfinished, read_head_complete}
use httpserv.Server.Reader.Endless.{read_head_endless}
use httpserv.Server.Worker.{close, returned, crashed, reading, Env, serve, worker}

-- A stream of which `head`, that ends in the byte `c`, is the first part that ends a request head.
pub record IsHead (head : Bytes) (c : ℕ) : Type 0 where
  pub no_nul : All (λ x. x ≢ 0) head
  pub last_no_nul : c ≢ 0
  pub unfinished : Unfinished [] head
  pub ends : terminated (head ++ c ∷ []) (length head) ≡ true

module _ {Regex : Type 0} (env : Env Regex) where
  -- A request whose `Content-Length` reads as 0 gets no answer: the connection is closed.
  pub serve-zero_length :
      (req : Request) (value input : Bytes)
      → get_header (some req) (codes "Content-Length") ≡ text value
      → strtol_size value ≡ 0
      → serve env (Parse.ok req) input ≡ returned (close ∷ [])
  unfolding serve
  serve-zero_length req value input h z = rw (h) (rw z)

module _ {Regex : Type 0} (env : Env Regex) (junk : ℕ → ℕ) where
  -- The worker hands on just the head, with a NUL behind it.
  pub worker-head :
      (head : Bytes) (c fuel : ℕ) (input : Bytes)
      → IsHead head c
      → worker env junk true (length head + suc fuel) (head ++ (c ∷ input))
        ≡ serve env
            (from_raw
              (record { content = (head ++ c ∷ []) ++ 0 ∷ []; len = length (head ++ c ∷ []) }))
            input
  unfolding worker
  worker-head head c fuel input h = rw (
    read_head_complete junk head c fuel input h.no_nul h.last_no_nul h.unfinished h.ends,
    append_assoc head (c ∷ []) (0 ∷ []),
    length-append head (c ∷ []),
  )

  -- On a complete head whose first word has no space and no NUL and is no method the worker reads
  -- through NULL, so that the client gets no answer 400.
  pub worker-bad_method :
      (head : Bytes) (c fuel : ℕ) (input word rest : Bytes)
      → IsHead head c
      → head ++ c ∷ [] ≡ word ++ (b' ' ∷ rest)
      → IsWord word
      → strtomethod word ≡ invalid
      → worker env junk true (length head + suc fuel) (head ++ (c ∷ input)) ≡ crashed
  worker-bad_method head c fuel input word rest h e w bad =
      worker-head head c fuel input h
      ∙ rw (e, from_raw-bad_method word rest (0 ∷ []) w bad) (unfold serve in refl)

  -- If the peer closes a stream that is not empty before a head is complete, the worker stays in its
  -- loop for ever.
  pub worker-endless :
      (s : Bytes) (c rounds : ℕ)
      → All (λ x. x ≢ 0) s
      → c ≢ 0
      → Unfinished [] (s ++ c ∷ [])
      → worker env junk true rounds (s ++ c ∷ []) ≡ reading
  unfolding worker
  worker-endless s c rounds h n u = rw (read_head_endless junk s c rounds h n u)

  -- A complete head on the stream that is rendered from a method, a path, a version and headers,
  -- all well formed, is read by the worker, with a round of fuel for each byte, then parsed and
  -- served as the request that it stands for.
  pub worker-render_head :
      (m : Method) {name : Bytes} (path : Bytes) (v : ℕ) (version : Bytes)
      (fields : List (Bytes × Bytes)) (head : Bytes) (c fuel : ℕ) (input : Bytes)
      → IsHead head c
      → head ++ c ∷ [] ≡ render_head name path v version fields
      → strmethod m ≡ some name
      → IsWord path
      → IsLine version
      → All IsField fields
      → worker env junk true (length head + suc fuel) (head ++ (c ∷ input))
        ≡ serve env (Parse.ok (request_of m path fields)) input
  worker-render_head m path v version fields head c fuel input h e named p l f =
      worker-head head c fuel input h
      ∙ rw (e, from_raw-render_head m path v version fields (0 ∷ []) named p l f)
