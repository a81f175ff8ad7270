-- ===== src/Tests/Worker.antt =====
-- Instances for the worker and the loop that reads a request.
use httpserv.Prelude.{
  ℕ, suc, ◌+◌, ◌≡◌, refl, ◌∙◌, true, List, Bytes, [], ◌∷◌, ◌++◌, some, none, codes, length, arith,
}
use mathlib.Core.List.{map}
use httpserv.Cstring.{eqs, starts_with}
use httpserv.Cstring.Decimal.{decimal}
use httpserv.Http.Method.{get, strmethod, strtomethod}
use httpserv.Http.Request.{Request, get_header, header_line}
use httpserv.Http.Request.Parse
use httpserv.Http.Request.Parse.RoundTrip.{request_of}
use httpserv.Http.Response.Build.Wire.{wire}
use httpserv.Router.{redirect, lookup}
use httpserv.Resource.{Resource, load, resource_new}
use httpserv.Server.Reader.{initial, read_head}
use httpserv.Server.Reader.Complete.{read_head_complete}
use httpserv.Server.Reader.Endless.{read_head_endless}
use httpserv.Server.Worker
use httpserv.Server.Worker.{write, close, returned, crashed, fill, serve, worker}
use httpserv.Net.{Event, returns}
use httpserv.Net.Connector.{sck, sck_conn}
use httpserv.Server.Accept.{connect}
use httpserv.Server.Worker.Connection.{calls, Serves, worker-calls}
use httpserv.Server.Worker.Answers.{
  moved_head, moved_phrase, missing_page, server_line, serve-found, serve-moved, serve-missing,
}
use httpserv.Server.Worker.Failures.{worker-bad_method, worker-render_head}
use httpserv.Tests.Data.{
  path, version, fields, fields-IsField, head, head-IsHead, bad_head, bad_head-IsHead,
  half-Unfinished, sample, route_to, env, full, bare, loader, junk,
}

read_head_complete_example :
    read_head junk (length head + suc 9) (initial (head ++ (b'\n' ∷ codes "rest")))
    ≡ some (record {
      input = codes "rest";
      c = b'\n';
      content = head ++ (b'\n' ∷ 0 ∷ []);
      len = length head + 1;
    })
read_head_complete_example =
    read_head_complete junk head b'\n' 9 (codes "rest") head-IsHead.no_nul head-IsHead.last_no_nul
      head-IsHead.unfinished head-IsHead.ends

read_head_endless_example : read_head junk 1000 (initial (codes "GET /")) ≡ none
read_head_endless_example =
    read_head_endless junk (codes "GET ") b'/' 1000 (omega arith) (omega arith) half-Unfinished

worker-render_head_example :
    worker (env full) junk true (length head + suc 9) (head ++ (b'\n' ∷ []))
    ≡ serve (env full) (Parse.ok sample) []
unfolding strmethod
worker-render_head_example =
    worker-render_head (env full) junk get path b'H' version fields head b'\n' 9 [] head-IsHead refl
      refl (omega arith) (omega arith) fields-IsField

worker-bad_method_example :
    worker (env full) junk true (length bad_head + suc 9) (bad_head ++ (b'\n' ∷ [])) ≡ crashed
unfolding strtomethod eqs
worker-bad_method_example =
    worker-bad_method (env full) junk bad_head b'\n' 9 [] (codes "BREW") (codes "/a\r\n\r\n")
      bad_head-IsHead refl (omega arith) refl

abbrev hello : Resource
hello = record { path = codes "./a"; contents = codes "hello"; size = 5; fd = 3 }

serve-found_example :
    serve (env full) (Parse.ok sample) []
    ≡ returned (
        write (
          wire 200
            (codes "OK")
            (header_line (codes "Content-Lenght") (decimal 5) ∷ server_line ∷ [])
            [])
        ∷ write (fill 5 (codes "hello"))
        ∷ close
        ∷ [])
unfolding get_header lookup load resource_new eqs starts_with
serve-found_example = serve-found (env full) sample [] loader hello refl refl refl

answered_test :
    (es : List httpserv.Server.Worker.Event) × (worker
        (env full)
        junk
        true
        (length head + suc 9)
        (head ++ (b'\n' ∷ []))
      ≡ returned es)
unfolding get_header lookup load resource_new eqs starts_with strmethod
answered_test = (
  _,
  worker-render_head (env full) junk get path b'H' version fields head b'\n' 9 [] head-IsHead refl
        refl (omega arith) (omega arith) fields-IsField
      ∙ serve-found (env full) sample [] loader hello refl refl refl,
)

abbrev old : Request
old = request_of get (codes "/old") []

serve-moved_example :
    (n : ℕ) × (serve (env full) (Parse.ok old) []
      ≡ returned (write (fill n (moved_head redirect (codes "/new"))) ∷ close ∷ []))
    × (n + length (moved_phrase redirect) ≡ length (moved_head redirect (codes "/new")) + 2)
unfolding get_header lookup eqs
serve-moved_example =
    serve-moved (env full) old [] (route_to (codes "/old") (codes "/new") redirect) refl refl
      (λ e. cc)

serve-missing_example :
    (n : ℕ) × (serve (env bare) (Parse.ok sample) []
      ≡ returned (write (fill n (missing_page (codes "23"))) ∷ close ∷ []))
    × (n + 7 ≡ length (missing_page (codes "23")))
unfolding get_header lookup load resource_new eqs starts_with
serve-missing_example = serve-missing (env bare) sample [] loader refl refl refl

worker-calls_example :
    (texts : List Bytes) × (fs : List Event) × (answered_test.0 ≡ map write texts ++ close ∷ [])
    × (calls (sck_conn (some 4)) sck answered_test.0 ≡ returns tt fs)
    × Serves (some 4) texts fs
unfolding connect
worker-calls_example =
    worker-calls (env full) junk (length head + suc 9) (head ++ (b'\n' ∷ [])) (sck_conn (some 3))
      (sck_conn (some 4)) sck (some 4) refl answered_test.1
