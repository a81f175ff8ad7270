-- ===== src/Tests/Responses.antt =====
-- Instances for statuses and responses.
use httpserv.Prelude.{◌+◌, ◌≡◌, refl, [], some, codes, length, arith}
use httpserv.Http.Status.{strstatus}
use httpserv.Http.Response.{Response}
use httpserv.Http.Response.Build.{build}
use httpserv.Http.Response.Build.Accounting.{IsAccounted}
use httpserv.Http.Response.Build.Wire.{wire, build_stale, build_complete}

abbrev page : Response
page = record {
  status = 200;
  headers = [];
  headers_size = 0;
  body = some (codes "hi");
  numheads = 0;
  bodylength = 2;
  lenght = 21;
}

page-IsAccounted : IsAccounted (codes "OK") page
unfolding strstatus
page-IsAccounted = record { valid = refl; counted = refl; body_counted = refl; total = refl }

build_complete_example :
    (build page
      ≡ some (record { text = wire 200 (codes "OK") [] (codes "hi"); size = 21; len = 21 }))
    × (length (wire 200 (codes "OK") [] (codes "hi")) ≡ 21)
build_complete_example = build_complete page page-IsAccounted (omega arith)

build_stale_example :
    (build (record page { status = 404 })
      ≡ some (record { text = wire 404 (codes "Not Found") [] (codes "hi"); size = 21; len = 21 }))
    × (21 + 9 ≡ length (wire 404 (codes "Not Found") [] (codes "hi")) + 2)
unfolding strstatus
build_stale_example =
    build_stale page page-IsAccounted 404 {phrase = codes "Not Found"} (omega arith) refl
