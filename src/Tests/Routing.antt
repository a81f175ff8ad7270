-- ===== src/Tests/Routing.antt =====
-- Instances for the router and its file.
use httpserv.Prelude.{◌≡◌, ◌↔◌, some, Option, Bytes, codes}
use httpserv.Router.{alias, lookup}
use httpserv.Router.Lookup.{Answers, lookup_iff}
use httpserv.Tests.Data.{literally, route_to, routes}

compile : Bytes → Option Bytes
compile s = some s

lookup_iff_example :
    (lookup literally (some routes) (some (codes "/b"))
      ≡ some (route_to (codes "/b") (codes "/x") alias))
    ↔ Answers literally routes (codes "/b") (route_to (codes "/b") (codes "/x") alias)
lookup_iff_example =
    lookup_iff literally routes (codes "/b") (route_to (codes "/b") (codes "/x") alias)
