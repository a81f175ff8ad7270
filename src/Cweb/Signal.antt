-- ===== src/Cweb/Signal.antt =====
-- `handle_sigint` and `cweb_cleanup` of cweb.c, for what they do to the server, and the end of `main`
-- behind the call of `httpserv_httpserver_run`.
pub mod Stops
use httpserv.Prelude.{ℕ, true, false, ◌==◌, Option, some, none, if◌then◌else◌}
use httpserv.Net.{Run, undefined, pure, ◌>>◌}
use httpserv.Server.Life.{Server, destroy}

module _ {Regex : Type 0} where
  -- `cweb_cleanup`, for the server
  unfoldable pub cweb_cleanup : Option (Server Regex) → Run (Unit {0})
  unfolding destroy
  cweb_cleanup srv = destroy srv

  -- `handle_sigint`: the server behind it, or `none` where the process ends with the code 0. The
  -- variable `srv` is NULL until `httpserv_httpserver_new` has returned.
  unfoldable pub handle_sigint : Option (Server Regex) → Run (Option (Server Regex))
  unfolding cweb_cleanup
  handle_sigint none = undefined
  handle_sigint (some srv) =
      if srv.alive
      then pure (some (record srv { keep_alive = false }))
      else (do cweb_cleanup (some srv); pure none)

  -- `main` behind `httpserv_httpserver_run` with its result: the exit code.
  unfoldable pub finish_main : Server Regex → ℕ → Run ℕ
  unfolding cweb_cleanup
  finish_main srv result = do cweb_cleanup (some srv); pure (if result == 0 then 0 else 1)
