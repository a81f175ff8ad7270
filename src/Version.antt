-- ===== src/Version.antt =====
-- src/httpserv.c with the macros of include/httpserv.h, and the versions that cweb.c prints.
use httpserv.Prelude.{ℕ, ◌≡◌, refl, ◌∷◌, ◌++◌, Bytes, codes}
use httpserv.Cstring.Decimal.{decimal}
use httpserv.Http.Response.{server_version}

-- `HTTPSERV_VERSION_MAJOR`, `HTTPSERV_VERSION_MINOR` and `HTTPSERV_VERSION_PATCH`, which
-- `httpserv_version_major`, `httpserv_version_minor` and `httpserv_version_patch` return.
abbrev pub version_major : ℕ
version_major = 0

abbrev pub version_minor : ℕ
version_minor = 1

abbrev pub version_patch : ℕ
version_patch = 0

-- `"%d.%d.%d"`
unfoldable pub dotted : ℕ → ℕ → ℕ → Bytes
dotted major minor patch = decimal major ++ (b'.' ∷ (decimal minor ++ (b'.' ∷ decimal patch)))

-- `CWEB_VERSION_MAJOR`, `CWEB_VERSION_MINOR` and `CWEB_VERSION_PATCH` of cweb.c.
abbrev pub cweb_version : ℕ × ℕ × ℕ
cweb_version = (0, 1, 0)

-- `cweb_print_version`, as the two lines that are written to stderr.
unfoldable pub print_version : Bytes
unfolding dotted
print_version =
    (codes "cweb version: " ++ (dotted cweb_version.0 cweb_version.1 cweb_version.2 ++ codes "\n"))
    ++ (codes "libhttpserv version: "
        ++ (dotted version_major version_minor version_patch ++ codes "\n"))

-- The text that `httpserv_http_server_version` prints.
server_version-dotted :
    server_version ≡ codes "cweb/" ++ dotted version_major version_minor version_patch
unfolding dotted decimal
server_version-dotted = refl

print_version_text : print_version ≡ codes "cweb version: 0.1.0\nlibhttpserv version: 0.1.0\n"
unfolding print_version decimal
print_version_text = refl
