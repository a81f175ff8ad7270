-- ===== src/Logging.antt =====
-- src/logging.c: the log on the standard error stream and, if it could be opened, in a file. A message
-- is the text that `vasprintf` makes; the local time is an argument.
pub mod Lines
pub mod Stamp
use httpserv.Prelude.{
  ℕ, suc, ◌+◌, List, [], ◌∷◌, ◌++◌, Option, some, none, Bytes, codes, ltb, leb, length, ◌>>=◌,
  if◌then◌else◌,
}
use httpserv.Cstring.Decimal.{decimal}

-- `struct tm`, with the year and the month as `strftime` prints them.
pub record Tm : Type 0 where
  pub year : ℕ
  pub month : ℕ
  pub day : ℕ
  pub hour : ℕ
  pub minute : ℕ
  pub second : ℕ

-- `%m`, `%d`, `%H`, `%M` and `%S`
unfoldable pub pad_two : ℕ → Bytes
pad_two n = if ltb n 10 then b'0' ∷ decimal n else decimal n

-- The text for `HTTPSERV_LOGGING_TIME_FORMAT`
unfoldable pub time_text : Tm → Bytes
time_text tm =
    decimal tm.year
    ++ (b'-' ∷ pad_two tm.month)
    ++ (b'-' ∷ pad_two tm.day)
    ++ (b' ' ∷ pad_two tm.hour)
    ++ (b':' ∷ pad_two tm.minute)
    ++ (b':' ∷ pad_two tm.second)

-- `strftime` for that format and a block of `max` bytes: `none` is the result 0.
unfoldable pub strftime : ℕ → Tm → Option Bytes
unfolding time_text
strftime max tm = let s = time_text tm in if ltb (length s) max then some s else none

-- `HTTPSERV_LOGGING_TIME_LENGTH`
abbrev pub time_length : ℕ
time_length = 20

-- A global pointer: NULL, set, or to what was freed or closed.
pub data Global (A : Type 0) : Type 0 where
  null dangling : Global A
  set : A → Global A

-- `httpserv_time_str`, `httpserv_log_file` with the contents of the file, and what was written to the
-- standard error stream.
pub record Logger : Type 0 where
  pub time_str : Global (Unit {0})
  pub log_file : Global Bytes
  pub stderr : Bytes

-- The variables when the program starts.
abbrev pub start : Logger
start = record { time_str = null; log_file = null; stderr = [] }

-- `httpserv_logging_get_time`; `none` is a write through NULL or to freed memory.
unfoldable pub get_time : Logger → Tm → Option Bytes
unfolding strftime
get_time l tm = elim l.time_str [
  | null ↦ none
  | dangling ↦ none
  | set _ ↦ elim (strftime time_length tm) [ none ↦ some [] | some s ↦ some s ]
]

-- `fopen(path, "a")`: the contents of the file, if it could be opened.
abbrev pub append_to : Option Bytes → Global Bytes
append_to none = null
append_to (some contents) = set contents

-- `httpserv_logging_init`
unfoldable pub init : (Bytes → Option Bytes) → Option Bytes → Logger → Logger
init fopen none l = record l { time_str = set tt; log_file = null }
init fopen (some path) l = record l { time_str = set tt; log_file = append_to (fopen path) }

-- `free(httpserv_time_str)`, and the end of the file; `none` is a second `free` or `fclose`.
abbrev pub freed_text : Global (Unit {0}) → Option (Global (Unit {0}))
freed_text null = some null
freed_text (set _) = some dangling
freed_text dangling = none

abbrev pub closed_file : Global Bytes → Option (Global Bytes)
closed_file null = some null
closed_file (set _) = some dangling
closed_file dangling = none

-- `httpserv_logging_destroy`
unfoldable pub destroy : Logger → Option Logger
destroy l = do
  time_str ← freed_text l.time_str
  log_file ← closed_file l.log_file
  some (record l { time_str = time_str; log_file = log_file })

-- `httpserv_logging_log`, `httpserv_logging_wrn` and `httpserv_logging_err`
pub data Level : Type 0 where
  log wrn err : Level

abbrev pub prefix : Level → Bytes
prefix log = []
prefix wrn = codes "Warning: "
prefix err = codes "Error: "

-- `fprintf(…, "[%s] …%s\n", time, fmsg)`
abbrev pub line : Level → Bytes → Bytes → Bytes
line level time fmsg = b'[' ∷ (time ++ (codes "] " ++ (prefix level ++ (fmsg ++ b'\n' ∷ []))))

-- `if (httpserv_log_file) fprintf(httpserv_log_file, …)`
abbrev pub to_file : Global Bytes → Bytes → Option (Global Bytes)
to_file null text = some null
to_file (set contents) text = some (set (contents ++ text))
to_file dangling text = none

unfoldable pub write : Logger → Level → Tm → Bytes → Option Logger
unfolding get_time
write l level tm fmsg = do
  time ← get_time l tm
  log_file ← to_file l.log_file (line level time fmsg)
  some (record l { stderr = l.stderr ++ line level time fmsg; log_file = log_file })
