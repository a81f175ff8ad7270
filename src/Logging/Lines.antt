-- ===== src/Logging/Lines.antt =====
-- What a history of messages leaves in the log.
use httpserv.Prelude.{
  ◌≡◌, refl, ap, ◌∙◌, List, [], ◌∷◌, ◌++◌, append_assoc, append-nil, Option, some, none, Bytes, All,
  ◌>>=◌,
}
use httpserv.Logging.{
  Tm, Logger, Global, null, set, dangling, append_to, start, init, destroy, Level, line, to_file,
  write, get_time,
}
use httpserv.Logging.Stamp.{IsTime, stamp, get_time-stamp}

-- A message, with the time at which it is written.
pub record Message : Type 0 where
  pub level : Level
  pub tm : Tm
  pub fmsg : Bytes

-- The log functions, called one after the other.
abbrev pub write_all : Logger → List Message → Option Logger
write_all l [] = some l
write_all l (m ∷ ms) = do l' ← write l m.level m.tm m.fmsg; write_all l' ms

-- The lines for messages.
abbrev pub lines : List Message → Bytes
lines [] = []
lines (m ∷ ms) = line m.level (stamp m.tm) m.fmsg ++ lines ms

abbrev pub extended : Option Bytes → Bytes → Option Bytes
extended none text = none
extended (some contents) text = some (contents ++ text)

-- The variables between the start and the end of the log.
abbrev pub logging : Option Bytes → Bytes → Logger
logging file err = record { time_str = set tt; log_file = append_to file; stderr = err }

to_file-append_to :
    (file : Option Bytes) (text : Bytes)
    → to_file (append_to file) text ≡ some (append_to (extended file text))
to_file-append_to none text = refl
to_file-append_to (some contents) text = refl

write-logging :
    (file : Option Bytes) (err : Bytes) (m : Message)
    → IsTime m.tm
    → write (logging file err) m.level m.tm m.fmsg
      ≡ some (
          logging
            (extended file (line m.level (stamp m.tm) m.fmsg))
            (err ++ line m.level (stamp m.tm) m.fmsg))
unfolding write
write-logging file err m h =
    rw (get_time-stamp (logging file err) m.tm refl h, ◌>>=◌)
      (rw (to_file-append_to file (line m.level (stamp m.tm) m.fmsg), ◌>>=◌) refl)

extended-nil : (file : Option Bytes) → extended file [] ≡ file
extended-nil none = refl
extended-nil (some contents) = rw append-nil refl

extended-append :
    (file : Option Bytes) (s t : Bytes) → extended (extended file s) t ≡ extended file (s ++ t)
extended-append none s t = refl
extended-append (some contents) s t = rw append_assoc refl

write_all-logging :
    (file : Option Bytes) (err : Bytes) (ms : List Message)
    → All (λ m. IsTime m.tm) ms
    → write_all (logging file err) ms ≡ some (logging (extended file (lines ms)) (err ++ lines ms))
write_all-logging file err [] h = rw (extended-nil, append-nil) refl
write_all-logging file err (m ∷ ms) h =
    let text = line m.level (stamp m.tm) m.fmsg in
    ap (λ r. r >>= λ l. write_all l ms) (write-logging file err m h.0)
    ∙ write_all-logging (extended file text) (err ++ text) ms h.1
    ∙ ap (λ f. some (logging f ((err ++ text) ++ lines ms))) (extended-append file text (lines ms))
    ∙ ap (λ e. some (logging (extended file (text ++ lines ms)) e))
        (append_assoc err text (lines ms))

-- Messages at times with every part but the year in its range, written behind the start of the log
-- with a path, leave the same lines on the standard error stream and behind what the file held, if
-- it could be opened; a line has the time in front as long as its year has at most four digits, and
-- empty brackets from the year 10000 on.
pub write_all-init :
    (fopen : Bytes → Option Bytes) (path : Bytes) (ms : List Message)
    → All (λ m. IsTime m.tm) ms
    → write_all (init fopen (some path) start) ms
      ≡ some (logging (extended (fopen path) (lines ms)) (lines ms))
unfolding init
write_all-init fopen path ms h = write_all-logging (fopen path) [] ms h

-- The end of the log from each state of the variables: what is left cannot be written to.
ended_parts :
    (text : Global (Unit {0})) (file : Global Bytes) (err : Bytes) (level : Level) (tm : Tm)
    (fmsg : Bytes)
    → (destroy (record { time_str = text; log_file = file; stderr = err }) >>= λ l.
        write l level tm fmsg)
      ≡ none
unfolding destroy write get_time
ended_parts dangling file err level tm fmsg = refl
ended_parts null null err level tm fmsg = refl
ended_parts null (set contents) err level tm fmsg = refl
ended_parts null dangling err level tm fmsg = refl
ended_parts (set _) null err level tm fmsg = refl
ended_parts (set _) (set contents) err level tm fmsg = refl
ended_parts (set _) dangling err level tm fmsg = refl

-- Behind the end of the log no message can be written: the memory for the time is gone, or NULL.
pub write-destroy :
    (l : Logger) (level : Level) (tm : Tm) (fmsg : Bytes)
    → (destroy l >>= λ l'. write l' level tm fmsg) ≡ none
write-destroy l level tm fmsg = ended_parts l.time_str l.log_file l.stderr level tm fmsg
