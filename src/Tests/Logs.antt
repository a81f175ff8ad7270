-- ===== src/Tests/Logs.antt =====
-- An instance for the log.
use httpserv.Prelude.{ℕ, ◌≡◌, List, [], ◌∷◌, some, codes, arith}
use httpserv.Logging.{Tm, start, init, err, log}
use httpserv.Logging.Stamp.{IsTime}
use httpserv.Logging.Lines.{Message, write_all, lines, extended, logging, write_all-init}

abbrev january : ℕ → Tm
january year = record { year = year; month = 1; day = 1; hour = 0; minute = 0; second = 0 }

january-IsTime : (year : ℕ) → IsTime (january year)
january-IsTime year = record {
  month_le = omega arith;
  day_le = omega arith;
  hour_le = omega arith;
  minute_le = omega arith;
  second_le = omega arith;
}

abbrev messages : List Message
messages =
    record { level = log; tm = january 2024; fmsg = codes "starting server..." }
    ∷ record { level = err; tm = january 10000; fmsg = codes "'http.port' is invalid" }
    ∷ []

write_all-init_example :
    write_all (init (λ path. some []) (some (codes "cweb.log")) start) messages
    ≡ some (logging (extended (some []) (lines messages)) (lines messages))
write_all-init_example =
    write_all-init (λ path. some []) (codes "cweb.log") messages
      (january-IsTime 2024, (january-IsTime 10000, tt))
