-- ===== src/Tests/Configs.antt =====
-- Instances for the configuration file and the functions that strip white space.
use httpserv.Prelude.{◌≡◌, refl, List, [], ◌∷◌, ◌++◌, some, codes, arith}
use httpserv.Cstring.Decimal.{isspace}
use httpserv.Config.{loaded, load}
use httpserv.Config.Lines.{Setting, IsSetting}
use httpserv.Config.Load.{Line, assignment, noted, remark, render, load-render, with_newline}

abbrev port : Setting
port = record {
  label = codes "http.port";
  value = codes "8080";
  label_left = [];
  label_right = codes " ";
  value_left = codes " ";
  value_right = [];
}

port-IsSetting : IsSetting port
unfolding isspace
port-IsSetting = record {
  left_text = omega arith;
  right_text = omega arith;
  label_trimmed = (refl, refl);
  value_trimmed = (refl, refl);
  blanks = (tt, (refl, tt), (refl, tt), tt);
}

port-IsSetting_newline : IsSetting (with_newline port)
unfolding isspace
port-IsSetting_newline = record {
  left_text = omega arith;
  right_text = omega arith;
  label_trimmed = (refl, refl);
  value_trimmed = (refl, refl);
  blanks = (tt, (refl, tt), (refl, tt), (refl, tt));
}

abbrev file : List Line
file = remark [] (codes " ports") ∷ (noted port (codes " lost") ∷ (assignment port ∷ []))

load-render_example :
    load (some (render file ++ codes "http.v6 = true"))
    ≡ loaded ((codes "http.port", codes "8080") ∷ [])
load-render_example =
    load-render file (codes "http.v6 = true")
      (
        (tt, omega arith),
        ((port-IsSetting, omega arith), ((port-IsSetting_newline, omega arith), tt)),
      )
      (omega arith)
