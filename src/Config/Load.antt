-- ===== src/Config/Load.antt =====
-- What a load of a whole configuration file gives.
use httpserv.Prelude.{
  ◌≡◌, ◌≢◌, ◌∙◌, refl, ap, List, [], ◌∷◌, ◌++◌, some, Bytes, All, append-nil, append_assoc, arith,
}
use httpserv.Config.{LineResult, no_entry, entry, process_line, loaded, add_entry, load_lines, load}
use httpserv.Config.Lines.{
  Setting, left, right, setting_line, IsSetting, process_line-setting, process_line-hash,
}

-- Bytes of a line.
abbrev pub IsLineText : Bytes → Type 0
IsLineText = All λ c. (c ≢ 0) × (c ≢ b'\n')

load_lines-append :
    (line rest acc : Bytes)
    → IsLineText line
    → load_lines acc (line ++ (b'\n' ∷ rest))
      ≡ add_entry (process_line ((acc ++ line) ++ b'\n' ∷ [])) (load_lines [] rest)
unfolding load_lines
load_lines-append [] rest acc h = rw append-nil
load_lines-append (c ∷ line) rest acc h =
    ground (arith, load_lines-append line rest (acc ++ c ∷ []) h.1, append_assoc acc (c ∷ []) line)

load_lines_end : (line acc : Bytes) → IsLineText line → load_lines acc line ≡ loaded []
unfolding load_lines
load_lines_end [] acc h = refl
load_lines_end (c ∷ line) acc h = ground (arith, load_lines_end line (acc ++ c ∷ []) h.1)

-- A line of a file: an assignment, an assignment with a comment behind it, or any other line with a
-- `#`, such as one that begins with it.
pub data Line : Type 0 where
  assignment : Setting → Line
  noted : Setting → Bytes → Line
  remark : Bytes → Bytes → Line

abbrev pub line_text : Line → Bytes
line_text (assignment s) = setting_line s
line_text (noted s note) = setting_line s ++ (b'#' ∷ note)
line_text (remark a b) = a ++ (b'#' ∷ b)

-- The new line belongs to the white space behind the value.
abbrev pub with_newline : Setting → Setting
with_newline s = record s { value_right = s.value_right ++ b'\n' ∷ [] }

abbrev pub IsShaped : Line → Type 0
IsShaped (assignment s) = IsSetting (with_newline s)
IsShaped (noted s note) = IsSetting s
IsShaped (remark a b) = Unit

abbrev pub IsLine : Line → Type 0
IsLine l = IsShaped l × IsLineText (line_text l)

abbrev pub render : List Line → Bytes
render [] = []
render (l ∷ ls) = line_text l ++ (b'\n' ∷ render ls)

abbrev pub entry_of : Line → LineResult
entry_of (assignment s) = entry s.label s.value
entry_of (noted s note) = no_entry
entry_of (remark a b) = no_entry

-- The assignments that have no `#` behind them.
abbrev pub entries_of : List Line → List (Bytes × Bytes)
entries_of [] = []
entries_of (assignment s ∷ ls) = (s.label, s.value) ∷ entries_of ls
entries_of (noted s note ∷ ls) = entries_of ls
entries_of (remark a b ∷ ls) = entries_of ls

process_line-cut : (a b : Bytes) → process_line ((a ++ (b'#' ∷ b)) ++ b'\n' ∷ []) ≡ no_entry
process_line-cut a b =
    ap process_line (append_assoc a (b'#' ∷ b) (b'\n' ∷ [])) ∙ process_line-hash a (b ++ b'\n' ∷ [])

process_line-line_text :
    (l : Line) → IsShaped l → process_line (line_text l ++ b'\n' ∷ []) ≡ entry_of l
process_line-line_text (assignment s) h =
    ap process_line (
      rw (
        append_assoc (left s) (b'=' ∷ right s) (b'\n' ∷ []),
        append_assoc s.value_left (s.value ++ s.value_right) (b'\n' ∷ []),
        append_assoc s.value s.value_right (b'\n' ∷ []),
      ))
    ∙ process_line-setting (with_newline s) h
process_line-line_text (noted s note) h = process_line-cut (setting_line s) note
process_line-line_text (remark a b) h = process_line-cut a b

add_entry-entry_of :
    (l : Line) (ls : List Line)
    → add_entry (entry_of l) (loaded (entries_of ls)) ≡ loaded (entries_of (l ∷ ls))
add_entry-entry_of (assignment s) ls = refl
add_entry-entry_of (noted s note) ls = refl
add_entry-entry_of (remark a b) ls = refl

load_lines-render :
    (ls : List Line) (rest : Bytes)
    → All IsLine ls
    → IsLineText rest
    → load_lines [] (render ls ++ rest) ≡ loaded (entries_of ls)
load_lines-render [] rest h k = load_lines_end rest [] k
load_lines-render (l ∷ ls) rest h k =
    ap (load_lines []) (append_assoc (line_text l) (b'\n' ∷ render ls) rest)
    ∙ load_lines-append (line_text l) (render ls ++ rest) [] h.0.1
    ∙ rw (process_line-line_text l h.0.0, load_lines-render ls rest h.1 k) (add_entry-entry_of l ls)

-- The load of a configuration file whose lines are assignments with white space around their texts,
-- such assignments with a `#` and a comment behind them, or any other lines with a `#`, gives just
-- the assignments without a comment, in order, without that white space. An assignment with a
-- comment behind it is lost with the comment, where the README has the comment start at the `#`;
-- and what follows the last new line is dropped.
pub load-render :
    (ls : List Line) (rest : Bytes)
    → All IsLine ls
    → IsLineText rest
    → load (some (render ls ++ rest)) ≡ loaded (entries_of ls)
unfolding load
load-render ls rest h k = load_lines-render ls rest h k
