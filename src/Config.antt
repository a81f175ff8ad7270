-- ===== src/Config.antt =====
-- src/config.c: the configuration file. The tree that the entries are added to is that of the
-- submodule libtree: a load is the list of the calls of `tree_add_node`, in order.
pub mod Lines
pub mod Load
pub mod Destroy
use httpserv.Prelude.{ℕ, Bool, true, false, List, [], ◌∷◌, ◌++◌, ◌==◌, Option, some, none, Bytes}
use httpserv.Cstring.{push}
use httpserv.Cstring.Strip.{Stripped, stripped, before_start, strstripltw}

-- The values 1, 0 and -1 of `label_read`.
pub data LabelRead : Type 0 where
  in_label in_value in_comment : LabelRead

-- The variables of the loop in `httpserv_config_process_line`.
pub record Parts : Type 0 where
  pub label : Bytes
  pub value : Bytes
  pub label_read : LabelRead

-- The rounds in which `label_read` is 0.
unfoldable pub read_value : Bytes → Bytes → Bytes → Parts
read_value [] label value = record { label = label; value = value; label_read = in_value }
read_value (c ∷ line) label value = elim (c == b'#') [
  | true ↦ record { label = label; value = value; label_read = in_comment }
  | false ↦ read_value line label (push value c)
]

-- The rounds in which it is 1.
unfoldable pub read_label : Bytes → Bytes → Parts
unfolding read_value
read_label [] label = record { label = label; value = []; label_read = in_label }
read_label (c ∷ line) label = elim (c == b'#') [
  | true ↦ record { label = label; value = []; label_read = in_comment }
  | false ↦ elim (c == b'=') [
    | true ↦ read_value line label []
    | false ↦ read_label line (push label c)
  ]
]

-- What a line gives: NULL, an entry, or a read in front of a buffer while its texts are stripped.
pub data LineResult : Type 0 where
  no_entry out_of_bounds : LineResult
  entry : Bytes → Bytes → LineResult

abbrev pub both : Stripped → Stripped → LineResult
both (stripped label) (stripped value) = entry label value
both _ _ = out_of_bounds

pub finish : Bytes → Bytes → LabelRead → LineResult
finish label value in_label = no_entry
finish label value in_comment = no_entry
finish label value in_value = both (strstripltw label) (strstripltw value)

-- `httpserv_config_process_line`
unfoldable pub process_line : Bytes → LineResult
unfolding read_label finish
process_line line =
    let parts = read_label line [] in finish parts.label parts.value parts.label_read

-- How `httpserv_config_load` ends: the file is not there, a line reads out of bounds, or the entries
-- have been added.
pub data LoadResult : Type 0 where
  not_opened crashed : LoadResult
  loaded : List (Bytes × Bytes) → LoadResult

abbrev pub add_entry : LineResult → LoadResult → LoadResult
add_entry out_of_bounds rest = crashed
add_entry no_entry rest = rest
add_entry (entry label value) (loaded entries) = loaded ((label, value) ∷ entries)
add_entry (entry label value) rest = rest

-- The loop over the bytes of the file, with the line that has been read so far.
unfoldable pub load_lines : Bytes → Bytes → LoadResult
load_lines linebuf [] = loaded []
load_lines linebuf (c ∷ text) = elim (c == b'\n') [
  | true ↦ add_entry (process_line (push linebuf c)) (load_lines [] text)
  | false ↦ load_lines (push linebuf c) text
]

-- `httpserv_config_load`, on the text of the file if it can be opened.
unfoldable pub load : Option Bytes → LoadResult
unfolding load_lines
load none = not_opened
load (some text) = load_lines [] text
