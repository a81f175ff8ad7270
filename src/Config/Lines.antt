-- ===== src/Config/Lines.antt =====
-- What the lines of a configuration file give.
use httpserv.Prelude.{◌≡◌, ◌≢◌, refl, [], ◌∷◌, ◌++◌, Bytes, All, append-nil, append_assoc, arith}
use httpserv.Cstring.{push}
use httpserv.Cstring.Strip.{
  Stripped, stripped, before_start, IsBlank, IsTrimmed, strstripltw, strstripltw-append,
  strstripltw_blank,
}
use httpserv.Config.{
  finish, in_value, in_comment, read_value, read_label, no_entry, out_of_bounds, entry, both,
  process_line,
}

-- Texts that may stand before the `=` and behind it.
abbrev pub IsLabelText : Bytes → Type 0
IsLabelText = All λ c. (c ≢ 0) × (c ≢ b'#') × (c ≢ b'=')

abbrev pub IsValueText : Bytes → Type 0
IsValueText = All λ c. (c ≢ 0) × (c ≢ b'#')

read_value_end :
    (w label acc : Bytes)
    → IsValueText w
    → read_value w label acc ≡ record { label = label; value = acc ++ w; label_read = in_value }
unfolding read_value
read_value_end [] label acc h = rw append-nil
read_value_end (c ∷ w) label acc h =
    ground (arith, read_value_end w label (acc ++ c ∷ []) h.1, append_assoc acc (c ∷ []) w)

read_label-append :
    (k line acc : Bytes)
    → IsLabelText k
    → read_label (k ++ (b'=' ∷ line)) acc ≡ read_value line (acc ++ k) []
unfolding read_label
read_label-append [] line acc h = rw append-nil
read_label-append (c ∷ k) line acc h =
    ground (arith, read_label-append k line (acc ++ c ∷ []) h.1, append_assoc acc (c ∷ []) k)

process_line-parts :
    (k w : Bytes)
    → IsLabelText k
    → IsValueText w
    → process_line (k ++ (b'=' ∷ w)) ≡ both (strstripltw k) (strstripltw w)
unfolding process_line
process_line-parts k w hk hw = rw (read_label-append k w [] hk, read_value_end w k [] hw)

both_right : (label : Stripped) → both label before_start ≡ out_of_bounds
both_right (stripped label) = refl
both_right before_start = refl

read_value-hash :
    (a b label acc : Bytes) → (read_value (a ++ (b'#' ∷ b)) label acc).label_read ≡ in_comment
unfolding read_value
read_value-hash [] b label acc = refl
read_value-hash (c ∷ a) b label acc = ground (arith, read_value-hash a b label (push acc c))

read_label-hash : (a b acc : Bytes) → (read_label (a ++ (b'#' ∷ b)) acc).label_read ≡ in_comment
unfolding read_label
read_label-hash [] b acc = refl
read_label-hash (c ∷ a) b acc =
    ground (arith, read_label-hash a b (push acc c), read_value-hash a b acc [])

-- A line with a `#` anywhere, behind an assignment too, gives no entry.
pub process_line-hash : (a b : Bytes) → process_line (a ++ (b'#' ∷ b)) ≡ no_entry
unfolding process_line finish
process_line-hash a b = rw (read_label-hash a b [], finish)

-- An assignment in a file: its two texts, and the white space around each.
pub record Setting : Type 0 where
  pub label : Bytes
  pub value : Bytes
  pub label_left : Bytes
  pub label_right : Bytes
  pub value_left : Bytes
  pub value_right : Bytes

abbrev pub left : Setting → Bytes
left s = s.label_left ++ (s.label ++ s.label_right)

abbrev pub right : Setting → Bytes
right s = s.value_left ++ (s.value ++ s.value_right)

abbrev pub setting_line : Setting → Bytes
setting_line s = left s ++ (b'=' ∷ right s)

pub record IsSetting (s : Setting) : Type 0 where
  pub left_text : IsLabelText (left s)
  pub right_text : IsValueText (right s)
  pub label_trimmed : IsTrimmed s.label
  pub value_trimmed : IsTrimmed s.value
  pub blanks :
      IsBlank s.label_left × IsBlank s.label_right × IsBlank s.value_left × IsBlank s.value_right

-- An assignment gives its label and its value, without the white space around them.
pub process_line-setting :
    (s : Setting) → IsSetting s → process_line (setting_line s) ≡ entry s.label s.value
process_line-setting s h = rw (
  process_line-parts (left s) (right s) h.left_text h.right_text,
  strstripltw-append s.label_left s.label s.label_right h.blanks.0 h.label_trimmed h.blanks.1,
  strstripltw-append s.value_left s.value s.value_right h.blanks.2 h.value_trimmed h.blanks.3,
)

-- An assignment with nothing but white space for its value, and no `#` and no NUL in the line,
-- reads the byte in front of a buffer.
pub process_line_blank_value :
    (k w : Bytes)
    → IsLabelText k
    → IsValueText w
    → IsBlank w
    → process_line (k ++ (b'=' ∷ w)) ≡ out_of_bounds
process_line_blank_value k w hk hw blank =
    rw (process_line-parts k w hk hw, strstripltw_blank w blank) (both_right (strstripltw k))
