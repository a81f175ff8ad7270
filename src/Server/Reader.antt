-- ===== src/Server/Reader.antt =====
-- The loop at the start of `httpserv_httpserver_worker`, src/net/server.c, that reads a request up to
-- its blank line. A read at the end of the stream leaves the variable `c` as it is, since the result
-- of the read is dropped. `realloc` appends one byte to the block, whose value is `junk` of its
-- position.
pub mod Complete
pub mod Endless
pub mod Silent
use httpserv.Prelude.{
  ℕ, zero, suc, ◌+◌, ◌-◌, Bool, true, false, ◌&&◌, List, [], ◌∷◌, ◌++◌, leb, ◌==◌, Option, some,
  none, Bytes, if◌then◌else◌,
}

-- `content[i]`; a read behind the block gives 0 here, and does not occur.
abbrev pub at : Bytes → ℕ → ℕ
at [] i = 0
at (c ∷ s) zero = c
at (c ∷ s) (suc i) = at s i

-- The byte `c` and a NUL, written at the start of what is left of the block.
abbrev pub write_two : ℕ → Bytes → Bytes
write_two c [] = c ∷ []
write_two c (x ∷ rest) = c ∷ 0 ∷ rest

-- `strncat(content, &c, 1)` on the memory of `content`: the byte goes to the place of the first NUL.
unfoldable pub cat_byte : Bytes → ℕ → Bytes
cat_byte [] c = []
cat_byte (x ∷ rest) c =
    if x == 0 then (if c == 0 then x ∷ rest else write_two c rest) else x ∷ cat_byte rest c

-- The variables of the loop, and what the peer still sends before it closes the stream.
pub record Reader : Type 0 where
  pub input : Bytes
  pub c : ℕ
  pub content : Bytes
  pub len : ℕ

abbrev pub initial : Bytes → Reader
initial input = record { input = input; c = 0; content = 0 ∷ []; len = 0 }

-- `httpserv_net_connector_read(…, &c, 1)`: the new value of `c`, and what is left.
abbrev pub read_byte : Bytes → ℕ → ℕ × Bytes
read_byte [] c = (c, [])
read_byte (x ∷ input) c = (x, input)

-- Whether the bytes up to position `len` end in CR LF CR LF, and are at least five.
unfoldable pub terminated : Bytes → ℕ → Bool
terminated content len =
    leb 4 len
    && at content len == b'\n'
    && at content (len - 1) == b'\r'
    && at content (len - 2) == b'\n'
    && at content (len - 3) == b'\r'

module _ (junk : ℕ → ℕ) where
  -- The first three statements of a round.
  unfoldable pub receive : Reader → Reader
  unfolding cat_byte
  receive r =
      let next = read_byte r.input r.c in
      record {
        input = next.1;
        c = next.0;
        content = cat_byte (r.content ++ junk (r.len + 1) ∷ []) next.0;
        len = r.len;
      }

  abbrev pub advance : Reader → Reader
  advance r = record r { len = r.len + 1 }

  -- The loop, with fuel for its rounds: the variables when it is left, or `none` if the fuel is used
  -- up.
  unfoldable pub read_head : ℕ → Reader → Option Reader
  read_head zero r = none
  read_head (suc fuel) r =
      let r' = receive r in
      elim (terminated r'.content r'.len) [
        | true ↦ some (advance r')
        | false ↦ read_head fuel (advance r')
      ]
