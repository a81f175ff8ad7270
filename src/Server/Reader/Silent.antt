-- ===== src/Server/Reader/Silent.antt =====
-- On a stream with nothing to read, such as one on the descriptor -1, the loop tests memory that was
-- never written.
use httpserv.Prelude.{
  ℕ, zero, suc, ◌+◌, ◌≡◌, ◌≢◌, refl, false, [], ◌∷◌, ◌++◌, none, Bytes, All, All-append, arith, ◌∙◌,
}
use httpserv.Server.Reader.{at, Reader, initial, terminated, cat_byte, receive, read_head}
use httpserv.Server.Reader.Complete.{read_head-false}

at-All : (s : Bytes) (i : ℕ) → All (λ x. x ≢ b'\n') s → at s i ≢ b'\n'
at-All [] i h = λ e. cc
at-All (x ∷ s) zero h = h.0
at-All (x ∷ s) (suc i) h = at-All s i h.1

terminated-All : (s : Bytes) (len : ℕ) → All (λ x. x ≢ b'\n') s → terminated s len ≡ false
unfolding terminated
terminated-All s len h = ground (arith, at-All s len h)

-- The variables behind some rounds: the block starts with its NUL.
abbrev silent : Bytes → ℕ → Reader
silent s len = record { input = []; c = 0; content = 0 ∷ s; len = len }

module _ (junk : ℕ → ℕ) where
  receive-silent :
      (s : Bytes) (len : ℕ) → receive junk (silent s len) ≡ silent (s ++ junk (len + 1) ∷ []) len
  unfolding receive cat_byte
  receive-silent s len = refl

  read_head-silent :
      (rounds : ℕ) (s : Bytes) (len : ℕ)
      → ((i : ℕ) → junk i ≢ b'\n')
      → All (λ x. x ≢ b'\n') s
      → read_head junk rounds (silent s len) ≡ none
  read_head-silent zero s len j h = unfold read_head in refl
  read_head-silent (suc rounds) s len j h =
      let more = All-append (λ x. x ≢ b'\n') s (junk (len + 1) ∷ []) h (j (len + 1), tt) in
      read_head-false junk rounds _ _ (receive-silent s len)
        (terminated-All (0 ∷ (s ++ junk (len + 1) ∷ [])) len (λ e. cc, more))
      ∙ read_head-silent rounds (s ++ junk (len + 1) ∷ []) (len + 1) j more

  -- On a stream with nothing to read, such as one on the descriptor -1, the loop never stops,
  -- however many rounds it is given, if the fresh memory holds no line feed.
  pub read_head_silent :
      (rounds : ℕ) → ((i : ℕ) → junk i ≢ b'\n') → read_head junk rounds (initial []) ≡ none
  read_head_silent rounds j = read_head-silent rounds [] 0 j tt
