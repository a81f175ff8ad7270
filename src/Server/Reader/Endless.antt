-- ===== src/Server/Reader/Endless.antt =====
-- On a stream that ends before a head is complete the loop never stops.
use httpserv.Prelude.{
  ℕ, zero, suc, ◌+◌, ◌-◌, ◌≤◌, ◌≡◌, ◌≢◌, refl, sym, ap, ◌∙◌, false, [], ◌∷◌, ◌++◌, some, none,
  Bytes, length, length-append, All, All-append, arith, append_assoc, append-nil, Bool-cases,
  Option-cases, inl, inr,
}
use httpserv.Server.Reader.{at, Reader, initial, terminated, receive, advance, read_head}
use httpserv.Server.Reader.Complete.{
  state, state-snoc, cat_byte-append, read_head-false, Unfinished, last_of, read_head-Unfinished,
}

at-length : (s t : Bytes) (c : ℕ) → at (s ++ (c ∷ t)) (length s) ≡ c
at-length [] t c = refl
at-length (x ∷ s) t c = at-length s t c

-- A byte that stands twice at the end ends no head.
terminated_twice :
    (s t : Bytes) (c : ℕ) → terminated ((s ++ c ∷ []) ++ (c ∷ t)) (length (s ++ c ∷ [])) ≡ false
unfolding terminated
terminated_twice s t c =
    let here = at-length (s ++ c ∷ []) t c in
    let before : at ((s ++ c ∷ []) ++ (c ∷ t)) (length s) ≡ c =
      rw append_assoc (at-length s (c ∷ t) c) in
    let index : length (s ++ c ∷ []) - 1 ≡ length s = omega (arith, length-append s (c ∷ [])) in
    rw (here, index, before) (ground arith)

last_of-append : (last : ℕ) (s : Bytes) (c : ℕ) → last_of last (s ++ c ∷ []) ≡ c
last_of-append last [] c = refl
last_of-append last (x ∷ s) c = last_of-append x s c

module _ (junk : ℕ → ℕ) where
  -- At the end of the stream a round takes the last byte again.
  receive_end :
      (s : Bytes) (c : ℕ)
      → All (λ x. x ≢ 0) s
      → c ≢ 0
      → receive junk (state s c [])
        ≡ record { input = []; c = c; content = s ++ (c ∷ 0 ∷ []); len = length s }
  unfolding receive
  receive_end s c h n = rw (
    append_assoc s (0 ∷ []) (junk (length s + 1) ∷ []),
    cat_byte-append s c (junk (length s + 1)) h n,
  )

  read_head_end :
      (fuel : ℕ) (s : Bytes) (c : ℕ)
      → All (λ x. x ≢ 0) s
      → c ≢ 0
      → read_head junk fuel (state (s ++ c ∷ []) c []) ≡ none
  read_head_end zero s c h n = unfold read_head in refl
  read_head_end (suc fuel) s c h n =
      let more = All-append (λ x. x ≢ 0) s (c ∷ []) h (n, tt) in
      read_head-false junk fuel _ _ (receive_end (s ++ c ∷ []) c more n)
        (terminated_twice s (0 ∷ []) c)
      ∙ ap (read_head junk fuel) (state-snoc (s ++ c ∷ []) [] c)
      ∙ read_head_end fuel (s ++ c ∷ []) c more n

  read_head_mono :
      (fuel more : ℕ) (r : Reader) {x : Reader}
      → fuel ≤ more
      → read_head junk fuel r ≡ some x
      → read_head junk more r ≡ some x
  unfolding read_head
  read_head_mono zero more r h e = cc
  read_head_mono (suc fuel) zero r h e = absurd (omega arith)
  read_head_mono (suc fuel) (suc more) r {x} h e =
      let r' = receive junk r in
      elim (Bool-cases (terminated r'.content r'.len)) [
        | inl stop ↦ rw (stop, read_head) (rw (stop, read_head) at e)
        | inr go ↦
            rw (go, read_head)
              (read_head_mono fuel more (advance junk r') (omega arith) (rw (go, read_head) at e))
      ]

  read_head_after :
      (s : Bytes) (c fuel : ℕ)
      → All (λ x. x ≢ 0) s
      → c ≢ 0
      → Unfinished [] (s ++ c ∷ [])
      → read_head junk (length (s ++ c ∷ []) + fuel) (initial (s ++ c ∷ [])) ≡ none
  read_head_after s c fuel h n u =
      let all = All-append (λ x. x ≢ 0) s (c ∷ []) h (n, tt) in
      ap (λ i. read_head junk (length (s ++ c ∷ []) + fuel) (initial i))
        (sym (append-nil (s ++ c ∷ [])))
      ∙ read_head-Unfinished junk fuel _ 0 [] (s ++ c ∷ []) [] refl tt all u
      ∙ rw (last_of-append 0 s c) (read_head_end fuel s c h n)

  -- On a stream that is not empty, holds no NUL and of which no part ends a head, the loop never
  -- stops, however many rounds it is given: when the peer has closed the stream it takes the last
  -- byte again and again.
  pub read_head_endless :
      (s : Bytes) (c rounds : ℕ)
      → All (λ x. x ≢ 0) s
      → c ≢ 0
      → Unfinished [] (s ++ c ∷ [])
      → read_head junk rounds (initial (s ++ c ∷ [])) ≡ none
  read_head_endless s c rounds h n u =
      elim (Option-cases (read_head junk rounds (initial (s ++ c ∷ [])))) [
        | inl never ↦ never
        | inr (x, ends) ↦
            let later =
              read_head_mono rounds (length (s ++ c ∷ []) + rounds) _ (omega arith) ends in
            let never = read_head_after s c rounds h n u in cc
      ]
