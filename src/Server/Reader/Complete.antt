-- ===== src/Server/Reader/Complete.antt =====
-- On a stream that holds a complete request head the loop stops, right behind the head.
use httpserv.Prelude.{
  ℕ, zero, suc, ◌+◌, ◌-◌, ◌≤◌, ◌≡◌, ◌≢◌, refl, ap, ◌∙◌, true, false, [], ◌∷◌, ◌++◌, some, Bytes,
  length, length-append, All, All-append, arith, append_assoc, append-nil,
}
use mathlib.Core.Path.{subst}
use httpserv.Server.Reader.{at, cat_byte, Reader, initial, terminated, receive, read_head}

-- A byte goes behind the text.
pub cat_byte-append :
    (s : Bytes) (c j : ℕ)
    → All (λ x. x ≢ 0) s
    → c ≢ 0
    → cat_byte (s ++ (0 ∷ j ∷ [])) c ≡ s ++ (c ∷ 0 ∷ [])
unfolding cat_byte
cat_byte-append [] c j h n = ground arith
cat_byte-append (x ∷ s) c j h n = ground (arith, cat_byte-append s c j h.1 n)

-- A byte within a text does not depend on what follows the text.
pub at-append : (s t u : Bytes) (c i : ℕ) → i ≤ length s → at (s ++ (c ∷ t)) i ≡ at (s ++ (c ∷ u)) i
at-append [] t u c zero h = refl
at-append [] t u c (suc i) h = absurd (omega arith)
at-append (x ∷ s) t u c zero h = refl
at-append (x ∷ s) t u c (suc i) h = at-append s t u c i (omega arith)

pub terminated-append :
    (s t u : Bytes) (c : ℕ)
    → terminated (s ++ (c ∷ t)) (length s) ≡ terminated (s ++ (c ∷ u)) (length s)
unfolding terminated
terminated-append s t u c = rw (
  at-append s t u c (length s) (omega arith),
  at-append s t u c (length s - 1) (omega arith),
  at-append s t u c (length s - 2) (omega arith),
  at-append s t u c (length s - 3) (omega arith),
)

-- The variables after the bytes `s` have been read, none of them NUL.
abbrev pub state : Bytes → ℕ → Bytes → Reader
state s c input = record { input = input; c = c; content = s ++ 0 ∷ []; len = length s }

module _ (junk : ℕ → ℕ) where
  -- One round takes the next byte.
  pub receive-state :
      (s input : Bytes) (last c : ℕ)
      → All (λ x. x ≢ 0) s
      → c ≢ 0
      → receive junk (state s last (c ∷ input))
        ≡ record { input = input; c = c; content = s ++ (c ∷ 0 ∷ []); len = length s }
  unfolding receive
  receive-state s input last c h n = rw (
    append_assoc s (0 ∷ []) (junk (length s + 1) ∷ []),
    cat_byte-append s c (junk (length s + 1)) h n,
  )

  pub read_head-false :
      (fuel : ℕ) (r r' : Reader)
      → receive junk r ≡ r'
      → terminated r'.content r'.len ≡ false
      → read_head junk (suc fuel) r ≡ read_head junk fuel (record r' { len = r'.len + 1 })
  read_head-false fuel r r' p =
      subst
        (λ (x : Reader).
          terminated x.content x.len ≡ false
          → read_head junk (suc fuel) r ≡ read_head junk fuel (record x { len = x.len + 1 }))
        p (λ e. unfold read_head in rw (e, read_head))

  read_head-true :
      (fuel : ℕ) (r r' : Reader)
      → receive junk r ≡ r'
      → terminated r'.content r'.len ≡ true
      → read_head junk (suc fuel) r ≡ some (record r' { len = r'.len + 1 })
  read_head-true fuel r r' p =
      subst
        (λ (x : Reader).
          terminated x.content x.len ≡ true
          → read_head junk (suc fuel) r ≡ some (record x { len = x.len + 1 }))
        p (λ e. unfold read_head in rw (e, read_head))

pub state-snoc :
    (s input : Bytes) (c : ℕ)
    → record { input = input; c = c; content = s ++ (c ∷ 0 ∷ []); len = length s + 1 }
      ≡ state (s ++ c ∷ []) c input
state-snoc s input c = ground (arith, append_assoc s (c ∷ []) (0 ∷ []), length-append s (c ∷ []))

-- No proper prefix of `u` behind `s` ends a head.
abbrev pub Unfinished : Bytes → Bytes → Type 0
Unfinished s [] = Unit
Unfinished s (c ∷ u) = (terminated (s ++ c ∷ []) (length s) ≡ false) × Unfinished (s ++ c ∷ []) u

-- The byte that was read last.
abbrev pub last_of : ℕ → Bytes → ℕ
last_of last [] = last
last_of last (x ∷ u) = last_of x u

module _ (junk : ℕ → ℕ) where
  -- Bytes that end no head are read one by one.
  pub read_head-Unfinished :
      (fuel rounds last : ℕ) (s u input : Bytes)
      → rounds ≡ length u + fuel
      → All (λ x. x ≢ 0) s
      → All (λ x. x ≢ 0) u
      → Unfinished s u
      → read_head junk rounds (state s last (u ++ input))
        ≡ read_head junk fuel (state (s ++ u) (last_of last u) input)
  read_head-Unfinished fuel rounds last s [] input e hs hu n =
      let e' : rounds ≡ fuel = omega arith in rw (e', append-nil)
  read_head-Unfinished fuel rounds last s (x ∷ u) input e hs hu n =
      let more = All-append (λ x. x ≢ 0) s (x ∷ []) hs (hu.0, tt) in
      let e' : rounds ≡ suc (length u + fuel) = omega arith in
      rw e' (
        read_head-false junk (length u + fuel) _ _
          (receive-state junk s (u ++ input) last x hs hu.0)
          (terminated-append s (0 ∷ []) [] x ∙ n.0)
        ∙ ap (read_head junk (length u + fuel)) (state-snoc s (u ++ input) x)
        ∙ read_head-Unfinished fuel (length u + fuel) x (s ++ x ∷ []) u input refl more hu.1 n.1
        ∙ rw (append_assoc s (x ∷ []) u))

  -- On a stream that starts with a head, of which no shorter part ends one, and that holds no NUL
  -- up to there, the loop stops if it has one round for each byte of the head or more: with the
  -- head in the block, a NUL behind it, its length, and the stream behind the head.
  pub read_head_complete :
      (head : Bytes) (c fuel : ℕ) (input : Bytes)
      → All (λ x. x ≢ 0) head
      → c ≢ 0
      → Unfinished [] head
      → terminated (head ++ c ∷ []) (length head) ≡ true
      → read_head junk (length head + suc fuel) (initial (head ++ (c ∷ input)))
        ≡ some
            (record { input = input; c = c; content = head ++ (c ∷ 0 ∷ []); len = length head + 1 })
  read_head_complete head c fuel input h n u e =
      read_head-Unfinished (suc fuel) _ 0 [] head (c ∷ input) refl tt h u
      ∙ read_head-true junk fuel _ _ (receive-state junk head input _ c h n)
          (terminated-append head (0 ∷ []) [] c ∙ e)
