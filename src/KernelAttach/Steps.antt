-- ===== src/KernelAttach/Steps.antt =====
-- What one byte does to the watcher, and what is still announced in the bytes after it.
use dbgscope.Base.{
  ℕ, zero, suc, ◌+◌, ◌<◌, ◌≡◌, ◌≢◌, refl, ap, sym, ◌∙◌, arith, Bool, true, false, ◌||◌, ◌&&◌, ◌==◌,
  if◌then◌else◌, some, List, [], ◌∷◌, length, get_elem?, drop, All, inl, inr, Bool-cases, ==_iff,
}
use dbgscope.KernelAttach.{Notice, feed_byte, prefix}

-- Whether a text begins with the given bytes.
abbrev pub starts_with : List ℕ → List ℕ → Bool
starts_with [] bytes = true
starts_with (c ∷ cs) [] = false
starts_with (c ∷ cs) (b ∷ bytes) = b == c && starts_with cs bytes

-- Whether a line of the text begins with the announcement; the flag says that the text begins a
-- line.
abbrev pub announced : Bool → List ℕ → Bool
announced start [] = false
announced start (b ∷ rest) = start && starts_with prefix (b ∷ rest) || announced (b == 0x0a) rest

pub next_in_prefix :
    (xs : List ℕ) (m : ℕ)
    → m < length xs
    → (c : ℕ) × (get_elem? xs m ≡ some c) × (drop m xs ≡ c ∷ drop (suc m) xs)
next_in_prefix [] m h = absurd (omega arith)
next_in_prefix (x ∷ xs) zero h = (x, refl, refl)
next_in_prefix (x ∷ xs) (suc m) h = next_in_prefix xs m (omega arith)

pub no_newline : All (λ c. c ≢ 0x0a) prefix
no_newline = omega arith

pub announced_start :
    (bytes : List ℕ) → announced true bytes ≡ starts_with prefix bytes || announced false bytes
announced_start [] = refl
announced_start (b ∷ rest) = refl

drop_whole {ℓ} : {A : Type ℓ} (xs : List A) → drop (length xs) xs ≡ []
drop_whole [] = refl
drop_whole (x ∷ xs) = drop_whole xs

at_end : (m : ℕ) → m + 1 ≡ length prefix → drop (suc m) prefix ≡ []
at_end m h =
    ap (λ k. drop k prefix) {x = suc m} {y = length prefix} (omega arith) ∙ drop_whole prefix

-- A notice in the middle of the prefix looks for the rest of it; one that has given the line up
-- waits for the next.
abbrev pub expected : Notice → List ℕ → Bool
expected n bytes =
    if n.skip_line
    then announced false bytes
    else starts_with (drop n.matched prefix) bytes || announced false bytes

-- The five things that a byte can do to a notice.
module _ (n : Notice) (byte : ℕ) where
  feed_byte_newline :
      (byte == 0x0a) ≡ true → feed_byte n byte ≡ record n { matched = 0; skip_line = false }
  unfolding feed_byte
  feed_byte_newline e = rw e

  module _ (inside : (byte == 0x0a) ≡ false) where
    feed_byte_skipped : n.skip_line ≡ true → feed_byte n byte ≡ n
    unfolding feed_byte
    feed_byte_skipped e = rw inside (ground arith)

    module _ {c : ℕ} (looking : n.skip_line ≡ false)
        (next : get_elem? prefix n.matched ≡ some c) where
      feed_byte_other :
          (byte == c) ≡ false → feed_byte n byte ≡ record n { matched = 0; skip_line = true }
      unfolding feed_byte
      feed_byte_other e = rw (inside, looking, next, e)

      feed_byte_last :
          (byte == c) ≡ true
          → (n.matched + 1 == length prefix) ≡ true
          → feed_byte n byte ≡ record n { matched = n.matched + 1; fired = true }
      unfolding feed_byte
      feed_byte_last e l = rw (inside, looking, next, e, l)

      feed_byte_more :
          (byte == c) ≡ true
          → (n.matched + 1 == length prefix) ≡ false
          → feed_byte n byte ≡ record n { matched = n.matched + 1 }
      unfolding feed_byte
      feed_byte_more e l = rw (inside, looking, next, e, l)

-- What a notice says after a byte, with the rest still to come.
abbrev pub after : List ℕ → Notice → Bool
after rest n = if n.fired then true else expected n rest

module _ (byte : ℕ) (rest : List ℕ) (n : Notice) (f : n.fired ≡ false) where
  newline_waits : (byte == 0x0a) ≡ true → announced false (byte ∷ rest) ≡ announced true rest
  newline_waits e = rw e

  expected_newline :
      {c : ℕ} (p : List ℕ)
      → drop n.matched prefix ≡ c ∷ p
      → c ≢ 0x0a
      → (byte == 0x0a) ≡ true
      → expected n (byte ∷ rest) ≡ after rest (record n { matched = 0; skip_line = false })
  expected_newline {c} p d ne e =
      let differs : (byte == c) ≡ false = ground arith in
      let line : expected n (byte ∷ rest) ≡ announced false (byte ∷ rest) =
        elim (Bool-cases n.skip_line) [
          | inl skipped ↦ rw skipped
          | inr looking ↦ rw (looking, d, differs)
        ] in
      line ∙ newline_waits e ∙ announced_start rest ∙ rw f

  expected_skipped :
      (byte == 0x0a) ≡ false → n.skip_line ≡ true → expected n (byte ∷ rest) ≡ after rest n
  expected_skipped e s = rw (s, e, f)

  expected_matching :
      {c : ℕ} (p : List ℕ)
      → drop n.matched prefix ≡ c ∷ p
      → (byte == 0x0a) ≡ false
      → n.skip_line ≡ false
      → expected n (byte ∷ rest) ≡ (byte == c) && starts_with p rest || announced false rest
  expected_matching p d e s = rw (s, d, e)

  module _ (c : ℕ) (p : List ℕ) where
    after_other :
        (byte == c) ≡ false
        → (byte == c && starts_with p rest || announced false rest)
          ≡ after rest (record n { matched = 0; skip_line = true })
    after_other e = rw (e, f)

    after_last :
        (byte == c) ≡ true
        → starts_with p rest ≡ true
        → (byte == c && starts_with p rest || announced false rest)
          ≡ after rest (record n { matched = n.matched + 1; fired = true })
    after_last e whole = rw (e, whole)

  after_more :
      (c : ℕ)
      → (byte == c) ≡ true
      → n.skip_line ≡ false
      → (byte == c && starts_with (drop (suc n.matched) prefix) rest || announced false rest)
        ≡ after rest (record n { matched = n.matched + 1 })
  after_more c e s =
      rw (e, f, s)
        (ap (λ k. starts_with (drop k prefix) rest || announced false rest) {x = suc n.matched}
          {y = n.matched + 1} (omega arith))

  -- What a notice says of a text is what it says of the rest, after the first byte.
  pub expected_step :
      {c : ℕ}
      → n.matched < length prefix
      → get_elem? prefix n.matched ≡ some c
      → drop n.matched prefix ≡ c ∷ drop (suc n.matched) prefix
      → c ≢ 0x0a
      → expected n (byte ∷ rest) ≡ after rest (feed_byte n byte)
  expected_step {c} m e d ne = elim (Bool-cases (byte == 0x0a)) [
    | inl newline ↦
        expected_newline _ d ne newline ∙ ap (after rest) (sym (feed_byte_newline n byte newline))
    | inr inside ↦ elim (Bool-cases n.skip_line) [
      | inl skipped ↦
          expected_skipped inside skipped
          ∙ ap (after rest) (sym (feed_byte_skipped n byte inside skipped))
      | inr looking ↦ expected_matching _ d inside looking ∙ elim (Bool-cases (byte == c)) [
        | inr other ↦
            after_other _ _ other
            ∙ ap (after rest) (sym (feed_byte_other n byte inside looking e other))
        | inl match ↦ elim (Bool-cases (n.matched + 1 == length prefix)) [
          | inl last ↦
              after_last _ _ match
                (ap (λ p. starts_with p rest) (at_end n.matched ((==_iff _ _).0 last)))
              ∙ ap (after rest) (sym (feed_byte_last n byte inside looking e match last))
          | inr more ↦
              after_more _ match looking
              ∙ ap (after rest) (sym (feed_byte_more n byte inside looking e match more))
        ]
      ]
    ]
  ]
