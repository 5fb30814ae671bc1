-- ===== src/KernelAttach/Announcement.antt =====
-- When the watcher fires, over everything that the engine has printed so far.
use dbgscope.Base.{
  ℕ, ◌<◌, ◌≡◌, ◌≢◌, refl, sym, ◌∙◌, arith, true, false, if◌then◌else◌, List, [], ◌∷◌, ◌++◌, length,
  get_elem?-All, inl, inr, Bool-cases,
}
use dbgscope.KernelAttach.{
  Notice, new_notice, feed_byte, feed_bytes, feed, prefix, debug_output_normal,
}
use dbgscope.KernelAttach.Steps.{
  announced, next_in_prefix, no_newline, announced_start, expected, after, expected_step,
}

-- Fewer bytes are matched than the prefix has, while the notice has not fired.
Looking : Notice → Type 0
Looking n = n.matched < length prefix

feed_byte-Looking :
    (n : Notice) (byte : ℕ)
    → Looking n
    → (feed_byte n byte).fired ≡ false
    → Looking (feed_byte n byte)
unfolding feed_byte Looking
feed_byte-Looking n byte m waiting = ground arith

-- A notice that looks for the rest of a prefix finds it at once or at the start of a later line.
feed_bytes-announced :
    (bytes : List ℕ) (n : Notice)
    → n.fired ≡ false
    → Looking n
    → (feed_bytes n bytes).1 ≡ expected n bytes
unfolding feed_bytes feed_byte Looking
feed_bytes-announced [] n f m =
    let (c, e, d) = next_in_prefix prefix n.matched m in
    elim (Bool-cases n.skip_line) [ inl skipped ↦ rw skipped | inr looking ↦ rw (looking, d) ]
feed_bytes-announced (byte ∷ rest) n f m =
    let (c, e, d) = next_in_prefix prefix n.matched m in
    let ne = get_elem?-All (λ c. c ≢ 0x0a) prefix n.matched no_newline e in
    let later : (feed_bytes n (byte ∷ rest)).1 ≡ after rest (feed_byte n byte) =
      elim (Bool-cases (feed_byte n byte).fired) [
        | inl fires ↦ rw fires
        | inr waits ↦
            rw waits (
              feed_bytes-announced rest (feed_byte n byte) waits (feed_byte-Looking n byte m waits))
      ] in
    later ∙ sym (expected_step byte rest n f m e d ne)

-- A fresh notice that is fed one text of normal output fires exactly when some line of the text
-- begins with the announcement.
pub feed-announced :
    (bytes : List ℕ) → (feed new_notice debug_output_normal bytes).1 ≡ announced true bytes
unfolding feed new_notice Looking
feed-announced bytes =
    feed_bytes-announced bytes new_notice refl (omega arith) ∙ sym (announced_start bytes)

feed_bytes-append :
    (front back : List ℕ) (n : Notice)
    → feed_bytes n (front ++ back) ≡ (
        if (feed_bytes n front).1
        then feed_bytes n front
        else feed_bytes (feed_bytes n front).0 back)
unfolding feed_bytes feed_byte
feed_bytes-append [] back n = refl
feed_bytes-append (byte ∷ front) back n = elim (Bool-cases (feed_byte n byte).fired) [
  | inl fires ↦ rw fires
  | inr waits ↦ rw waits (feed_bytes-append front back (feed_byte n byte))
]

feed_bytes-fired :
    (bytes : List ℕ) (n : Notice)
    → n.fired ≡ false
    → (feed_bytes n bytes).0.fired ≡ (feed_bytes n bytes).1
unfolding feed_bytes feed_byte
feed_bytes-fired [] n f = f
feed_bytes-fired (byte ∷ rest) n f = elim (Bool-cases (feed_byte n byte).fired) [
  | inl fires ↦ rw fires fires
  | inr waits ↦ rw waits (feed_bytes-fired rest (feed_byte n byte) waits)
]

feed_while_looking :
    (bytes : List ℕ) (n : Notice)
    → n.fired ≡ false
    → feed n debug_output_normal bytes ≡ feed_bytes n bytes
unfolding feed
feed_while_looking bytes n f = simp (f)

-- Where the engine splits its normal output does not matter: for a notice that has not fired,
-- feeding two texts as one gives the notice and the answer that feeding the one and then the other
-- gives, where the second is fed only if the first does not make the notice fire.
pub feed-append :
    (front back : List ℕ) (n : Notice)
    → n.fired ≡ false
    → feed n debug_output_normal (front ++ back) ≡ (
        if (feed n debug_output_normal front).1
        then feed n debug_output_normal front
        else feed (feed n debug_output_normal front).0 debug_output_normal back)
feed-append front back n f =
    rw
      (
        feed_while_looking (front ++ back) n f,
        feed_while_looking front n f,
        feed_bytes-append front back n,
      )
      (elim (Bool-cases (feed_bytes n front).1) [
        | inl fires ↦ rw fires
        | inr waits ↦ rw waits (
            sym
              (feed_while_looking back (feed_bytes n front).0 (feed_bytes-fired front n f ∙ waits)))
      ])
