-- ===== src/Snapshot/Counts.antt =====
-- What the counts of the diagnostics say.
use dbgscope.Base.{
  ℕ, zero, suc, ◌+◌, ◌-◌, ◌<◌, ◌≡◌, refl, ap, sym, subst, ◌∙◌, arith, leb, min, Bool-cases, inl,
  inr, some_inj, Option, none, some, ◌>>=◌, List, [], ◌∷◌, ◌++◌, length, get_elem?, get_elem?-some,
  set, length-set, length-append, All,
}
use dbgscope.Base.Maps.{HashMap, get, write_entry}
use dbgscope.Snapshot.{
  DiagnosticShape, PoolDiagnostics, diagnostic_shape, diagnostic_examples, same_text,
  no_diagnostics, place, counted, count_at, push, extend, from_iter, total_over, emitted,
}

-- The messages of a shape that are kept.
abbrev pub kept : ℕ → ℕ
kept total = min total diagnostic_examples

total_over-append :
    (measure : ℕ → ℕ) (shapes : List DiagnosticShape) (shape : List ℕ)
    → measure 0 ≡ 0
    → total_over measure (shapes ++ (record { shape = shape; total = 0 } ∷ []))
      ≡ total_over measure shapes
total_over-append measure [] shape z = omega (arith, z)
total_over-append measure (seen ∷ shapes) shape z =
    ap (λ n. measure seen.total + n) (total_over-append measure shapes shape z)

total_over-set :
    (measure : ℕ → ℕ) (shapes : List DiagnosticShape) (i : ℕ) {seen : DiagnosticShape}
    → get_elem? shapes i ≡ some seen
    → total_over measure (set shapes i (record seen { total = seen.total + 1 }))
        + measure seen.total
      ≡ total_over measure shapes + measure (seen.total + 1)
total_over-set measure [] i h = absurd (cc)
total_over-set measure (s ∷ shapes) zero {seen} h =
    let e : s ≡ seen = some_inj h in omega (arith, ap (λ r. measure r.total) e)
total_over-set measure (s ∷ shapes) (suc i) h = omega (arith, total_over-set measure shapes i h)

-- What every diagnostics that was pushed to keeps: each position that is known is that of a shape,
-- and of each shape the first messages are kept, up to the cap.
IsCounted : ℕ → PoolDiagnostics → Type 0
IsCounted messages d =
    All (λ entry. entry.1 < length d.shapes) d.positions
    × (total_over (λ n. n) d.shapes ≡ messages)
    × (length d.examples ≡ total_over kept d.shapes)

get-All :
    (bound : ℕ) (shape : List ℕ) (m : HashMap (List ℕ) ℕ) {position : ℕ}
    → All (λ entry. entry.1 < bound) m
    → get same_text shape m ≡ some position
    → position < bound
get-All bound shape [] h e = absurd (cc)
get-All bound shape ((k, v) ∷ m) h e = elim (Bool-cases (same_text shape k)) [
  | inl same ↦ subst (λ p. p < bound) (some_inj (cc (rw same at e))) h.0
  | inr other ↦ get-All bound shape m h.1 (cc (rw other at e))
]

weaken-All :
    (bound : ℕ) (m : HashMap (List ℕ) ℕ)
    → All (λ entry. entry.1 < bound) m
    → All (λ entry. entry.1 < suc bound) m
weaken-All bound [] h = tt
weaken-All bound ((k, v) ∷ m) h = (omega (arith, h.0), weaken-All bound m h.1)

write_entry-All :
    (bound : ℕ) (shape : List ℕ) (m : HashMap (List ℕ) ℕ)
    → All (λ entry. entry.1 < bound) m
    → All (λ entry. entry.1 < suc bound) (write_entry same_text shape (λ _. bound) m)
write_entry-All bound shape [] h = (omega arith, tt)
write_entry-All bound shape ((k, v) ∷ m) h = elim (Bool-cases (same_text shape k)) [
  | inl same ↦ rw same (omega arith, weaken-All bound m h.1)
  | inr other ↦ rw other (omega (arith, h.0), write_entry-All bound shape m h.1)
]

count_at-IsCounted :
    (messages position : ℕ) (d : PoolDiagnostics) (message : List ℕ)
    → IsCounted messages d
    → position < length d.shapes
    → (next : PoolDiagnostics) × (count_at d position message ≡ some next)
      × IsCounted (suc messages) next
unfolding IsCounted
count_at-IsCounted messages position d message (known, sum, few) inside =
    let (seen, e) = get_elem?-some d.shapes position inside in
    let size = length-set d.shapes position (record seen { total = seen.total + 1 }) in
    let all_up = total_over-set (λ n. n) d.shapes position e in
    let kept_up = total_over-set kept d.shapes position e in
    (
      _,
      ap (λ o. o >>= λ s. some (counted d position message s)) e,
      (
        subst (λ n. All (λ entry. entry.1 < n) d.positions) (sym size) known,
        omega arith,
        elim (Bool-cases (leb (seen.total + 1) diagnostic_examples)) [
          | inl room ↦ rw room (ground (arith, length-append d.examples (message ∷ [])))
          | inr full ↦ rw full (ground arith)
        ],
      ),
    )

place-IsCounted :
    (messages : ℕ) (d : PoolDiagnostics) (shape : List ℕ) (found : Option ℕ)
    → get same_text shape d.positions ≡ found
    → IsCounted messages d
    → IsCounted messages (place d shape found).0
      × ((place d shape found).1 < length (place d shape found).0.shapes)
unfolding IsCounted
place-IsCounted messages d shape (some position) e (known, sum, few) =
    ((known, sum, few), get-All (length d.shapes) shape d.positions known e)
place-IsCounted messages d shape none e (known, sum, few) =
    let fresh : DiagnosticShape = record { shape = shape; total = 0 } in
    let size : length (d.shapes ++ (fresh ∷ [])) ≡ suc (length d.shapes) =
      length-append d.shapes (fresh ∷ []) ∙ omega arith in
    let last : length d.shapes ≡ length (d.shapes ++ (fresh ∷ [])) - 1 = omega arith in
    let written =
      subst
        (λ p.
          All (λ entry. entry.1 < suc (length d.shapes))
            (write_entry same_text shape (λ _. p) d.positions))
        last (write_entry-All (length d.shapes) shape d.positions known) in
    (
      (
        subst
            (λ n.
              All (λ entry. entry.1 < n)
                (write_entry same_text shape (λ _. length (d.shapes ++ (fresh ∷ [])) - 1)
                  d.positions))
            (sym size) written,
        total_over-append (λ n. n) d.shapes shape refl ∙ sum,
        few ∙ sym (total_over-append kept d.shapes shape refl),
      ),
      omega arith,
    )

push-IsCounted :
    (messages : ℕ) (d : PoolDiagnostics) (message : List ℕ)
    → IsCounted messages d
    → (next : PoolDiagnostics) × (push d message ≡ some next) × IsCounted (suc messages) next
unfolding push
push-IsCounted messages d message h =
    let shape = diagnostic_shape message in
    let (placed, inside) =
      place-IsCounted messages d shape (get same_text shape d.positions) refl h in
    count_at-IsCounted messages _ _ message placed inside

extend-IsCounted :
    (n : ℕ) (d : PoolDiagnostics) (messages : List (List ℕ))
    → IsCounted n d
    → (next : PoolDiagnostics) × (extend d messages ≡ some next)
      × IsCounted (n + length messages) next
unfolding extend
extend-IsCounted n d [] h = (d, refl, subst (λ k. IsCounted k d) (omega arith) h)
extend-IsCounted n d (message ∷ messages) h =
    let (pushed, e, c) = push-IsCounted n d message h in
    let (next, more, all_counted) = extend-IsCounted (suc n) pushed messages c in
    (
      next,
      ap (λ o. o >>= λ p. extend p messages) e ∙ more,
      subst (λ k. IsCounted k next) (omega arith) all_counted,
    )

-- Any messages can be recorded, with no index out of range: the count of emitted messages is the
-- number of them, and as many are kept verbatim as the shapes have, each counted up to the cap.
pub from_iter-emitted :
    (messages : List (List ℕ))
    → (d : PoolDiagnostics) × (from_iter messages ≡ some d)
      × (emitted d ≡ length messages)
      × (length d.examples ≡ total_over kept d.shapes)
unfolding emitted IsCounted
from_iter-emitted messages =
    let (d, e, (known, sum, few)) = extend-IsCounted 0 no_diagnostics messages (tt, refl, refl) in
    (d, e, sum ∙ omega arith, few)
