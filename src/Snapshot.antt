-- ===== src/Snapshot.antt =====
-- src/pool/snapshot.rs: what a walk complained about. A text is the list of its characters' numbers.
pub mod Counts
pub mod Spans
mod Tests
use dbgscope.Base.{
  ℕ, zero, suc, ◌+◌, ◌-◌, ◌≡◌, Bool, true, false, ◌||◌, ◌&&◌, ◌==◌, ltb, leb, if◌then◌else◌, Option,
  none, some, ◌>>=◌, List, [], ◌∷◌, ◌++◌, length, get_elem?, set, any, map,
}
use dbgscope.Base.Maps.{HashMap, get, write_entry}

-- `DIAGNOSTIC_EXAMPLES`.
abbrev pub diagnostic_examples : ℕ
diagnostic_examples = 8

-- `char::is_whitespace`.
abbrev pub is_whitespace : ℕ → Bool
is_whitespace c =
    leb 0x09 c && leb c 0x0d
    || (c == 0x20
        || (c == 0x85
            || (c == 0xa0
                || (c == 0x1680
                    || (leb 0x2000 c && leb c 0x200a
                        || (c == 0x2028
                            || (c == 0x2029 || (c == 0x202f || (c == 0x205f || c == 0x3000)))))))))

abbrev pub is_ascii_digit : ℕ → Bool
is_ascii_digit c = leb b'0' c && leb c b'9'

-- A word that is read, before those that follow it.
abbrev pub end_word : List ℕ → List (List ℕ) → List (List ℕ)
end_word [] tokens = tokens
end_word (c ∷ word) tokens = (c ∷ word) ∷ tokens

-- `split_whitespace`, with the word that is being read.
abbrev pub tokens_from : List ℕ → List ℕ → List (List ℕ)
tokens_from word [] = end_word word []
tokens_from word (c ∷ text) =
    let ended = end_word word (tokens_from [] text) in
    let longer = tokens_from (word ++ (c ∷ [])) text in if is_whitespace c then ended else longer

abbrev pub token_shape : List ℕ → List ℕ
token_shape token = if any is_ascii_digit token then b'#' ∷ [] else token

-- `join(" ")`.
abbrev pub join_spaced : List (List ℕ) → List ℕ
join_spaced [] = []
join_spaced (token ∷ []) = token
join_spaced (token ∷ other ∷ tokens) = token ++ (b' ' ∷ join_spaced (other ∷ tokens))

unfoldable pub diagnostic_shape : List ℕ → List ℕ
diagnostic_shape message = join_spaced (map token_shape (tokens_from [] message))

pub record DiagnosticShape : Type 0 where
  pub shape : List ℕ
  pub total : ℕ

pub record PoolDiagnostics : Type 0 where
  pub examples : List (List ℕ)
  pub shapes : List DiagnosticShape
  pub positions : HashMap (List ℕ) ℕ

abbrev pub same_text : List ℕ → List ℕ → Bool
same_text [] [] = true
same_text [] (b ∷ others) = false
same_text (a ∷ text) [] = false
same_text (a ∷ text) (b ∷ others) = a == b && same_text text others

abbrev pub no_diagnostics : PoolDiagnostics
no_diagnostics = record { examples = []; shapes = []; positions = [] }

-- The position of a shape, which is added if it is new.
abbrev pub place : PoolDiagnostics → List ℕ → Option ℕ → PoolDiagnostics × ℕ
place self shape (some position) = (self, position)
place self shape none =
    let shapes = self.shapes ++ (record { shape = shape; total = 0 } ∷ []) in
    let position = length shapes - 1 in
    (
      record self {
        shapes = shapes;
        positions = write_entry same_text shape (λ _. position) self.positions;
      },
      position,
    )

-- One more message of the shape `seen`, at its position.
abbrev pub counted : PoolDiagnostics → ℕ → List ℕ → DiagnosticShape → PoolDiagnostics
counted self position message seen = record self {
  shapes = set self.shapes position (record seen { total = seen.total + 1 });
  examples =
      if leb (seen.total + 1) diagnostic_examples
      then self.examples ++ (message ∷ [])
      else self.examples;
}

-- None stands for an index out of range, which panics.
abbrev pub count_at : PoolDiagnostics → ℕ → List ℕ → Option PoolDiagnostics
count_at self position message =
    get_elem? self.shapes position >>= λ seen. some (counted self position message seen)

unfoldable pub push : PoolDiagnostics → List ℕ → Option PoolDiagnostics
push self message =
    let shape = diagnostic_shape message in
    let (placed, position) = place self shape (get same_text shape self.positions) in
    count_at placed position message

-- `Extend::extend`.
unfoldable pub extend : PoolDiagnostics → List (List ℕ) → Option PoolDiagnostics
extend self [] = some self
extend self (message ∷ messages) = push self message >>= λ next. extend next messages

abbrev pub from_iter : List (List ℕ) → Option PoolDiagnostics
from_iter messages = extend no_diagnostics messages

-- The sum of a measure over the shapes.
abbrev pub total_over : (ℕ → ℕ) → List DiagnosticShape → ℕ
total_over measure [] = 0
total_over measure (seen ∷ shapes) = measure seen.total + total_over measure shapes

unfoldable pub emitted : PoolDiagnostics → ℕ
emitted self = total_over (λ n. n) self.shapes
