-- ===== src/Extension.antt =====
-- src/pool_extension.rs: the arguments of the `!dbgscope.poolmap` command. A text is the list of
-- its bytes.
pub mod Label
mod Tests
use dbgscope.Base.{
  ℕ, ◌+◌, ◌*◌, Bool, true, false, not, ◌&&◌, ◌||◌, ◌==◌, if◌then◌else◌, Option, none, some, ◌>>=◌,
  Result, ok, err, List, [], ◌∷◌, ◌++◌,
}
use dbgscope.Base.Words.{checked_add, checked_mul}
use dbgscope.Decode.Tags.{parse_tag, is_ascii_hexdigit, hex_value}

pub data PoolFilter : Type 0 where
  paged non_paged : PoolFilter

pub record PoolCommand : Type 0 where
  pub tag : Option ℕ
  pub filter : Option PoolFilter
  pub refresh : Bool
  pub address : Option ℕ

-- The messages of `parse_args`.
pub data ArgsError : Type 0 where
  tag_requires_value tag_twice bad_tag filters_exclusive nothing_asked tag_and_address : ArgsError
  invalid_address unrecognized : List ℕ → ArgsError

abbrev pub text_eq : List ℕ → List ℕ → Bool
text_eq [] [] = true
text_eq (a ∷ xs) (b ∷ ys) = a == b && text_eq xs ys
text_eq _ _ = false

-- `split_ascii_whitespace`, with the word that is being read.
abbrev pub is_ascii_whitespace : ℕ → Bool
is_ascii_whitespace b = b == 0x20 || (b == 0x09 || (b == 0x0a || (b == 0x0c || b == 0x0d)))

push_word : List ℕ → List (List ℕ) → List (List ℕ)
push_word [] words = words
push_word (b ∷ word) words = (b ∷ word) ∷ words

words_from : List ℕ → List ℕ → List (List ℕ)
words_from word [] = push_word word []
words_from word (b ∷ rest) =
    let ended = push_word word (words_from [] rest) in
    let longer = words_from (word ++ (b ∷ [])) rest in
    if is_ascii_whitespace b then ended else longer

unfoldable pub split_ascii_whitespace : List ℕ → List (List ℕ)
unfolding words_from push_word
split_ascii_whitespace text = words_from [] text

-- `text.replace('`', "")`.
abbrev without_backticks : List ℕ → List ℕ
without_backticks [] = []
without_backticks (b ∷ rest) =
    let later = without_backticks rest in if b == b'`' then later else b ∷ later

-- `compact.strip_prefix("0x").unwrap_or(&compact)`.
abbrev without_0x : List ℕ → List ℕ
without_0x (a ∷ b ∷ rest) = if a == b'0' && b == b'x' then rest else a ∷ b ∷ rest
without_0x text = text

-- The digits of `u64::from_str_radix(digits, 16)`, and its leading sign.
radix_digits : ℕ → List ℕ → Option ℕ
radix_digits value [] = some value
radix_digits value (b ∷ rest) =
    if is_ascii_hexdigit b
    then (do
      shifted ← checked_mul value 16
      sum ← checked_add shifted (hex_value b)
      radix_digits sum rest)
    else none

from_str_radix_16 : List ℕ → Option ℕ
from_str_radix_16 [] = none
from_str_radix_16 (b ∷ []) = radix_digits 0 (b ∷ [])
from_str_radix_16 (b ∷ c ∷ rest) =
    if b == b'+' then radix_digits 0 (c ∷ rest) else radix_digits 0 (b ∷ c ∷ rest)

unfoldable pub parse_address : List ℕ → Option ℕ
unfolding from_str_radix_16 radix_digits
parse_address text =
    let digits = without_0x (without_backticks text) in
    if not (text_eq digits []) then from_str_radix_16 digits else none

abbrev is_some {ℓ} : {A : Type ℓ} → Option A → Bool
is_some none = false
is_some (some a) = true

abbrev starts_with_dash : List ℕ → Bool
starts_with_dash [] = false
starts_with_dash (b ∷ rest) = b == b'-'

abbrev pub arg_tag : List ℕ
arg_tag = b'-' ∷ b't' ∷ b'a' ∷ b'g' ∷ []

abbrev pub arg_paged : List ℕ
arg_paged = b'-' ∷ b'p' ∷ b'a' ∷ b'g' ∷ b'e' ∷ b'd' ∷ []

abbrev pub arg_non_paged : List ℕ
arg_non_paged = b'-' ∷ b'n' ∷ b'o' ∷ b'n' ∷ b'p' ∷ b'a' ∷ b'g' ∷ b'e' ∷ b'd' ∷ []

abbrev pub arg_refresh : List ℕ
arg_refresh = b'-' ∷ b'r' ∷ b'e' ∷ b'f' ∷ b'r' ∷ b'e' ∷ b's' ∷ b'h' ∷ []

-- The arm of `-tag`, with the argument that follows it.
tag_argument : List ℕ → PoolCommand → Result PoolCommand ArgsError
tag_argument text c =
    if is_some c.tag
    then err tag_twice
    else elim (parse_tag text) [ none ↦ err bad_tag | some tag ↦ ok (record c { tag = some tag }) ]

-- The other arms, each on one argument.
one_argument : List ℕ → PoolCommand → Result PoolCommand ArgsError
one_argument value c =
    if text_eq value arg_paged
    then (if is_some c.filter then err filters_exclusive else ok (record c { filter = some paged }))
    else if text_eq value arg_non_paged
    then (if is_some c.filter
        then err filters_exclusive
        else ok (record c { filter = some non_paged }))
    else if text_eq value arg_refresh
    then ok (record c { refresh = true })
    else if not (starts_with_dash value) && not (is_some c.address)
    then elim (parse_address value) [
      | none ↦ err (invalid_address value)
      | some address ↦ ok (record c { address = some address })
    ]
    else err (unrecognized value)

abbrev and_then {ℓ κ μ} :
    {A : Type ℓ} {B : Type κ} {E : Type μ} → Result A E → (A → Result B E) → Result B E
and_then (ok a) f = f a
and_then (err e) f = err e

-- The loop over the tokens. A command that is accepted so far waits for the arguments left.
parse_tokens : List (List ℕ) → PoolCommand → Result PoolCommand ArgsError
parse_tokens [] c = ok c
parse_tokens (value ∷ []) c =
    if text_eq value arg_tag then err tag_requires_value else one_argument value c
parse_tokens (value ∷ text ∷ rest) c = elim (text_eq value arg_tag) [
  | true ↦ and_then (tag_argument text c) (parse_tokens rest)
  | false ↦ and_then (one_argument value c) (parse_tokens (text ∷ rest))
]

-- The two checks behind the loop.
check_command : PoolCommand → Result PoolCommand ArgsError
check_command c =
    if not (is_some c.tag) && not (is_some c.address)
    then err nothing_asked
    else if is_some c.tag && is_some c.address
    then err tag_and_address
    else ok c

abbrev pub no_arguments : PoolCommand
no_arguments = record { tag = none; filter = none; refresh = false; address = none }

unfoldable pub parse_args : List ℕ → Result PoolCommand ArgsError
unfolding parse_tokens tag_argument one_argument check_command
parse_args args = and_then (parse_tokens (split_ascii_whitespace args) no_arguments) check_command
