-- ===== src/Source/Strip.antt =====
-- benchmark/solution.py: `_strip_csharp_comments_and_literals` and the functions that it calls.
-- The list `chars` is passed from call to call with the index. `none` stands for an IndexError and
-- for a loop that used up its fuel.
use csharp_llm_benchmark.Prelude.{
  ℕ, zero, suc, ◌+◌, Option, none, some, List, Bool, true, false, not, ◌&&◌, ◌||◌, ◌==◌, nat_eq,
  ◌>>=◌, if◌then◌else◌, length, get_elem?, set?,
}

abbrev pub newline : ℕ
newline = 10

abbrev pub space : ℕ
space = 32

abbrev pub quote : ℕ
quote = 34

abbrev pub dollar : ℕ
dollar = 36

abbrev pub apostrophe : ℕ
apostrophe = 39

abbrev pub star : ℕ
star = 42

abbrev pub slash : ℕ
slash = 47

abbrev pub at_sign : ℕ
at_sign = 64

abbrev pub backslash : ℕ
backslash = 92

-- `index + k < length and chars[index + k] == c`, for a character that was read or is past the end.
abbrev pub is : Option ℕ → ℕ → Bool
is none c = false
is (some d) c = d == c

-- `index + k < length`
abbrev pub in_range : Option ℕ → Bool
in_range none = false
in_range (some c) = true

-- The list of characters and the index.
abbrev pub Cursor : Type 0
Cursor = List ℕ × ℕ

-- `if chars[index] != "\n": chars[index] = " "`
unfoldable pub blank_unless_newline : List ℕ → ℕ → ℕ → Option (List ℕ)
blank_unless_newline chars index c = if c == newline then some chars else set? chars index space

unfoldable pub blank_until : ℕ → List ℕ → ℕ → ℕ → Option Cursor
blank_until zero chars index terminator = none
blank_until (suc fuel) chars index terminator = elim (get_elem? chars index) [
  | none ↦ some (chars, index)
  | some c ↦
      let rest = (do
        chars' ← set? chars index space
        blank_until fuel chars' (index + 1) terminator) in
      if c == terminator then some (chars, index) else rest
]

unfoldable pub block_comment_loop : ℕ → List ℕ → ℕ → Option Cursor
block_comment_loop zero chars index = none
block_comment_loop (suc fuel) chars index = elim (get_elem? chars index) [
  | none ↦ some (chars, index)
  | some c ↦
      let close = (do
        one ← set? chars index space
        two ← set? one (index + 1) space
        some (two, index + 2)) in
      let rest = (do
        chars' ← blank_unless_newline chars index c
        block_comment_loop fuel chars' (index + 1)) in
      if c == star && is (get_elem? chars (index + 1)) slash then close else rest
]

unfoldable pub blank_block_comment : List ℕ → ℕ → Option Cursor
blank_block_comment chars index = do
  one ← set? chars index space
  two ← set? one (index + 1) space
  block_comment_loop (suc (length two)) two (index + 2)

unfoldable pub starts_csharp_string : List ℕ → ℕ → Bool
starts_csharp_string chars index =
    let current = get_elem? chars index in
    let next_char = get_elem? chars (index + 1) in
    let third_char = get_elem? chars (index + 2) in
    is current quote
    || is current at_sign && is next_char quote
    || is current dollar && is next_char quote
    || is current dollar && (is next_char at_sign && is third_char quote)
    || is current at_sign && (is next_char dollar && is third_char quote)

-- `while index <= quote_index: chars[index] = " "`, by the number of rounds.
unfoldable pub blank_count : ℕ → List ℕ → ℕ → Option Cursor
blank_count zero chars index = some (chars, index)
blank_count (suc rounds) chars index = do
  chars' ← set? chars index space
  blank_count rounds chars' (index + 1)

unfoldable pub string_loop : ℕ → Bool → List ℕ → ℕ → Option Cursor
string_loop zero is_verbatim chars index = none
string_loop (suc fuel) is_verbatim chars index = elim (get_elem? chars index) [
  | none ↦ some (chars, index)
  | some c ↦
      let close = (do chars' ← set? chars index space; some (chars', index + 1)) in
      let pair = (do
        one ← set? chars index space
        two ← set? one (index + 1) space
        string_loop fuel is_verbatim two (index + 2)) in
      let rest = (do
        chars' ← blank_unless_newline chars index c
        string_loop fuel is_verbatim chars' (index + 1)) in
      if c == quote
      then (if is_verbatim && is (get_elem? chars (index + 1)) quote then pair else close)
      else if not is_verbatim && (c == backslash && in_range (get_elem? chars (index + 1)))
      then pair
      else rest
]

abbrev pub is_one_of : Option ℕ → ℕ → ℕ → Bool
is_one_of o c d = is o c || is o d

abbrev pub differ : Option ℕ → Option ℕ → Bool
differ (some c) (some d) = not (c == d)
differ _ _ = false

unfoldable pub is_interpolated_verbatim : List ℕ → ℕ → Bool
is_interpolated_verbatim chars index =
    let current = get_elem? chars index in
    let next_char = get_elem? chars (index + 1) in
    is_one_of current at_sign dollar
    && (is_one_of next_char at_sign dollar
        && (differ current next_char && is (get_elem? chars (index + 2)) quote))

unfoldable pub is_prefixed : List ℕ → ℕ → Bool
is_prefixed chars index =
    is_one_of (get_elem? chars index) at_sign dollar && is (get_elem? chars (index + 1)) quote

unfoldable pub blank_csharp_string : List ℕ → ℕ → Option Cursor
blank_csharp_string chars index =
    let interpolated = is_interpolated_verbatim chars index in
    let is_verbatim = is (get_elem? chars index) at_sign || interpolated in
    let rounds = if interpolated then 3 else if is_prefixed chars index then 2 else 1 in
    do
      (chars', index') ← blank_count rounds chars index
      string_loop (suc (length chars')) is_verbatim chars' index'

unfoldable pub char_literal_loop : ℕ → List ℕ → ℕ → Option Cursor
char_literal_loop zero chars index = none
char_literal_loop (suc fuel) chars index = elim (get_elem? chars index) [
  | none ↦ some (chars, index)
  | some c ↦
      let close = (do chars' ← set? chars index space; some (chars', index + 1)) in
      let pair = (do
        one ← set? chars index space
        two ← set? one (index + 1) space
        char_literal_loop fuel two (index + 2)) in
      let rest = (do
        chars' ← blank_unless_newline chars index c
        char_literal_loop fuel chars' (index + 1)) in
      if c == backslash && in_range (get_elem? chars (index + 1))
      then pair
      else if c == apostrophe
      then close
      else rest
]

unfoldable pub blank_csharp_char_literal : List ℕ → ℕ → Option Cursor
blank_csharp_char_literal chars index = do
  chars' ← set? chars index space
  char_literal_loop (suc (length chars')) chars' (index + 1)

-- One round of the loop of `_strip_csharp_comments_and_literals`.
unfoldable pub strip_step : List ℕ → ℕ → ℕ → Option Cursor
strip_step chars index current =
    let next_char = get_elem? chars (index + 1) in
    if current == slash && is next_char slash
    then blank_until (suc (length chars)) chars index newline
    else if current == slash && is next_char star
    then blank_block_comment chars index
    else if starts_csharp_string chars index
    then blank_csharp_string chars index
    else if current == apostrophe
    then blank_csharp_char_literal chars index
    else some (chars, index + 1)

unfoldable pub strip_loop : ℕ → List ℕ → ℕ → Option (List ℕ)
strip_loop zero chars index = none
strip_loop (suc fuel) chars index = elim (get_elem? chars index) [
  | none ↦ some chars
  | some current ↦ do
    (chars', index') ← strip_step chars index current
    strip_loop fuel chars' index'
]

unfoldable pub strip_csharp_comments_and_literals : List ℕ → Option (List ℕ)
strip_csharp_comments_and_literals code = strip_loop (suc (length code)) code 0
