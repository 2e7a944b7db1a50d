-- ===== src/Shell.antt =====
-- myjql/main/myjqlshell.cpp: the shell. Its standard input is a list of characters, the lines that it
-- prints a list, the newest first.
use course_pj.Base.{
  ℕ, zero, suc, ◌+◌, ◌-◌, ◌%◌, ◌^◌, Bool, true, false, not, ◌&&◌, ◌||◌, Option, none, some, List,
  [], ◌∷◌, ◌++◌, ◌==◌, ltb, leb, if◌then◌else◌, length, Bytes, until_nul, take, Cmd, ok, hang, lift,
  pure, ◌>>=◌, ◌>>◌,
}
use course_pj.Net.{Sockets}
use course_pj.Client.{
  Reply, returned, thrown, Error, client_get, client_set, client_del, end_client,
}
pub mod Lines
pub mod Input
pub mod Words
pub mod Loop
pub mod Rounds
pub mod Sessions

abbrev pub input_buffer_size : ℕ
input_buffer_size = 1024

abbrev pub newline : ℕ
newline = 10

-- `EOF` as a `char`; as an `int` it is no character.
abbrev pub eof_char : ℕ
eof_char = 255

pub data InputResult : Type 0 where
  input_success : List ℕ → InputResult
  input_too_long : InputResult
  end_of_input : InputResult

-- `(char) getchar()`.
abbrev pub getchar : Cmd (List ℕ) ℕ
getchar [] = ok eof_char []
getchar (c ∷ cs) = ok (c % 2 ^ 8) cs

-- The first loop: at most so many characters, up to a new line or the end, which is the last of them.
pub read_chars : ℕ → Cmd (List ℕ) (List ℕ)
read_chars zero = pure []
read_chars (suc n) = do
  c ← getchar
  if (c == newline) || (c == eof_char) then pure (c ∷ []) else (do cs ← read_chars n; pure (c ∷ cs))

-- `while (getchar() != '\n');`, which goes on for ever at the end of the input.
pub discard_line : Cmd (List ℕ) (Unit {0})
discard_line [] = hang
discard_line (c ∷ cs) = if c == newline then ok tt cs else discard_line cs

abbrev pub last_or : ℕ → List ℕ → ℕ
last_or d [] = d
last_or d (x ∷ xs) = last_or x xs

-- What becomes of the characters that were read; the last one is left out.
pub input_of : List ℕ → Cmd (List ℕ) InputResult
unfolding discard_line
input_of chars =
    let last = last_or 0 chars in
    let len = length chars - 1 in
    if last == eof_char
    then pure end_of_input
    else if (len == input_buffer_size) && not (last == newline)
    then (do discard_line; pure input_too_long)
    else pure (input_success (take len chars))

unfoldable pub read_input : Cmd (List ℕ) InputResult
unfolding read_chars input_of
read_input = do chars ← read_chars (input_buffer_size + 1); input_of chars

-- `isspace` of the C locale, and `%s` of `sscanf`: a word, and what follows it.
abbrev pub is_space : ℕ → Bool
is_space c = (c == 32) || (leb 9 c && leb c 13)

abbrev pub skip_spaces : List ℕ → List ℕ
skip_spaces [] = []
skip_spaces (c ∷ cs) = let rest = skip_spaces cs in if is_space c then rest else c ∷ cs

pub word_at : List ℕ → List ℕ × List ℕ
word_at [] = ([], [])
word_at (c ∷ cs) =
    let (word, rest) = word_at cs in if is_space c then ([], c ∷ cs) else (c ∷ word, rest)

abbrev pub first_word : List ℕ → Option (List ℕ × List ℕ)
first_word [] = none
first_word (c ∷ cs) = some (word_at (c ∷ cs))

abbrev pub scan_word : List ℕ → Option (List ℕ × List ℕ)
scan_word cs = first_word (skip_spaces cs)

abbrev pub same_text : List ℕ → List ℕ → Bool
same_text [] [] = true
same_text [] (y ∷ ys) = false
same_text (x ∷ xs) [] = false
same_text (x ∷ xs) (y ∷ ys) = (x == y) && same_text xs ys

-- The characters of "exit", "get", "set" and "del".
abbrev pub exit_name : List ℕ
exit_name = 101 ∷ 120 ∷ 105 ∷ 116 ∷ []

abbrev pub get_name : List ℕ
get_name = 103 ∷ 101 ∷ 116 ∷ []

abbrev pub set_name : List ℕ
set_name = 115 ∷ 101 ∷ 116 ∷ []

abbrev pub del_name : List ℕ
del_name = 100 ∷ 101 ∷ 108 ∷ []

-- What a line asks for.
pub data Command : Type 0 where
  exit : Command
  get : List ℕ → Command
  set : List ℕ → List ℕ → Command
  del : List ℕ → Command
  invalid_input : Command
  invalid_command : Command

-- The words behind the command.
abbrev pub with_word : (List ℕ → List ℕ → Command) → Option (List ℕ × List ℕ) → Command
with_word command none = invalid_input
with_word command (some (word, rest)) = command word rest

abbrev pub one_word : (List ℕ → Command) → List ℕ → Command
one_word command rest = with_word (λ word others. command word) (scan_word rest)

abbrev pub two_words : (List ℕ → List ℕ → Command) → List ℕ → Command
two_words command rest = with_word (λ word others. one_word (command word) others) (scan_word rest)

abbrev pub command_of : List ℕ → List ℕ → Command
command_of word rest =
    if same_text word get_name
    then one_word get rest
    else if same_text word set_name
    then two_words set rest
    else if same_text word del_name
    then one_word del rest
    else invalid_command

unfoldable pub parse : List ℕ → Command
unfolding word_at
parse buffer =
    let text = until_nul buffer in
    if same_text text exit_name then exit else with_word command_of (scan_word text)
