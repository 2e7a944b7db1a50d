-- ===== src/Shell/Words.antt =====
-- The commands of myjql/main/myjqlshell.cpp: a command that is written is the one that is read.
use course_pj.Base.{
  ℕ, zero, suc, ◌≡◌, ◌≢◌, refl, ◌∙◌, ap, false, some, List, [], ◌∷◌, ◌++◌, until_nul,
}
use course_pj.Shell.{
  is_space, skip_spaces, word_at, first_word, scan_word, with_word, get_name, set_name, del_name,
  Command, get, set, del, one_word, two_words, parse,
}

-- The characters of a word: neither spaces nor the end of the text.
pub data Word : List ℕ → Type 0 where
  letter : (c : ℕ) → c ≢ 0 → is_space c ≡ false → Word (c ∷ [])
  letters : (c : ℕ) (cs : List ℕ) → c ≢ 0 → is_space c ≡ false → Word cs → Word (c ∷ cs)

abbrev pub space : ℕ
space = 32

-- What stands behind a word: nothing, or a space and more.
pub data Behind : List ℕ → Type 0 where
  nothing : Behind []
  more : (cs : List ℕ) → Behind (space ∷ cs)

word_at-Word :
    (word rest : List ℕ) → Word word → Behind rest → word_at (word ++ rest) ≡ (word, rest)
unfolding word_at
word_at-Word _ _ (letter c n s) nothing = rw s refl
word_at-Word _ _ (letter c n s) (more cs) = rw s refl
word_at-Word _ rest (letters c cs n s w) b = rw (s, word_at-Word cs rest w b) refl

skip_spaces-letter : (c : ℕ) (cs : List ℕ) → is_space c ≡ false → skip_spaces (c ∷ cs) ≡ c ∷ cs
skip_spaces-letter c cs s = rw s refl

skip_spaces-Word : (word rest : List ℕ) → Word word → skip_spaces (word ++ rest) ≡ word ++ rest
skip_spaces-Word _ rest (letter c n s) = skip_spaces-letter c rest s
skip_spaces-Word _ rest (letters c cs n s w) = skip_spaces-letter c (cs ++ rest) s

first_word-Word :
    (word rest : List ℕ) → Word word → Behind rest → first_word (word ++ rest) ≡ some (word, rest)
first_word-Word _ rest (letter c n s) b = ap some (word_at-Word (c ∷ []) rest (letter c n s) b)
first_word-Word _ rest (letters c cs n s w) b =
    ap some (word_at-Word (c ∷ cs) rest (letters c cs n s w) b)

scan_word-Word :
    (word rest : List ℕ) → Word word → Behind rest → scan_word (word ++ rest) ≡ some (word, rest)
scan_word-Word word rest w b =
    ap first_word (skip_spaces-Word word rest w) ∙ first_word-Word word rest w b

one_word-Word :
    (command : List ℕ → Command) (word rest : List ℕ)
    → Word word
    → Behind rest
    → one_word command (space ∷ (word ++ rest)) ≡ command word
one_word-Word command word rest w b =
    ap (with_word (λ word others. command word)) (scan_word-Word word rest w b)

two_words-Word :
    (command : List ℕ → List ℕ → Command) (word other rest : List ℕ)
    → Word word
    → Word other
    → Behind rest
    → two_words command (space ∷ (word ++ (space ∷ (other ++ rest)))) ≡ command word other
two_words-Word command word other rest w o b =
    ap (with_word (λ word others. one_word (command word) others))
      (scan_word-Word word (space ∷ (other ++ rest)) w (more (other ++ rest)))
    ∙ one_word-Word (command word) other rest o b

until_nul-Word :
    (word rest : List ℕ) → Word word → until_nul (word ++ rest) ≡ word ++ until_nul rest
until_nul-Word _ rest (letter zero n s) = absurd (n refl)
until_nul-Word _ rest (letter (suc c) n s) = refl
until_nul-Word _ rest (letters zero cs n s w) = absurd (n refl)
until_nul-Word _ rest (letters (suc c) cs n s w) = ap (λ xs. suc c ∷ xs) (until_nul-Word cs rest w)

-- A command as it is typed.
pub data Typed : Command → List ℕ → Type 0 where
  typed_get :
      (key rest : List ℕ)
      → Word key
      → Behind rest
      → Typed (get key) (get_name ++ (space ∷ (key ++ rest)))
  typed_set :
      (key value rest : List ℕ)
      → Word key
      → Word value
      → Behind rest
      → Typed (set key value) (set_name ++ (space ∷ (key ++ (space ∷ (value ++ rest)))))
  typed_del :
      (key rest : List ℕ)
      → Word key
      → Behind rest
      → Typed (del key) (del_name ++ (space ∷ (key ++ rest)))

until_nul-Behind : (rest : List ℕ) → Behind rest → Behind (until_nul rest)
until_nul-Behind _ nothing = nothing
until_nul-Behind _ (more cs) = more (until_nul cs)

-- `get`, `set` and `del` with words of any length behind them, each after a space, are read as that
-- command with those words; what stands behind the last word after a space does not matter.
pub parse-Typed : (command : Command) (line : List ℕ) → Typed command line → parse line ≡ command
unfolding parse word_at
parse-Typed _ _ (typed_get key rest w b) =
    ap (one_word get) (ap (λ cs. space ∷ cs) (until_nul-Word key rest w))
    ∙ one_word-Word get key (until_nul rest) w (until_nul-Behind rest b)
parse-Typed _ _ (typed_set key value rest w v b) =
    ap (two_words set) (
      ap (λ cs. space ∷ cs)
        (until_nul-Word key (space ∷ (value ++ rest)) w
          ∙ ap (λ cs. key ++ (space ∷ cs)) (until_nul-Word value rest v)))
    ∙ two_words-Word set key value (until_nul rest) w v (until_nul-Behind rest b)
parse-Typed _ _ (typed_del key rest w b) =
    ap (one_word del) (ap (λ cs. space ∷ cs) (until_nul-Word key rest w))
    ∙ one_word-Word del key (until_nul rest) w (until_nul-Behind rest b)
