-- ===== src/Shell/Lines.antt =====
-- The lines of the input of myjql/main/myjqlshell.cpp, and its loops on them.
use course_pj.Base.{
  ℕ, zero, suc, ◌%◌, ◌^◌, ◌<◌, ◌≤◌, ◌≡◌, ◌≢◌, refl, ap, false, ◌||◌, List, [], ◌∷◌, ◌++◌, arith,
  length, ok, hang, run_bind, ◌==◌,
}
use course_pj.Shell.{read_chars, discard_line, last_or, newline, eof_char}

-- The characters of a line: bytes that end no line and do not look like the end of the input.
pub data Text : List ℕ → Type 0 where
  text_nil : Text []
  text_cons :
      (c : ℕ) (cs : List ℕ) → c < 2 ^ 8 → c ≢ newline → c ≢ eof_char → Text cs → Text (c ∷ cs)

pub Text-letter : (c : ℕ) (cs : List ℕ) → 10 < c → c < 255 → Text cs → Text (c ∷ cs)
Text-letter c cs lo hi t =
    text_cons c cs (omega arith) (λ e. omega (arith, e)) (λ e. omega (arith, e)) t

-- What ends a line: a new line, or the end of the input.
pub data Stop : List ℕ → ℕ → List ℕ → Type 0 where
  at_newline : (rest : List ℕ) → Stop (newline ∷ rest) newline rest
  at_end : Stop [] eof_char []

read_chars-Stop :
    (n : ℕ) (input rest : List ℕ) (c : ℕ)
    → Stop input c rest
    → read_chars (suc n) input ≡ ok (c ∷ []) rest
unfolding read_chars
read_chars-Stop n _ rest _ (at_newline _) = refl
read_chars-Stop n _ _ _ at_end = refl

-- One more character of a line.
read_chars-Text :
    (n c : ℕ) (input rest chars : List ℕ)
    → c < 2 ^ 8
    → c ≢ newline
    → c ≢ eof_char
    → read_chars n input ≡ ok chars rest
    → read_chars (suc n) (c ∷ input) ≡ ok (c ∷ chars) rest
unfolding read_chars
read_chars-Text n c input rest chars byte a b e =
    let char : c % 2 ^ 8 ≡ c = omega arith in
    let on : ((c == newline) || (c == eof_char)) ≡ false = ground arith in
    rw (char, on) (run_bind (read_chars n) _ input rest chars _ e refl)

pub read_chars-short :
    (n : ℕ) (line input rest : List ℕ) (c : ℕ)
    → Text line
    → Stop input c rest
    → length line < n
    → read_chars n (line ++ input) ≡ ok (line ++ (c ∷ [])) rest
read_chars-short zero line input rest c t s h = ground arith
read_chars-short (suc n) _ input rest c text_nil s h = read_chars-Stop n input rest c s
read_chars-short (suc n) _ input rest c (text_cons x xs byte a b t) s h =
    read_chars-Text n x (xs ++ input) rest (xs ++ (c ∷ [])) byte a b
      (read_chars-short n xs input rest c t s (omega arith))

pub read_chars-full :
    (line input : List ℕ) → Text line → read_chars (length line) (line ++ input) ≡ ok line input
unfolding read_chars
read_chars-full _ input text_nil = refl
read_chars-full _ input (text_cons x xs byte a b t) =
    read_chars-Text (length xs) x (xs ++ input) input xs byte a b (read_chars-full xs input t)

pub discard_line-newline :
    (line rest : List ℕ) → Text line → discard_line (line ++ (newline ∷ rest)) ≡ ok tt rest
unfolding discard_line
discard_line-newline _ rest text_nil = refl
discard_line-newline _ rest (text_cons x xs byte a b t) =
    let on : (x == newline) ≡ false = ground arith in rw on (discard_line-newline xs rest t)

pub discard_line-hang : (line : List ℕ) → Text line → discard_line line ≡ hang
unfolding discard_line
discard_line-hang _ text_nil = refl
discard_line-hang _ (text_cons x xs byte a b t) =
    let on : (x == newline) ≡ false = ground arith in rw on (discard_line-hang xs t)

-- The first characters of a text and the others.
pub record Parts (n : ℕ) (line : List ℕ) : Type 0 where
  pub first : List ℕ
  pub others : List ℕ
  pub whole : line ≡ first ++ others
  pub size : length first ≡ n
  pub first_Text : Text first
  pub others_Text : Text others

pub parts : (n : ℕ) (line : List ℕ) → Text line → n ≤ length line → Parts n line
parts zero line t h = record {
  first = [];
  others = line;
  whole = refl;
  size = refl;
  first_Text = text_nil;
  others_Text = t;
}
parts (suc n) _ text_nil h = absurd (omega arith)
parts (suc n) _ (text_cons x xs byte a b t) h =
    let p : Parts n xs = parts n xs t (omega arith) in
    record {
      first = x ∷ p.first;
      others = p.others;
      whole = ap (λ cs. x ∷ cs) p.whole;
      size = ap suc p.size;
      first_Text = text_cons x p.first byte a b p.first_Text;
      others_Text = p.others_Text;
    }

pub last_or-Text :
    (d : ℕ) (line : List ℕ)
    → Text line
    → d ≢ newline
    → d ≢ eof_char
    → (last_or d line ≢ newline) × (last_or d line ≢ eof_char)
last_or-Text d _ text_nil a b = (a, b)
last_or-Text d _ (text_cons x xs byte a b t) c e = last_or-Text x xs t a b

pub last_or-end : (d : ℕ) (xs : List ℕ) (c : ℕ) → last_or d (xs ++ (c ∷ [])) ≡ c
last_or-end d [] c = refl
last_or-end d (x ∷ xs) c = last_or-end x xs c

pub length-end : (xs : List ℕ) (c : ℕ) → length (xs ++ (c ∷ [])) ≡ suc (length xs)
length-end [] c = refl
length-end (x ∷ xs) c = ap suc (length-end xs c)
