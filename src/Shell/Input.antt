-- ===== src/Shell/Input.antt =====
-- The input of myjql/main/myjqlshell.cpp: every line is read to its end.
use mathlib.Core.List.{append_assoc, append-nil}
use course_pj.Base.{
  ℕ, suc, ◌+◌, ◌-◌, ◌<◌, ◌≡◌, refl, sym, ◌∙◌, ap, List, [], ◌∷◌, ◌++◌, arith, length, take-append,
  Res, ok, hang, run_bind, pure, ◌>>◌, ◌==◌, ==-ne, ltb, if◌then◌else◌, Bool-cases, inl, inr,
}
use course_pj.Shell.{
  InputResult, input_success, input_too_long, end_of_input, read_input, read_chars, input_of,
  discard_line, last_or, newline, eof_char, input_buffer_size,
}
use course_pj.Shell.Lines.{
  Text, at_newline, at_end, Parts, parts, read_chars-short, read_chars-full, discard_line-newline,
  discard_line-hang, last_or-Text, last_or-end, length-end,
}

input_of-newline :
    (line rest : List ℕ) → input_of (line ++ (newline ∷ [])) rest ≡ ok (input_success line) rest
unfolding input_of
input_of-newline line rest =
    let size : suc (length line) - 1 ≡ length line = omega arith in
    rw (last_or-end 0 line newline, length-end line newline, size, take-append line (newline ∷ []))
      (elim (Bool-cases (length line == input_buffer_size)) [
        | inl e ↦ rw e refl
        | inr e ↦ rw e refl
      ])

input_of-end : (line rest : List ℕ) → input_of (line ++ (eof_char ∷ [])) rest ≡ ok end_of_input rest
unfolding input_of
input_of-end line rest = rw (last_or-end 0 line eof_char) refl

input_of-long :
    (line rest : List ℕ)
    → Text line
    → length line ≡ input_buffer_size + 1
    → input_of line rest ≡ (discard_line >> pure input_too_long) rest
unfolding input_of
input_of-long line rest t h =
    let (a, b) = last_or-Text 0 line t (λ e. omega (arith, e)) (λ e. omega (arith, e)) in
    rw (==-ne (last_or 0 line) newline a, ==-ne (last_or 0 line) eof_char b, h) refl

-- What is left of a line that is too long is left out.
long_line :
    (line input : List ℕ) (r : Res (List ℕ) InputResult)
    → Text line
    → input_buffer_size < length line
    → ((others : List ℕ)
        → Text others
        → (discard_line >> pure input_too_long) (others ++ input) ≡ r)
    → read_input (line ++ input) ≡ r
unfolding read_input
long_line line input r t h k =
    let p : Parts (input_buffer_size + 1) line =
      parts (input_buffer_size + 1) line t (omega arith) in
    ap (λ cs. read_input (cs ++ input)) p.whole
    ∙ ap read_input (append_assoc p.first p.others input)
    ∙ run_bind (read_chars (input_buffer_size + 1)) input_of (p.first ++ (p.others ++ input))
        (p.others ++ input) p.first _
        (ap (λ n. read_chars n (p.first ++ (p.others ++ input))) (sym p.size)
          ∙ read_chars-full p.first (p.others ++ input) p.first_Text)
        (input_of-long p.first (p.others ++ input) p.first_Text p.size ∙ k p.others p.others_Text)

-- A line of at most 1024 characters is the input, and what follows its new line is left; a longer
-- line is refused, and left out with its new line.
pub read_input-line :
    (line rest : List ℕ)
    → Text line
    → read_input (line ++ (newline ∷ rest)) ≡ (
        if ltb input_buffer_size (length line)
        then ok input_too_long rest
        else ok (input_success line) rest)
unfolding read_input
read_input-line line rest t = elim (Bool-cases (ltb input_buffer_size (length line))) [
  | inl e ↦ rw e (
      long_line line (newline ∷ rest) _ t (ground arith) (λ others u.
        run_bind discard_line (λ v. pure input_too_long) (others ++ (newline ∷ rest)) rest tt
          (ok input_too_long rest) (discard_line-newline others rest u) refl))
  | inr e ↦ rw e (
      run_bind (read_chars (input_buffer_size + 1)) input_of (line ++ (newline ∷ rest)) rest
        (line ++ (newline ∷ [])) _
        (read_chars-short (input_buffer_size + 1) line (newline ∷ rest) rest newline t
          (at_newline rest) (ground arith))
        (input_of-newline line rest))
]

-- At the end of the input, within a line of at most 1024 characters or before it, the program exits.
-- Within a longer line it looks for a new line for ever.
pub read_input-end :
    (line : List ℕ)
    → Text line
    → read_input line ≡ (if ltb input_buffer_size (length line) then hang else ok end_of_input [])
unfolding read_input
read_input-end line t = elim (Bool-cases (ltb input_buffer_size (length line))) [
  | inl e ↦ rw e (
      ap read_input (sym (append-nil line))
      ∙ long_line line [] hang t (ground arith)
          (λ others u. rw (append-nil others, discard_line-hang others u) refl))
  | inr e ↦ rw e (
      ap read_input (sym (append-nil line))
      ∙ run_bind (read_chars (input_buffer_size + 1)) input_of (line ++ []) []
          (line ++ (eof_char ∷ [])) _
          (read_chars-short (input_buffer_size + 1) line [] [] eof_char t at_end (ground arith))
          (input_of-end line []))
]
