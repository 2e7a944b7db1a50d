-- ===== src/Tests/Clients.antt =====
-- The client of myjql/driver/myjqlclient.cpp and the shell of myjql/main/myjqlshell.cpp over pipes.
use course_pj.Base.{
  ℕ, ◌≡◌, refl, List, [], ◌∷◌, ◌++◌, arith, int_bytes, ok, ltb, if◌then◌else◌, hang,
}
use course_pj.Server.Sessions.{Request, session_bytes}
use course_pj.Client.Requests.{conversation, outcomes, conversation-Session}
use course_pj.Shell.{
  get, parse, read_input, input_success, input_too_long, end_of_input, newline, get_name, exit_name,
  input_buffer_size,
}
use course_pj.Shell.Lines.{Text, text_nil, Text-letter}
use course_pj.Shell.Input.{read_input-line, read_input-end}
use course_pj.Shell.Words.{Typed, typed_get, letter, nothing, space, parse-Typed}
use course_pj.Shell.Loop.{prompt, shell}
use course_pj.Shell.Rounds.{shell-end_of_input}
use course_pj.Shell.Sessions.{leave, type_line, printed, shell_at, shell-Session}
use course_pj.Tests.Database.{zeros_memory, limits, no_keys, key_x, asked_once}
use course_pj.Tests.Pipes.{pipes, pipe, reliable_pipes}
use course_pj.Tests.Servers.{one_get, one_get-Session}

conversation-Session_example :
    conversation pipes zeros_memory one_get (pipe (int_bytes 0 ++ (int_bytes 1 ++ [])) [])
    ≡ ok
        (outcomes zeros_memory limits one_get no_keys (int_bytes 0) asked_once one_get-Session)
        (pipes.closesocket (pipe [] (session_bytes one_get)))
conversation-Session_example =
    conversation-Session reliable_pipes zeros_memory limits one_get no_keys asked_once (int_bytes 0)
      [] [] one_get-Session

-- "get x".
abbrev get_x : List ℕ
get_x = get_name ++ (space ∷ (key_x ++ []))

get_x-Typed : Typed (get key_x) get_x
get_x-Typed = typed_get key_x [] (letter 120 (λ e. omega (arith, e)) refl) nothing

get_x-Text : Text get_x
get_x-Text = Text-letter 103 _ (omega arith) (omega arith) (
    Text-letter 101 _ (omega arith) (omega arith) (
      Text-letter 116 _ (omega arith) (omega arith) (
        Text-letter 32 _ (omega arith) (omega arith)
          (Text-letter 120 _ (omega arith) (omega arith) text_nil))))

parse-Typed_example : parse get_x ≡ get key_x
parse-Typed_example = parse-Typed (get key_x) get_x get_x-Typed

read_input-line_example : read_input (get_x ++ (newline ∷ exit_name)) ≡ (
    if ltb input_buffer_size 5
    then ok input_too_long exit_name
    else ok (input_success get_x) exit_name)
read_input-line_example = read_input-line get_x exit_name get_x-Text

read_input-end_example :
    read_input get_x ≡ (if ltb input_buffer_size 5 then hang else ok end_of_input [])
read_input-end_example = read_input-end get_x get_x-Text

shell-end_of_input_example :
    shell pipes zeros_memory 1 (record { stdin = get_x; net = pipe [] []; out = [] })
    ≡ ok tt (record { stdin = []; net = pipe [] []; out = prompt ∷ [] })
shell-end_of_input_example =
    shell-end_of_input pipes zeros_memory 0 get_x (pipe [] []) [] get_x-Text (omega arith)

abbrev script : List ℕ
script = get_x ++ (newline ∷ (exit_name ++ (newline ∷ [])))

shell-Session_example :
    shell pipes zeros_memory 2 (
      shell_at reliable_pipes zeros_memory limits script (int_bytes 0 ++ (int_bytes 1 ++ [])) [] [])
    ≡ ok tt (record {
      stdin = [];
      net = pipes.closesocket (pipe [] (session_bytes one_get));
      out =
          printed reliable_pipes zeros_memory limits one_get no_keys
            (int_bytes 0)
            asked_once
            one_get-Session
            [];
    })
shell-Session_example =
    shell-Session reliable_pipes zeros_memory limits one_get no_keys asked_once (int_bytes 0) script
      [] [] [] one_get-Session
      (type_line (Request.get key_x) [] get_x (exit_name ++ (newline ∷ [])) get_x-Typed get_x-Text
        (omega arith) leave)
