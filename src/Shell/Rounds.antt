-- ===== src/Shell/Rounds.antt =====
-- A round of the loop of myjql/main/myjqlshell.cpp: a line of the input, a command, the end.
use course_pj.Base.{
  ℕ, suc, ◌≤◌, ◌≡◌, refl, ◌∙◌, false, Option, List, [], ◌∷◌, ◌++◌, arith, length, Bytes, Res, ok,
  fault, hang, run_bind, lift_lem, pure, ◌>>=◌, ◌>>◌, ltb,
}
use course_pj.Net.{Sockets}
use course_pj.Server.Sessions.{Request}
use course_pj.Client.{Reply, returned, thrown, client_set, client_del}
use course_pj.Client.Requests.{ask, without_value}
use course_pj.Shell.{
  input_success, end_of_input, read_input, Command, get, set, del, parse, newline,
  input_buffer_size,
}
use course_pj.Shell.Lines.{Text}
use course_pj.Shell.Input.{read_input-line, read_input-end}
use course_pj.Shell.Loop.{
  Shell, Line, prompt, done, error, continue, exit_success, on_stdin, on_client, print, get_line,
  done_line, run_command, run_input, shell_round, after_round, shell,
}

-- The command that makes a request, and the line that tells its outcome.
abbrev pub command : Request → Command
command (Request.get key) = get key
command (Request.set key val) = set key val
command (Request.del key) = del key

abbrev pub shown_done : Reply (Option (List ℕ)) → Line
shown_done (returned v) = done
shown_done (thrown e) = error e

abbrev pub shown : Request → Reply (Option (List ℕ)) → Line
shown (Request.get key) = get_line
shown (Request.set key val) = shown_done
shown (Request.del key) = shown_done

module _ {N : Type 0} (sockets : Sockets N) (garbage : Bytes) where
  pub shell_round-line :
      (line rest : List ℕ) (n : N) (out : List Line)
      → Text line
      → length line ≤ input_buffer_size
      → shell_round sockets garbage
          (record { stdin = line ++ (newline ∷ rest); net = n; out = out })
        ≡ run_command sockets garbage
            (parse line)
            (record { stdin = rest; net = n; out = prompt ∷ out })
  unfolding shell_round
  shell_round-line line rest n out t h =
      run_bind (on_stdin read_input) (run_input sockets garbage)
        (record { stdin = line ++ (newline ∷ rest); net = n; out = prompt ∷ out })
        (record { stdin = rest; net = n; out = prompt ∷ out }) (input_success line) _
        (lift_lem (λ (s : Shell N). s.stdin) (λ i s. record s { stdin = i }) read_input
          (record { stdin = line ++ (newline ∷ rest); net = n; out = prompt ∷ out })
          (input_success line) rest
          (let fits : ltb input_buffer_size (length line) ≡ false = ground arith in
            read_input-line line rest t ∙ rw fits refl))
        refl

  done_shown :
      (x : Res N (Reply (Unit {0}))) (s : Shell N)
      → ((on_client (λ n. x)) >>= (λ reply. print (done_line reply) >> pure continue)) s
        ≡ (on_client ((λ n. x) >>= (λ reply. pure (without_value reply)))
              >>= (λ reply. print (shown_done reply) >> pure continue))
            s
  done_shown (ok (returned v) n) s = refl
  done_shown (ok (thrown e) n) s = refl
  done_shown fault s = refl
  done_shown hang s = refl

  pub run_command-ask :
      (r : Request) (s : Shell N)
      → run_command sockets garbage (command r) s
        ≡ (on_client (ask sockets garbage r) >>= (λ reply. print (shown r reply) >> pure continue))
            s
  unfolding run_command ask
  run_command-ask (Request.get key) s = refl
  run_command-ask (Request.set key val) s = done_shown (client_set sockets garbage key val s.net) s
  run_command-ask (Request.del key) s = done_shown (client_del sockets garbage key s.net) s

  -- At the end of its input, before a line or within one of at most 1024 characters, the shell exits at
  -- once: it sends no last request, and its socket is left as it was.
  pub shell-end_of_input :
      (rounds_left : ℕ) (line : List ℕ) (n : N) (out : List Line)
      → Text line
      → length line ≤ input_buffer_size
      → shell sockets garbage (suc rounds_left) (record { stdin = line; net = n; out = out })
        ≡ ok tt (record { stdin = []; net = n; out = prompt ∷ out })
  unfolding shell shell_round
  shell-end_of_input rounds_left line n out t h =
      run_bind (shell_round sockets garbage)
        (after_round sockets garbage (shell sockets garbage rounds_left))
        (record { stdin = line; net = n; out = out })
        (record { stdin = []; net = n; out = prompt ∷ out }) exit_success _
        (run_bind (on_stdin read_input) (run_input sockets garbage)
          (record { stdin = line; net = n; out = prompt ∷ out })
          (record { stdin = []; net = n; out = prompt ∷ out }) end_of_input _
          (lift_lem (λ (s : Shell N). s.stdin) (λ i s. record s { stdin = i }) read_input
            (record { stdin = line; net = n; out = prompt ∷ out }) end_of_input []
            (let fits : ltb input_buffer_size (length line) ≡ false = ground arith in
              read_input-end line t ∙ rw fits refl))
          refl)
        refl
