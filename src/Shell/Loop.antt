-- ===== src/Shell/Loop.antt =====
-- `main` of myjql/main/myjqlshell.cpp.
use course_pj.Base.{
  ℕ, zero, suc, Option, none, some, List, ◌∷◌, Bytes, Cmd, ok, lift, pure, spin, ◌>>=◌, ◌>>◌,
}
use course_pj.Net.{Sockets}
use course_pj.Client.{
  Reply, returned, thrown, Error, client_get, client_set, client_del, end_client,
}
use course_pj.Shell.{
  InputResult, input_success, input_too_long, end_of_input, read_input, Command, exit, get, set,
  del, invalid_input, invalid_command, parse,
}

-- What is printed.
pub data Line : Type 0 where
  prompt : Line
  too_long : Line
  bye : Line
  invalid_input_line : Line
  invalid_command_line : Line
  value : List ℕ → Line
  not_found : Line
  done : Line
  error : Error → Line

pub record Shell (N : Type 0) : Type 0 where
  pub stdin : List ℕ
  pub net : N
  pub out : List Line

-- What a round of the loop ends with; at the end of the input the program exits and no destructor runs.
pub data Turn : Type 0 where
  continue : Turn
  break : Turn
  exit_success : Turn

module _ {N : Type 0} where
  abbrev pub on_stdin : {A : Type 0} → Cmd (List ℕ) A → Cmd (Shell N) A
  on_stdin = lift (λ s. s.stdin) (λ i s. record s { stdin = i })

  abbrev pub on_client : {A : Type 0} → Cmd N A → Cmd (Shell N) A
  on_client = lift (λ s. s.net) (λ n s. record s { net = n })

  abbrev pub print : Line → Cmd (Shell N) (Unit {0})
  print l s = ok tt (record s { out = l ∷ s.out })

abbrev pub get_line : Reply (Option (List ℕ)) → Line
get_line (returned none) = not_found
get_line (returned (some v)) = value v
get_line (thrown e) = error e

abbrev pub done_line : Reply (Unit {0}) → Line
done_line (returned u) = done
done_line (thrown e) = error e

module _ {N : Type 0} (sockets : Sockets N) (garbage : Bytes) where
  unfoldable pub run_command : Command → Cmd (Shell N) Turn
  run_command exit = do print bye; pure break
  run_command (get key) = do
    r ← on_client (client_get sockets garbage key)
    print (get_line r)
    pure continue
  run_command (set key val) = do
    r ← on_client (client_set sockets garbage key val)
    print (done_line r)
    pure continue
  run_command (del key) = do
    r ← on_client (client_del sockets garbage key)
    print (done_line r)
    pure continue
  run_command invalid_input = do print invalid_input_line; pure continue
  run_command invalid_command = do print invalid_command_line; pure continue

  abbrev pub run_input : InputResult → Cmd (Shell N) Turn
  unfolding run_command
  run_input (input_success buffer) = run_command (parse buffer)
  run_input input_too_long = do print too_long; pure continue
  run_input end_of_input = pure exit_success

  unfoldable pub shell_round : Cmd (Shell N) Turn
  unfolding run_command
  shell_round = do print prompt; input ← on_stdin read_input; run_input input

  -- The destructor of `client` runs at the end of `main`.
  abbrev pub after_round : Cmd (Shell N) (Unit {0}) → Turn → Cmd (Shell N) (Unit {0})
  after_round loop continue = loop
  after_round loop break = on_client (end_client sockets garbage)
  after_round loop exit_success = pure tt

  -- The loop, in at most so many rounds.
  unfoldable pub shell : ℕ → Cmd (Shell N) (Unit {0})
  unfolding shell_round
  shell zero = spin
  shell (suc rounds_left) = do turn ← shell_round; after_round (shell rounds_left) turn
