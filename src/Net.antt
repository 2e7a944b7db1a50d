-- ===== src/Net.antt =====
-- The calls of the system's sockets by myjql/main/myjqlserver.c and myjql/driver/myjqlclient.cpp. The
-- sockets are a parameter; `SOCKET_ERROR` is `none` of a receive and `false` of a send.
pub mod Reliable
use course_pj.Base.{
  int_is_neg, ℕ, ◌-◌, ◌%◌, ◌^◌, Bool, true, false, Option, none, some, List, [], ◌∷◌, ◌==◌, leb,
  if◌then◌else◌, Bytes, read32, write32, store_list, load_list, int_bytes, take, Res, Cmd, ok,
  fault, length,
}

pub record Sockets (N : Type 0) : Type 0 where
  pub recv : ℕ → N → Option (List ℕ) × N
  pub send : List ℕ → N → Bool × N
  pub shutdown : N → Bool × N
  pub closesocket : N → N

-- The greatest `int`.
abbrev pub int_max : ℕ
int_max = 2 ^ 31 - 1

module _ {N : Type 0} (sockets : Sockets N) where
  -- `recv(s, (char*)&code, sizeof(code), 0)`: fewer bytes than four leave the others of `code` alone.
  received_code : ℕ → Option (List ℕ) → Option ℕ
  received_code code none = none
  received_code code (some xs) =
      some (read32 (store_list (write32 (λ _. 0) 0 code) 0 (take 4 xs)) 0)

  unfoldable pub recv_code : ℕ → Cmd N (Option ℕ)
  unfolding received_code
  recv_code code n = let (r, n') = sockets.recv 4 n in ok (received_code code r) n'

  -- `recv` into a buffer of `code + 1` bytes that was just allocated. Bytes that come in under a
  -- negative length do not lie in the buffer.
  received_buffer : Bytes → ℕ → Option (List ℕ) × N → Res N (Option (ℕ × Bytes))
  received_buffer garbage code (none, n) = ok none n
  received_buffer garbage code (some [], n) = ok (some (0, garbage)) n
  received_buffer garbage code (some (x ∷ xs), n) =
      if int_is_neg code
      then fault
      else let ys = take code (x ∷ xs) in ok (some (length ys, store_list garbage 0 ys)) n

  -- The number of bytes that came in, and the buffer.
  unfoldable pub recv_buffer : Bytes → ℕ → Cmd N (Option (ℕ × Bytes))
  unfolding received_buffer
  recv_buffer garbage code n =
      if code == int_max then fault else received_buffer garbage code (sockets.recv code n)

  unfoldable pub send_bytes : List ℕ → Cmd N Bool
  send_bytes xs n = let (sent, n') = sockets.send xs n in ok sent n'

  -- `send(s, (char*)&code, sizeof(code), 0)`.
  unfoldable pub send_code : ℕ → Cmd N Bool
  unfolding send_bytes
  send_code code = send_bytes (int_bytes code)
