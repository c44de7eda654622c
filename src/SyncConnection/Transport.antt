-- ===== src/SyncConnection/Transport.antt =====
-- What the blocking connections use of a Boost.Asio socket, and what they rely on.
use cpp_alls.Prelude.{ℕ, ◌≤◌, ◌<◌, ◌≡◌, List, ◌++◌, length, take, drop, Outcome, ok}

-- `send` and `write_some` return how many bytes they took, `receive` and `read_some` the bytes that
-- they put into a buffer of the given size.
pub record Socket : Type 1 where
  pub State : Type 0
  pub send : List ℕ → State → Outcome ℕ × State
  pub receive : ℕ → State → Outcome (List ℕ) × State
  pub available : State → Outcome ℕ × State
  pub shutdown : State → State
  pub close : State → State

-- A connected stream on which no error occurs: `send` takes some of the bytes that it is given, at
-- least one, and `receive` returns some of those that are still to come, at least one.
pub record IsStream (io : Socket) : Type 0 where
  pub sent : io.State → List ℕ
  pub incoming : io.State → List ℕ
  pub send_lem :
      (bs : List ℕ) (t : io.State)
      → 0 < length bs
      → (n : ℕ) × (u : io.State) × (io.send bs t ≡ (ok n, u))
        × (0 < n)
        × (n ≤ length bs)
        × (sent u ≡ sent t ++ take n bs)
        × (incoming u ≡ incoming t)
  pub receive_lem :
      (size : ℕ) (t : io.State)
      → 0 < size
      → 0 < length (incoming t)
      → (n : ℕ) × (u : io.State) × (io.receive size t ≡ (ok (take n (incoming t)), u))
        × (0 < n)
        × (n ≤ size)
        × (n ≤ length (incoming t))
        × (incoming u ≡ drop n (incoming t))
        × (sent u ≡ sent t)
