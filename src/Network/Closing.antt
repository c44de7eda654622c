-- ===== src/Network/Closing.antt =====
-- src/apps/boost_tcp/tcp.cpp and tcp_ssl.cpp: the closing of a server's connection, and its destructor.
use cpp_alls.Prelude.{◌≡◌, refl, Bool, true, false, M, Outcome, throws, Exception, ◌>>◌}

-- A socket, whose `shutdown` may throw. `close` as well, after it has closed the socket.
pub record Socket : Type 1 where
  pub State : Type 0
  pub shutdown : State → Outcome (Unit {0}) × State
  pub close : State → Outcome (Unit {0}) × State

-- The call with an error code that is not looked at.
abbrev pub ignoring : {S : Type 0} → M S (Unit {0}) → S → S
ignoring f s = (f s).1

module _ (io : Socket) where
  -- tcp_connection_fast
  pub tcp_close : M io.State (Unit {0})
  tcp_close s = (io.shutdown >> io.close) s

  pub tcp_destroy : io.State → io.State
  tcp_destroy s = ignoring io.close (ignoring io.shutdown s)

  -- tcp_ssl_connection_fast
  pub ssl_close : M io.State (Unit {0})
  ssl_close s = io.shutdown s

  pub ssl_destroy : io.State → io.State
  ssl_destroy s = ignoring io.shutdown s

  -- Whatever `shutdown` and `close` answer, the destructor of a tcp_connection_fast closes the socket.
  pub tcp_destroy-closed :
      (is_open : io.State → Bool)
      → ((s : io.State) → is_open (io.close s).1 ≡ false)
      → (s : io.State) → is_open (tcp_destroy s) ≡ false
  unfolding tcp_destroy
  tcp_destroy-closed is_open closes s = closes (io.shutdown s).1

  -- `close` leaves the socket open if its `shutdown` throws, as it does on one whose peer is gone.
  pub tcp_close-open :
      (is_open : io.State → Bool) (s t : io.State) (e : Exception)
      → io.shutdown s ≡ (throws e, t)
      → is_open t ≡ true
      → (tcp_close s ≡ (throws e, t)) × (is_open (tcp_close s).1 ≡ true)
  unfolding tcp_close
  tcp_close-open is_open s t e shut still = (rw shut refl, rw shut still)
