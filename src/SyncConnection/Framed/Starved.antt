-- ===== src/SyncConnection/Framed/Starved.antt =====
-- A framed read of a plain socket that has no bytes to give at once.
use cpp_alls.Prelude.{
  ℕ, zero, suc, ◌≡◌, refl, ap, ◌∙◌, [], length, drop, false, Outcome, ok, throws, undefined,
  out_of_fuel, M, continue_with, drop-length,
}
use cpp_alls.Stream.Scalar.{Host}
use cpp_alls.Stream.Request.{StackRequest, get, do_istream, shrink, resize}
use cpp_alls.SyncConnection.Transport.{Socket}
use cpp_alls.SyncConnection.{read_loop, extract}
use cpp_alls.SyncConnection.Framed.{write, read, data_size}
use cpp_alls.SyncConnection.Raw.Failure.{quiet}

pub shrink-drained :
    (r : StackRequest)
    → r.data_extracted ≡ length r.bytes
    → shrink r ≡ record { bytes = []; data_extracted = 0 }
unfolding shrink
shrink-drained r e =
    λ i. record { bytes = (ap (λ n. drop n r.bytes) e ∙ drop-length r.bytes) i; data_extracted = 0 }

continue_with-out_of_fuel :
    {S A B : Type 0} (r : Outcome A) (s : S) (f : A → M S B)
    → r ≡ out_of_fuel
    → (continue_with (r, s) f).0 ≡ out_of_fuel
continue_with-out_of_fuel (ok a) s f e = absurd (cc e)
continue_with-out_of_fuel (throws x) s f e = absurd (cc e)
continue_with-out_of_fuel undefined s f e = absurd (cc e)
continue_with-out_of_fuel out_of_fuel s f e = refl

module _ (io : Socket) (host : Host) (starved : (t : io.State) → io.available t ≡ (ok 0, t)) where
  -- A framed read on a plain socket whose available is 0 in every state, and does not change the state,
  -- does not end if the response is empty and nothing is left to extract: it looks the size up by a
  -- read of the same kind, so that no fuel is enough.
  pub read_starved :
      (fuel wanted : ℕ) (r : StackRequest) (t : io.State)
      → r.data_extracted ≡ length r.bytes
      → (read io host false fuel wanted (quiet io r t)).0 ≡ out_of_fuel
  unfolding read write data_size read_loop get do_istream extract resize
  read_starved zero wanted r t e = refl
  read_starved (suc fuel) wanted r t e =
      rw (shrink-drained r e, starved t)
        (continue_with-out_of_fuel _ _ _ (
          continue_with-out_of_fuel _ _ _ (
            continue_with-out_of_fuel _ _ _
              (read_starved fuel 4 (record { bytes = []; data_extracted = 0 }) t refl))))
