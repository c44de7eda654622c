-- ===== src/SyncConnection/Raw/Receives.antt =====
-- A raw connection over a stream as the source of the operators >>: what they take from it is the
-- next bytes of the stream.
use mathlib.Core.List.{append_assoc, append-nil}
use cpp_alls.Prelude.{
  ℕ, ◌+◌, ◌%◌, ◌^◌, ◌≤◌, ◌<◌, ◌≡◌, refl, ap, ◌∙◌, List, [], ◌∷◌, ◌++◌, arith, length, take, drop,
  take-append, drop-append, length-append, ok, M, pure, ◌>>=◌, continue_with, ltb, leb, true, false,
}
use cpp_alls.Stream.Request
use cpp_alls.Stream.Request.Reader.{Reader}
use cpp_alls.SyncConnection.Transport.{Socket, IsStream}
use cpp_alls.SyncConnection.{Connection, extract}
use cpp_alls.SyncConnection.Raw.{extract_data}
use cpp_alls.SyncConnection.Raw.Transfer.{IsDrained, extract_data-take}

module _ (io : Socket) (stream : IsStream io) where
  open stream use {sent, incoming}

  -- Nothing is left to extract, and buffers are not too long.
  pub record IsIdle (c : Connection io.State) : Type 0 where
    pub drained : IsDrained c
    pub response : length c.response.bytes < 2 ^ 32
    pub request : length c.request.bytes < 2 ^ 63

  -- The bytes that are still to come are the rest; what was to be sent has been, or still is.
  pub record Took (rest : List ℕ) (c d : Connection io.State) : Type 0 where
    pub left : incoming d.socket ≡ rest
    pub flushed : sent d.socket ++ d.response.bytes ≡ sent c.socket ++ c.response.bytes
    pub idle : IsIdle d

  abbrev pub Receives : {A : Type 0} → M (Connection io.State) A → List ℕ → A → Type 0
  Receives m bs a =
      (c : Connection io.State) (rest : List ℕ)
      → IsIdle c
      → length bs < 2 ^ 63
      → incoming c.socket ≡ bs ++ rest
      → (d : Connection io.State) × (m c ≡ (ok a, d)) × Took rest c d

  pub pure-Receives : {A : Type 0} (a : A) → Receives (pure a) [] a
  pure-Receives a c rest idle fits e = (c, refl, record { left = e; flushed = refl; idle = idle })

  pub >>=-Receives :
      {A B : Type 0} (m : M (Connection io.State) A) (f : A → M (Connection io.State) B) (a : A)
      (b : B) (xs ys : List ℕ)
      → Receives m xs a
      → Receives (f a) ys b
      → Receives (m >>= f) (xs ++ ys) b
  >>=-Receives m f a b xs ys p q c rest idle fits e =
      let (d, ed, td) =
        p c (ys ++ rest) idle (omega (arith, length-append xs ys)) (e ∙ append_assoc xs ys rest) in
      let (u, eu, tu) = q d rest td.idle (omega (arith, length-append xs ys)) td.left in
      (
        u,
        ap (λ r. continue_with r f) ed ∙ eu,
        record { left = tu.left; flushed = tu.flushed ∙ td.flushed; idle = tu.idle },
      )

  extract_nothing :
      (c : Connection io.State)
      → IsIdle c
      → (d : Connection io.State) × (extract_data io 0 c ≡ (ok [], d))
        × Took (incoming c.socket) c d
  unfolding extract_data extract Request.extract_data
  extract_nothing c idle =
      let r = c.request in
      let wanted : (0 + r.data_extracted) % 2 ^ 64 ≡ length r.bytes =
        omega (arith, idle.drained, idle.request) in
      let there : ltb (length r.bytes) ((0 + r.data_extracted) % 2 ^ 64) ≡ false =
        ground (arith, wanted) in
      let inside : leb (0 + r.data_extracted) (length r.bytes) ≡ true =
        ground (arith, idle.drained) in
      (
        record c { request = record r { data_extracted = r.data_extracted + 0 } },
        rw there (rw (there, inside) refl),
        record {
          left = refl;
          flushed = refl;
          idle = record {
            drained = omega (arith, idle.drained);
            response = idle.response;
            request = idle.request;
          };
        },
      )

  pub extract_data-Receives : (bs : List ℕ) → Receives (extract_data io (length bs)) bs bs
  extract_data-Receives [] c rest idle fits e =
      let (d, ed, td) = extract_nothing c idle in
      (d, ed, record { left = td.left ∙ e; flushed = td.flushed; idle = td.idle })
  extract_data-Receives (b ∷ bs) c rest idle fits e =
      let size = length (b ∷ bs) in
      let enough : size ≤ length (incoming c.socket) =
        omega (arith, ap length e, length-append (b ∷ bs) rest) in
      let (d, ed, x) =
        extract_data-take io stream size c idle.drained idle.response (omega arith)
          (omega (arith, idle.request, fits)) enough in
      let all : take size (incoming c.socket) ≡ b ∷ bs =
        ap (take size) e ∙ take-append (b ∷ bs) rest in
      (
        d,
        ed ∙ ap (λ l. (ok l, d)) all,
        record {
          left = x.left ∙ ap (drop size) e ∙ drop-append (b ∷ bs) rest;
          flushed =
              ap (λ l. sent d.socket ++ l) x.response ∙ append-nil (sent d.socket) ∙ x.flushed;
          idle = record {
            drained = x.drained;
            response = omega (arith, ap length x.response);
            request = omega (arith, x.buffered, fits);
          };
        },
      )

  abbrev pub receives : Reader (extract_data io)
  receives = record {
    Takes = λ m bs a. Receives m bs a;
    pure_lem = λ a. pure-Receives a;
    bind_lem = λ m f a b xs ys p q. >>=-Receives m f a b xs ys p q;
    extract_lem = extract_data-Receives;
  }
