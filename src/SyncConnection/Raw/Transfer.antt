-- ===== src/SyncConnection/Raw/Transfer.antt =====
-- The raw connections over a stream: what is extracted is what comes in, in order.
use mathlib.Core.Path.{subst, ap₂}
use cpp_alls.Prelude.{
  ℕ, ◌+◌, ◌-◌, ◌^◌, ◌≤◌, ◌<◌, ◌≡◌, refl, sym, ap, ◌∙◌, List, [], ◌++◌, arith, length, take, drop,
  replicate, length-take, length-replicate, take-length, drop-length, take-nil, ok,
}
use cpp_alls.Stream.Request.{StackRequest, resize, shrink}
use cpp_alls.Stream.Request
use cpp_alls.Stream.Response.{StackResponse}
use cpp_alls.SyncConnection.Transport.{Socket, IsStream}
use cpp_alls.SyncConnection.ReceiveLoop.{Received, read_loop-Received}
use cpp_alls.SyncConnection.Buffered.{Flushed, write_without_size-Flushed, extract_drained}
use cpp_alls.SyncConnection.{Connection, write_without_size, read_loop, on_request}
use cpp_alls.SyncConnection.Raw.{write, read, extract_data}

-- Nothing is left to extract.
abbrev pub IsDrained : {T : Type 0} → Connection T → Type 0
IsDrained c = c.request.data_extracted ≡ length c.request.bytes

abbrev pub zeros : ℕ → StackRequest
zeros size = record { bytes = replicate size 0; data_extracted = 0 }

-- Room for `size` bytes in place of what was extracted.
abbrev pub roomy : {T : Type 0} → ℕ → Connection T → Connection T
roomy size c = record c { request = zeros size }

pub resize-shrink :
    (size : ℕ) (r : StackRequest)
    → r.data_extracted ≡ length r.bytes
    → resize size (shrink r) ≡ zeros size
unfolding resize shrink
resize-shrink size r h =
    ap (λ l. record { bytes = take size l ++ replicate (size - length l) 0; data_extracted = 0 })
      (ap (λ k. drop k r.bytes) h ∙ drop-length r.bytes)
    ∙ ap (λ l. record { bytes = l ++ replicate (size - 0) 0; data_extracted = 0 }) (take-nil size)
    ∙ ap (λ k. record { bytes = replicate k 0; data_extracted = 0 }) (omega arith)

-- An extraction of all that is buffered.
pub extract_all :
    (size : ℕ) (r : StackRequest)
    → size < 2 ^ 64
    → length r.bytes ≡ size
    → r.data_extracted ≡ 0
    → Request.extract_data size r
      ≡ (ok r.bytes, record r { data_extracted = r.data_extracted + size })
unfolding Request.extract_data
extract_all size r small h z = ground (arith, whole)
  where
    whole : take size (drop r.data_extracted r.bytes) ≡ r.bytes
    whole =
        ap (λ k. take size (drop k r.bytes)) z
        ∙ ap (λ k. take k r.bytes) (sym h)
        ∙ take-length r.bytes

module _ (io : Socket) (stream : IsStream io) where
  open stream use {sent, incoming}

  read_steps :
      (size : ℕ) (c d e : Connection io.State)
      → IsDrained d
      → write_without_size io c ≡ (ok tt, d)
      → read_loop io size 0 size (roomy size d) ≡ (ok tt, e)
      → read io size c ≡ (ok tt, e)
  unfolding read write
  read_steps size c d e drained p q = rw (p, resize-shrink size d.request drained) q

  -- What an extraction does: the bytes come in, the pending response goes out, nothing stays unread.
  pub record Extracted (size : ℕ) (c d : Connection io.State) : Type 0 where
    pub left : incoming d.socket ≡ drop size (incoming c.socket)
    pub flushed : sent d.socket ≡ sent c.socket ++ c.response.bytes
    pub response : d.response.bytes ≡ []
    pub drained : IsDrained d
    pub buffered : length d.request.bytes ≡ size

  -- The read has put just the bytes asked for into the buffer.
  pub record Refilled (size : ℕ) (c d : Connection io.State) : Type 0 where
    pub request : d.request ≡ record { bytes = take size (incoming c.socket); data_extracted = 0 }
    pub left : incoming d.socket ≡ drop size (incoming c.socket)
    pub flushed : sent d.socket ≡ sent c.socket ++ c.response.bytes
    pub response : d.response.bytes ≡ []

  refilled :
      (size : ℕ) (c d e : Connection io.State)
      → Flushed io stream c d
      → Received io stream 0 size (roomy size d) e
      → Refilled size c e
  refilled size c d e f r = record {
    request = λ i. record { bytes = (r.bytes ∙ filled) i; data_extracted = r.start i };
    left = r.left ∙ ap₂ drop whole f.kept;
    flushed = r.kept ∙ f.bytes;
    response = ap (λ (x : StackResponse). x.bytes) r.response ∙ f.response;
  }
    where
      whole : size - 0 ≡ size
      whole = omega arith

      filled : take (size - 0) (incoming d.socket) ≡ take size (incoming c.socket)
      filled = ap₂ take whole f.kept

  read_drained :
      (size : ℕ) (c : Connection io.State)
      → IsDrained c
      → length c.response.bytes < 2 ^ 32
      → size ≤ length (incoming c.socket)
      → (d : Connection io.State) × (read io size c ≡ (ok tt, d)) × Refilled size c d
  read_drained size c drained small enough =
      let (d, p, f) = write_without_size-Flushed io stream c small in
      let drained' : IsDrained d =
        subst (λ r. r.data_extracted ≡ length r.bytes) (sym f.request) drained in
      let (e, q, r) =
        read_loop-Received io stream size 0 size (roomy size d) refl (length-replicate size 0)
          (omega arith) (omega arith) (omega (arith, ap length f.kept, enough)) in
      (e, read_steps size c d e drained' p q, refilled size c d e f r)

  extract-Refilled :
      (size : ℕ) (c d : Connection io.State)
      → Refilled size c d
      → size < 2 ^ 64
      → size ≤ length (incoming c.socket)
      → (on_request (Request.extract_data size) d ≡ (
        ok (take size (incoming c.socket)),
        record d {
          request = record d.request { data_extracted = d.request.data_extracted + size };
        },
      ))
        × Extracted size c (record d {
          request = record d.request { data_extracted = d.request.data_extracted + size };
        })
  extract-Refilled size c d f small enough = (
    answer,
    record {
      left = f.left;
      flushed = f.flushed;
      response = f.response;
      drained = omega (arith, start, long);
      buffered = long;
    },
  )
    where
      bytes : d.request.bytes ≡ take size (incoming c.socket)
      bytes = ap (λ r. r.bytes) f.request

      start : d.request.data_extracted ≡ 0
      start = ap (λ r. r.data_extracted) f.request

      long : length d.request.bytes ≡ size
      long = ap length bytes ∙ length-take size (incoming c.socket) enough

      end : Connection io.State
      end = record d {
        request = record d.request { data_extracted = d.request.data_extracted + size };
      }

      answer : on_request (Request.extract_data size) d ≡ (ok (take size (incoming c.socket)), end)
      answer =
          rw (extract_all size d.request small long start) (ap (λ (l : List ℕ). (ok l, end)) bytes)

  -- On a raw connection over a stream, with nothing left to extract and fewer than 2^32 bytes in the
  -- response, an extraction of at least one byte that is not longer than what is still to come
  -- returns exactly the next bytes of the stream. It has sent the response, which is then empty, and
  -- again nothing is left to extract.
  pub extract_data-take :
      (size : ℕ) (c : Connection io.State)
      → IsDrained c
      → length c.response.bytes < 2 ^ 32
      → 0 < size
      → size + length c.request.bytes < 2 ^ 64
      → size ≤ length (incoming c.socket)
      → (d : Connection io.State) × (extract_data io size c
          ≡ (ok (take size (incoming c.socket)), d))
        × Extracted size c d
  unfolding extract_data
  extract_data-take size c drained small pos fits enough =
      let (d, p, f) = read_drained size c drained small enough in
      let (q, x) = extract-Refilled size c d f (omega arith) enough in
      (_, extract_drained io stream (read io) size c d drained pos fits p ∙ q, x)
