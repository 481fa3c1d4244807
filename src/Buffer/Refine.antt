-- ===== src/Buffer/Refine.antt =====
-- A `MsgBuffer` behaves as the plain byte string of its readable bytes.
use http_nest.Prelude.{
  ℕ, ◌+◌, ◌<◌, ◌≡◌, refl, ap₂, List, [], ◌∷◌, ◌++◌, arith, length, take, drop, Bytes,
}
use http_nest.Buffer.Invariant.{IsValid, address_limit}
use http_nest.Buffer.Contents.{Holds, append-Holds, retrieve_all-Holds, retrieve-Holds, read-Holds}
use http_nest.Buffer.Front.{add_in_front-Holds, read_fd-Holds}
use http_nest.Buffer.{
  MsgBuffer, peek, append, retrieve_all, retrieve, read, add_in_front, read_fd, bytes,
  buffer_offset,
}

pub data Call : Type 0 where
  appends prepends receives : Bytes → Call
  retrieves reads : ℕ → Call
  clears : Call

-- One call on the buffer, with the bytes that it returns.
unfoldable pub step : MsgBuffer → Call → Bytes × MsgBuffer
step b (appends src) = ([], append b src)
step b (prepends src) = ([], add_in_front b src)
step b (receives src) = ([], read_fd b (bytes src))
step b (retrieves n) = ([], retrieve b n)
step b (reads n) = read b n
step b clears = ([], retrieve_all b)

-- The same call on a byte string.
unfoldable pub spec_step : Bytes → Call → Bytes × Bytes
spec_step xs (appends src) = ([], xs ++ src)
spec_step xs (prepends src) = ([], src ++ xs)
spec_step xs (receives src) = ([], xs ++ src)
spec_step xs (retrieves n) = ([], drop n xs)
spec_step xs (reads n) = (take n xs, drop n xs)
spec_step xs clears = ([], [])

unfoldable pub run : MsgBuffer → List Call → List Bytes × MsgBuffer
run b [] = ([], b)
run b (c ∷ cs) = let (out, b') = step b c in let (outs, last) = run b' cs in (out ∷ outs, last)

unfoldable pub spec_run : Bytes → List Call → List Bytes × Bytes
spec_run xs [] = ([], xs)
spec_run xs (c ∷ cs) =
    let (out, xs') = spec_step xs c in let (outs, last) = spec_run xs' cs in (out ∷ outs, last)

abbrev pub call_size : Call → ℕ
call_size (appends src) = length src
call_size (prepends src) = length src
call_size (receives src) = length src
call_size _ = 0

-- The storage and each argument stay below the address space.
abbrev pub Fits : MsgBuffer → List Call → Type 0
Fits b [] = Unit {0}
Fits b (c ∷ cs) =
    (call_size c + length b.buffer + buffer_offset < address_limit) × Fits (step b c).1 cs

step_refines :
    {b : MsgBuffer} (c : Call)
    → IsValid b
    → call_size c + length b.buffer + buffer_offset < address_limit
    → ((step b c).0 ≡ (spec_step (peek b) c).0) × Holds (step b c).1 (spec_step (peek b) c).1
unfolding step spec_step
step_refines (appends src) v f = (refl, append-Holds v (omega arith) src (omega arith))
step_refines (prepends src) v f = (refl, add_in_front-Holds v (omega arith) src f)
step_refines (receives src) v f = (refl, read_fd-Holds v (omega arith) src (omega arith))
step_refines (retrieves n) v f = (refl, retrieve-Holds v (omega arith) n)
step_refines (reads n) v f = read-Holds v (omega arith) n
step_refines clears v f = (refl, retrieve_all-Holds v (omega arith))

-- No sequence of calls tells a valid `MsgBuffer` from the byte string of its readable bytes: the
-- calls return the same bytes and leave a valid buffer that holds the string's last value, as long
-- as the storage and the arguments stay below the address limit.
pub run_refines :
    {b : MsgBuffer} (cs : List Call)
    → IsValid b
    → Fits b cs
    → ((run b cs).0 ≡ (spec_run (peek b) cs).0) × Holds (run b cs).1 (spec_run (peek b) cs).1
unfolding run spec_run
run_refines [] v f = (refl, record { valid = v; holds = refl })
run_refines {b} (c ∷ cs) v (f, fs) =
    let (out, h) = step_refines c v f in
    let (outs, last) = rw h.holds at (run_refines {b = (step b c).1} cs h.valid fs) in
    (ap₂ ◌∷◌ out outs, last)
