-- ===== src/Buffer/Tests.antt =====
-- Runs of the buffer on concrete input, and the theorems on it.
use http_nest.Prelude.{◌≡◌, refl, List, [], ◌∷◌, ◌++◌, some, arith, replicate, codes, search}
use http_nest.Buffer.Memory.{splice}
use http_nest.Buffer.Invariant.{IsValid}
use http_nest.Buffer.Ensure.{Ensured, ensure-Ensured}
use http_nest.Buffer.Contents.{Holds}
use http_nest.Buffer.Refine.{
  Call, appends, prepends, receives, retrieves, reads, run, step, spec_run, spec_step, Fits,
  run_refines,
}
use http_nest.Buffer.{
  MsgBuffer, new_buffer, readable_bytes, writable_bytes, peek, store, ensure_to, grown_length,
  ensure_writable_bytes, append, append_buffer, retrieve_all, retrieve, read, add_in_front, compact,
  read_fd, find_crlf,
}

abbrev small : MsgBuffer
small = record { head = 8; init_cap = 8; buffer = replicate 16 0; tail = 8 }

small-IsValid : IsValid small
small-IsValid = omega arith

abbrev calls : List Call
calls =
    appends (codes "hello world")
    ∷ reads 6
    ∷ prepends (codes "big wide ")
    ∷ retrieves 4
    ∷ receives (codes "!")
    ∷ []

run_calls : (spec_run [] calls).0 ≡ [] ∷ codes "hello " ∷ [] ∷ [] ∷ [] ∷ []
unfolding spec_run spec_step
run_calls = refl

run_small : peek (run small calls).1 ≡ codes "wide world!"
unfolding run step append ensure_writable_bytes ensure_to store grown_length new_buffer
    readable_bytes writable_bytes peek read retrieve retrieve_all add_in_front append_buffer read_fd
    compact splice
run_small = refl

find_crlf_test : find_crlf (append small (codes "ab\r\n")) ≡ some 2
unfolding find_crlf append ensure_writable_bytes ensure_to store grown_length new_buffer
    readable_bytes writable_bytes peek compact splice search
find_crlf_test = refl

calls-Fits : Fits small calls
unfolding step append ensure_writable_bytes ensure_to store grown_length new_buffer readable_bytes
    writable_bytes peek read retrieve retrieve_all add_in_front append_buffer read_fd compact splice
calls-Fits = omega arith

run_refines_example :
    ((run small calls).0 ≡ (spec_run (peek small) calls).0)
    × Holds (run small calls).1 (spec_run (peek small) calls).1
run_refines_example = run_refines calls small-IsValid calls-Fits

ensure-Ensured_example : Ensured small 40 (ensure_writable_bytes small 40)
ensure-Ensured_example = ensure-Ensured small-IsValid (omega arith) 40 (omega arith)

-- 258 in two bytes, and one byte behind it.
abbrev framed : MsgBuffer
framed = record {
  head = 8;
  init_cap = 8;
  buffer = replicate 8 0 ++ 1 ∷ 2 ∷ 7 ∷ replicate 5 0;
  tail = 11;
}
