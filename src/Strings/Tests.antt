-- ===== src/Strings/Tests.antt =====
-- The string functions on concrete text, and the theorems on it.
use http_nest.Prelude.{◌≡◌, refl, true, false, [], ◌∷◌, some, arith, codes, bytes_eq, search}
use http_nest.Strings.Find.{find, find_last_of, is_empty}
use http_nest.Strings.Split.{Restores, split_string-Restores}
use http_nest.Strings.Machine.{split_string_with_fsm-eq-split_string}
use http_nest.Strings.Join.{split_string-terminated}
use http_nest.Strings.{
  start_with, end_with, file_path, file_name_ext, file_name, extension, split_from, split_string,
  fsm_loop, split_string_with_fsm,
}

split_lines :
    split_string (codes "a: b\r\n\r\nc") (codes "\r\n") ≡ codes "a: b" ∷ [] ∷ codes "c" ∷ []
unfolding split_string split_from find search is_empty
split_lines = refl

split_fsm : split_string_with_fsm (codes "a&&b&") b'&' ≡ some (codes "a" ∷ [] ∷ codes "b" ∷ [])
unfolding split_string_with_fsm fsm_loop is_empty
split_fsm = refl

paths :
    (file_path (codes "/var/log/x.log") ≡ codes "/var/log")
    × (file_name (codes "/var/log/x.log") ≡ codes "x")
    × (extension (codes "/var/log/x.log") ≡ codes "log")
    × (file_path (codes "x.log") ≡ codes "./")
unfolding file_path file_name extension file_name_ext find_last_of
paths = (refl, refl, refl, refl)

prefixes :
    (start_with (codes "http://a") (codes "http") ≡ true)
    × (end_with (codes "a.log") (codes ".log") ≡ true)
    × (end_with (codes "log") (codes ".log") ≡ false)
unfolding start_with end_with is_empty bytes_eq
prefixes = (refl, refl, refl)

split_string-Restores_example :
    Restores (codes "\r\n") (codes "a\r\n\r\n") (split_string (codes "a\r\n\r\n") (codes "\r\n"))
split_string-Restores_example =
    split_string-Restores (codes "a\r\n\r\n") (codes "\r\n") (omega arith)

split_string_with_fsm-eq-split_string_example :
    split_string_with_fsm (codes "GET / HTTP") b' '
    ≡ some (split_string (codes "GET / HTTP") (b' ' ∷ []))
split_string_with_fsm-eq-split_string_example =
    split_string_with_fsm-eq-split_string (codes "GET / HTTP") b' ' (omega arith)

split_string-terminated_example :
    split_string (codes "GET / HTTP/1.1 ") (b' ' ∷ [])
    ≡ codes "GET" ∷ codes "/" ∷ codes "HTTP/1.1" ∷ []
split_string-terminated_example =
    split_string-terminated b' ' (codes "GET" ∷ codes "/" ∷ codes "HTTP/1.1" ∷ []) refl
