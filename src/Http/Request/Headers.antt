-- ===== src/Http/Request/Headers.antt =====
-- The headers of a request as a map whose keys do not depend on case.
use http_nest.Prelude.{
  ◌≡◌, refl, Bool, true, false, [], Option, none, some, if◌then◌else◌, Bytes, bytes_eq, ap, ◌∙◌,
}
use http_nest.Http.Utils.{lower}
use http_nest.Http.Fields.{lookup, lookup-assign, lookup-erase}
use http_nest.Http.Request.{HttpRequest, or_empty, add_header, remove_header, get_header}

or_empty-if :
    (b : Bool) (o p : Option Bytes)
    → or_empty (if b then o else p) ≡ (if b then or_empty o else or_empty p)
or_empty-if true o p = refl
or_empty-if false o p = refl

-- After `AddHeader` the field has the new value, in any spelling of its case, and each other field has
-- the value that it had.
pub get_header-add_header :
    (r : HttpRequest) (f g value : Bytes)
    → get_header (add_header r f value) g
      ≡ (if bytes_eq (lower f) (lower g) then value else get_header r g)
unfolding get_header add_header
get_header-add_header r f g value =
    ap or_empty (lookup-assign (lower f) (lower g) value r.headers)
    ∙ or_empty-if (bytes_eq (lower f) (lower g)) (some value) (lookup (lower g) r.headers)

-- After `RemoveHeader` the field is empty, in any spelling of its case, and each other field has the
-- value that it had.
pub get_header-remove_header :
    (r : HttpRequest) (f g : Bytes)
    → get_header (remove_header r f) g
      ≡ (if bytes_eq (lower f) (lower g) then [] else get_header r g)
unfolding get_header remove_header
get_header-remove_header r f g =
    ap or_empty (lookup-erase (lower f) (lower g) r.headers)
    ∙ or_empty-if (bytes_eq (lower f) (lower g)) none (lookup (lower g) r.headers)
