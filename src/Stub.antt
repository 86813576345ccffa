-- ===== src/Stub.antt =====
-- internal/stub/stub.go: the answer of the most private action. Response headers are a map; what the
-- catalog's Render does is an argument.
pub mod Cors
use mirage_chaff.Base.{ℕ, Bool, true, false, not, ◌&&◌, ◌||◌, List, [], ◌∷◌, if◌then◌else◌}
use mirage_chaff.Base.Text.{Text, codes, text_eq}
use mirage_chaff.Base.Dict.{Dict, lookup, insert, text_key}

-- The method and the three request headers that are read, empty when absent.
pub record StubRequest : Type 0 where
  pub method : Text
  pub origin : Text
  pub request_method : Text
  pub request_headers : Text

abbrev pub Headers : Type 0
Headers = Dict Text Text

abbrev pub options : Text
options = codes "OPTIONS"

unfoldable pub allow_origin : StubRequest → Headers → Headers
allow_origin r h =
    if text_eq r.origin []
    then insert (codes "Access-Control-Allow-Origin") (codes "*") h
    else insert (codes "Access-Control-Allow-Credentials") (codes "true") (
        insert (codes "Vary") (codes "Origin")
          (insert (codes "Access-Control-Allow-Origin") r.origin h))

-- The headers of a preflight answer.
unfoldable pub allow_preflight : StubRequest → Headers → Headers
allow_preflight r h =
    let methods =
      (if text_eq r.request_method [] then codes "GET, POST, OPTIONS" else r.request_method) in
    let h1 = insert (codes "Access-Control-Allow-Methods") methods h in
    let h2 =
      (if text_eq r.request_headers []
        then h1
        else insert (codes "Access-Control-Allow-Headers") r.request_headers h1) in
    insert (codes "Access-Control-Max-Age") (codes "600") h2

-- `applyCORS`
unfoldable pub apply_cors : StubRequest → Headers → Headers
apply_cors r h =
    if text_eq r.method options then allow_preflight r (allow_origin r h) else allow_origin r h

pub data Body : Type 0 where
  no_content : Body
  rendered : Text → Body

pub record Response : Type 0 where
  pub headers : Headers
  pub body : Body

-- `Serve`; `renders` is whether there is a catalog and its Render wrote the named entry.
unfoldable pub serve : (Text → Bool) → StubRequest → Text → Response
serve renders r name =
    let h = apply_cors r [] in
    if text_eq r.method options
    then record { headers = insert (codes "Content-Length") (codes "0") h; body = no_content }
    else if renders name
    then record { headers = h; body = rendered name }
    else record { headers = h; body = no_content }
