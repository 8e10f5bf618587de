-- ===== src/Http.antt =====
-- What the handlers and the middleware use of net/http: requests, cookies, replies, and the
-- decoding of JSON bodies (unyport/backend/auth/handlers.go, unyport/backend/xenctl/http.go).
-- Times are whole seconds.
use unyport.Common.{ℕ, ◌*◌, String, Option, none, some, List, [], ◌∷◌, Bool, ltb, if◌then◌else◌}
use unyport.Common.Dict.{Dict}

pub record Request : Type 0 where
  pub method : String
  pub path : String
  pub host : String
  pub remote_addr : String
  -- r.TLS != nil
  pub tls : Bool
  -- r.Header.Get, the empty text where the header is absent
  pub header : String → String
  -- the value of r.Cookie, if the cookie is there
  pub cookie : String → Option String

-- What the program uses of package net to read addresses: the canonical form of an address that
-- net.ParseIP accepts, and the host of net.SplitHostPort.
pub record Net : Type 0 where
  pub parse_ip : String → Option String
  pub split_host : String → Option String

-- The values that the middleware puts into the request's context.
pub record Context : Type 0 where
  pub user_id : String
  pub user_role : String
  pub csrf_skip : Bool

abbrev pub empty_context : Context
empty_context = record { user_id = ""; user_role = ""; csrf_skip = Bool.false }

pub data MaxAge : Type 0 where
  session : MaxAge
  seconds : ℕ → MaxAge
  -- a negative MaxAge
  delete_now : MaxAge

pub record Cookie : Type 0 where
  pub name : String
  pub value : String
  pub path : String
  pub max_age : MaxAge
  pub expires : Option ℕ
  pub http_only : Bool
  pub secure : Bool
  -- every cookie of the program is SameSite=Lax or carries no attribute
  pub same_site_lax : Bool

pub data Atom : Type 0 where
  str : String → Atom
  bool : Bool → Atom
  num : ℕ → Atom
  -- an object and an array of texts
  texts : Dict String → Atom
  lines : List String → Atom

pub data Payload : Type 0 where
  empty : Payload
  text : String → Payload
  -- the page of http.Redirect, a link to the address
  link : String → Payload
  object : Dict Atom → Payload
  objects : List (Dict Atom) → Payload

pub record Response : Type 0 where
  pub status : ℕ
  pub headers : Dict String
  pub cookies : List Cookie
  pub body : Payload

abbrev pub json_type : Dict String
json_type = ("Content-Type", "application/json; charset=utf-8") ∷ []

-- http.Error
abbrev pub http_error : String → ℕ → Response
http_error message status = record {
  status = status;
  headers = ("Content-Type", "text/plain; charset=utf-8") ∷ [];
  cookies = [];
  body = text message;
}

-- http.Redirect of a GET request with http.StatusFound
abbrev pub found_redirect : String → Response
found_redirect url = record {
  status = 302;
  headers = ("Location", url) ∷ ("Content-Type", "text/html; charset=utf-8") ∷ [];
  cookies = [];
  body = link url;
}

-- jsonError of handlers.go and of xenctl/http.go
abbrev pub json_error : String → ℕ → Response
json_error message status = record {
  status = status;
  headers = json_type;
  cookies = [];
  body = object (("error", str message) ∷ []);
}

-- a reply of status 200 that holds one JSON object
abbrev pub json_object : Dict Atom → Response
json_object fields = record {
  status = 200;
  headers = json_type;
  cookies = [];
  body = object fields;
}

-- jsonOK of handlers.go
abbrev pub json_ok : Response
json_ok = json_object (("ok", bool Bool.true) ∷ [])

-- A request body as the JSON decoder reads it: its size in bytes and the documents in it, each
-- `none` if it is malformed, has an unknown field or does not fit the handler's struct.
pub record Body {ℓ} (A : Type ℓ) : Type ℓ where
  pub size : ℕ
  pub documents : List (Option A)

abbrev pub max_json_body_bytes : ℕ
max_json_body_bytes = 1024 * 1024

abbrev only_document {ℓ} : {A : Type ℓ} → List (Option A) → Option A
only_document (some a ∷ []) = some a
only_document _ = none

-- decodeJSON: one document and then the end of the body, within the limit.
unfoldable pub decode_json {ℓ} : {A : Type ℓ} → Body A → Option A
decode_json b = if ltb max_json_body_bytes b.size then none else only_document b.documents
