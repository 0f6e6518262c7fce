-- ===== src/Ctl/Client.antt =====
-- The HTTP client of the CLI, ctl/internal/client/client.go and stat.go.
pub mod Requests
pub mod Names
use dezhan.Base.{
  ℕ, ◌++◌, [], ◌∷◌, List, Bool, true, false, not, ◌||◌, ◌&&◌, Option, none, some, if◌then◌else◌,
  ◌==◌, Result, ok, err, Exec, pure, fail, ◌>>=◌, ◌>>◌, or_fail, lift, continue, mapped,
}
use dezhan.Text.{
  Text, codes, ℤ, pos, itoa, trim_right, trim_space, split, join, to_lower, text_eq, has_prefix,
}
use dezhan.Dict.{Dict, insert}
use dezhan.Csi.Conn.{is_empty}
use dezhan.Ctl.Http.{Http, Request, Response}
use dezhan.Ctl.Order.{sort}

pub record Client : Type 0 where
  pub endpoint : Text

-- New; the time limit of the transport is left out
unfoldable pub new_client : Text → Client
unfolding trim_right
new_client endpoint = record { endpoint = trim_right (λ c. c == b'/') endpoint }

-- What `text` returns beside a nil error. The body and status that Go returns with an error are
-- dropped by every caller.
pub record Reply : Type 0 where
  pub body : Text
  pub code : ℕ

-- fmt.Errorf("%s: HTTP %d", …), and the same with the body behind it
pub http_error : Text → ℕ → Text
unfolding itoa
http_error what code = what ++ (codes ": HTTP " ++ itoa (pos code))

pub http_error_body : Text → ℕ → Text → Text
unfolding http_error trim_space
http_error_body what code body = http_error what code ++ (codes ": " ++ trim_space body)

abbrev pub no_headers : Dict Text
no_headers = []

-- the non-empty lines, without white space around them
unfoldable pub nonempty_lines : List Text → List Text
unfolding trim_space
nonempty_lines [] = []
nonempty_lines (line ∷ lines) =
    let rest = nonempty_lines lines in
    if is_empty (trim_space line) then rest else trim_space line ∷ rest

unfoldable pub put_headers : Text → ℤ → Dict Text
unfolding itoa
put_headers mode retain_secs =
    (codes "X-Dezhan-Mode", mode)
    ∷ (codes "X-Dezhan-Retain", itoa retain_secs)
    ∷ (codes "Content-Type", codes "application/octet-stream")
    ∷ []

unfoldable pub delete_headers : Bool → Dict Text
delete_headers bypass = if bypass then (codes "X-Dezhan-Bypass", codes "1") ∷ [] else []

unfoldable pub admin_headers : Text → Dict Text
admin_headers token = if is_empty token then [] else (codes "X-Dezhan-Admin-Token", token) ∷ []

module _ (H : Http) (c : Client) where
  abbrev pub Call : Type 0 → Type 0
  Call A = Exec H.World Text A

  abbrev pub request : Text → Text → Dict Text → Text → Request
  request method path headers body = record {
    method = method;
    url = c.endpoint ++ path;
    headers = headers;
    body = body;
  }

  unfoldable pub text : Text → Text → Dict Text → Text → Call Reply
  text method path headers body = do
    resp ← H.send (request method path headers body)
    b ← lift resp.body
    pure (record { body = b; code = resp.status })

  -- `if code != 200 { return error }`, and the trimmed body
  abbrev trimmed_if : Bool → Text → Reply → Call Text
  trimmed_if good message r = if good then pure (trim_space r.body) else fail message

  unfoldable pub health : Call Text
  unfolding text http_error trim_space
  health = do
    r ← text (codes "GET") (codes "/healthz") no_headers []
    trimmed_if (r.code == 200) (http_error (codes "healthz") r.code) r

  unfoldable pub version : Call Text
  unfolding text http_error trim_space
  version = do
    r ← text (codes "GET") (codes "/version") no_headers []
    trimmed_if (r.code == 200) (http_error (codes "version") r.code) r

  unfoldable pub list : Call (List Text)
  unfolding text http_error nonempty_lines split sort
  list = do
    r ← text (codes "GET") (codes "/v") no_headers []
    if r.code == 200
        then pure (sort (nonempty_lines (split r.body b'\n')))
        else fail (http_error (codes "list") r.code)

  unfoldable pub get : Text → Call Text
  unfolding http_error_body
  get name = do
    resp ← H.send (request (codes "GET") (codes "/v/" ++ name) no_headers [])
    b ← lift resp.body
    if resp.status == 200
        then pure b
        else fail (http_error_body (codes "get " ++ name) resp.status b)

  unfoldable pub put : Text → Text → Text → ℤ → Call Text
  unfolding text http_error_body trim_space put_headers
  put name payload mode retain_secs = do
    r ← text (codes "PUT") (codes "/v/" ++ name) (put_headers mode retain_secs) payload
    trimmed_if (r.code == 200 || r.code == 201)
        (http_error_body (codes "put " ++ name) r.code r.body) r

  unfoldable pub delete : Text → Bool → Call Text
  unfolding text http_error_body trim_space delete_headers
  delete name bypass = do
    r ← text (codes "DELETE") (codes "/v/" ++ name) (delete_headers bypass) []
    trimmed_if (r.code == 200) (http_error_body (codes "delete " ++ name) r.code r.body) r

  unfoldable pub admin : Text → Text → Call Text
  unfolding text http_error_body trim_space admin_headers
  admin action token = do
    r ← text (codes "POST") (codes "/admin/" ++ action) (admin_headers token) []
    trimmed_if (r.code == 200) (http_error_body (codes "admin " ++ action) r.code r.body) r

  -- HEAD: the headers and the status
  unfoldable pub stat : Text → Call (Dict (List Text) × ℕ)
  unfolding http_error
  stat name = do
    resp ← H.send (request (codes "HEAD") (codes "/v/" ++ name) no_headers [])
    if resp.status == 404
        then fail (codes "stat " ++ (name ++ codes ": not found"))
        else if resp.status == 200
        then pure (resp.headers, resp.status)
        else fail (http_error (codes "stat " ++ name) resp.status)

-- the test of InterestingHeaders on a key in lower case
unfoldable pub is_interesting : Text → Bool
unfolding text_eq has_prefix
is_interesting k =
    text_eq k (codes "content-length")
    || (text_eq k (codes "content-type")
        || (text_eq k (codes "etag")
            || (text_eq k (codes "last-modified")
                || (has_prefix k (codes "x-dezhan-")
                    || (has_prefix k (codes "x-amz-meta-")
                        || has_prefix k (codes "x-amz-version-id"))))))

unfoldable pub interesting_headers : Dict (List Text) → Dict Text → Dict Text
unfolding is_interesting to_lower join insert
interesting_headers [] out = out
interesting_headers ((k, v) ∷ h) out =
    interesting_headers h
      (if is_interesting (to_lower k) then insert (to_lower k) (join v (codes ", ")) out else out)
