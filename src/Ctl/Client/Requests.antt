-- ===== src/Ctl/Client/Requests.antt =====
-- About the requests of ctl/internal/client/client.go that a server has accepted.
use dezhan.Base.{
  ℕ, ◌++◌, ◌≡◌, ◌⊎◌, refl, ap, sym, ◌∙◌, [], ◌∷◌, Bool, true, if◌then◌else◌, ◌==◌, Result, ok, err,
  pure, fail, ◌>>=◌, lift, >>=-ok, arith, inl, inr,
}
use dezhan.Text.{Text, codes, ℤ, trim_space, trim_right}
use dezhan.Text.Number.{atoi, atoi-itoa}
use dezhan.Text.Trim.{ends_without, trim_right-ends, trim_right_idem}
use dezhan.Dict.{Dict, lookup, get}
use dezhan.Ctl.Http.{Http, Request, Response}
use dezhan.Ctl.Client.{
  get as get_object, http_error_body, Client, new_client, Reply, text, put, delete, put_headers,
  delete_headers, request, trimmed_if,
}

-- A client's endpoint does not end in a slash, so that an endpoint and a path never meet in two
-- slashes, and making a client from it again changes nothing.
pub new_client-endpoint :
    (e : Text)
    → (((new_client e).endpoint ≡ [])
        ⊎ (ends_without (λ c. c == b'/') (new_client e).endpoint ≡ true))
      × (new_client (new_client e).endpoint ≡ new_client e)
unfolding new_client
new_client-endpoint e =
    (go (trim_right slash e) refl, ap (λ t. record { endpoint = t }) (trim_right_idem slash e))
  where
    slash : ℕ → Bool
    slash c = c == b'/'

    go :
        (t : Text)
        → trim_right slash e ≡ t
        → (trim_right slash e ≡ []) ⊎ (ends_without slash (trim_right slash e) ≡ true)
    go [] k = inl k
    go (c ∷ t) k = inr (trim_right-ends slash e (rw k (ground arith)))

module _ (H : Http) (c : Client) where
  -- The server has answered `req` with a status and a body.
  pub record Answers (req : Request) (w v : H.World) (status : ℕ) (body : Text) : Type 0 where
    pub response : Response
    pub sent : H.send req w ≡ (ok response, v)
    pub answered : response.status ≡ status
    pub read : response.body ≡ ok body

  pub text-ok :
      (method path : Text) (headers : Dict Text) (payload : Text) (w : H.World) (r : Reply)
      → (text H c method path headers payload w).0 ≡ ok r
      → Answers
          (request H c method path headers payload)
          w
          (text H c method path headers payload w).1
          r.code
          r.body
  unfolding text
  text-ok method path headers payload w r h =
      let (resp, sent, rest, same) =
        >>=-ok (H.send (request H c method path headers payload)) _ w h in
      let (b, read, done, same') =
        >>=-ok (lift resp.body) _ (H.send (request H c method path headers payload) w).1 rest in
      record {
        response = resp;
        sent = λ i. (sent i, ap second (sym (same ∙ same')) i);
        answered = ap code_of done;
        read = read ∙ ap body_of done;
      }
    where
      second : Result Text Reply × H.World → H.World
      second x = x.1

      code_of : Result Text Reply → ℕ
      code_of (ok x) = x.code
      code_of (err e) = r.code

      body_of : Result Text Reply → Result Text Text
      body_of (ok x) = ok x.body
      body_of (err e) = err e

  -- A call that checks the status and trims the body.
  accepted :
      (method path : Text) (headers : Dict Text) (payload : Text) (good : Reply → Bool)
      (message : Reply → Text) (w : H.World) (s : Text)
      → ((text H c method path headers payload >>= λ r. trimmed_if H c (good r) (message r) r) w).0
        ≡ ok s
      → (r : Reply) × (good r ≡ true)
        × (s ≡ trim_space r.body)
        × Answers
            (request H c method path headers payload)
            w
            ((text H c method path headers payload >>= λ r. trimmed_if H c (good r) (message r) r)
              w).1
            r.code
            r.body
  accepted method path headers payload good message w s h =
      let (r, got, rest, same) = >>=-ok (text H c method path headers payload) _ w h in
      let passed = checks r rest in
      (r, passed.0, passed.1, rw (same, passed.2) (text-ok method path headers payload w r got))
    where
      checks :
          (r : Reply) {v : H.World}
          → (trimmed_if H c (good r) (message r) r v).0 ≡ ok s
          → (good r ≡ true)
            × (s ≡ trim_space r.body)
            × ((trimmed_if H c (good r) (message r) r v).1 ≡ v)
      checks r k = ground arith

  -- `put` reports success only if the server has answered 200 or 201 to a PUT of the data at
  -- /v/<name>, which names the mode and whose retention header reads back as the given seconds; what
  -- it reports is the trimmed body.
  pub put-accepted :
      (name payload mode : Text) (secs : ℤ) (w : H.World) (s : Text)
      → (put H c name payload mode secs w).0 ≡ ok s
      → (code : ℕ) × (body : Text) × Answers
          (request H c (codes "PUT") (codes "/v/" ++ name) (put_headers mode secs) payload)
          w
          (put H c name payload mode secs w).1
          code
          body
        × ((code ≡ 200) ⊎ (code ≡ 201))
        × (s ≡ trim_space body)
        × (get (codes "X-Dezhan-Mode") (put_headers mode secs) ≡ mode)
        × (atoi (get (codes "X-Dezhan-Retain") (put_headers mode secs)) ≡ secs)
  unfolding put lookup
  put-accepted name payload mode secs w s h =
      let (r, good, trimmed, sent) =
        accepted (codes "PUT") (codes "/v/" ++ name) (put_headers mode secs) payload _ _ w s h in
      (r.code, r.body, sent, ground arith, trimmed, refl, atoi-itoa secs)

  -- `delete` reports success only if the server has answered 200 to a DELETE of /v/<name>, with the
  -- bypass header exactly when a bypass was asked for; a refusal is never reported as a success.
  pub delete-accepted :
      (name : Text) (bypass : Bool) (w : H.World) (s : Text)
      → (delete H c name bypass w).0 ≡ ok s
      → (body : Text) × Answers
          (request H c (codes "DELETE") (codes "/v/" ++ name) (delete_headers bypass) [])
          w
          (delete H c name bypass w).1
          200
          body
        × (s ≡ trim_space body)
        × (get (codes "X-Dezhan-Bypass") (delete_headers bypass)
            ≡ (if bypass then codes "1" else []))
  unfolding delete lookup
  delete-accepted name bypass w s h =
      let (r, good, trimmed, sent) =
        accepted (codes "DELETE") (codes "/v/" ++ name) (delete_headers bypass) [] _ _ w s h in
      let ok_code : r.code ≡ 200 = ground arith in
      (r.body, rw ok_code at sent, trimmed, ground arith)

  sent_body :
      (resp : Response) (req : Request) (what : Text) (w v : H.World) (b : Text)
      → H.send req w ≡ (ok resp, v)
      → ((lift resp.body >>= λ x.
            if resp.status == 200 then pure x else fail (http_error_body what resp.status x))
          v).0
        ≡ ok b
      → Answers req w
          ((lift resp.body >>= λ x.
              if resp.status == 200 then pure x else fail (http_error_body what resp.status x))
            v).1
          200
          b
  sent_body resp req what w v b sent h =
      let (x, read, rest, same) = >>=-ok (lift resp.body) _ v h in
      let (good, e, stays) = passed x rest in
      record {
        response = resp;
        sent = sent ∙ (λ i. (ok resp, sym (ap second same ∙ stays) i));
        answered = good;
        read = read ∙ ap ok e;
      }
    where
      second : Result Text Text × H.World → H.World
      second y = y.1

      passed :
          (x : Text)
          → ((if resp.status == 200 then pure x else fail (http_error_body what resp.status x)) v).0
            ≡ ok b
          → (resp.status ≡ 200)
            × (x ≡ b)
            × (((if resp.status == 200 then pure x else fail (http_error_body what resp.status x))
                  v).1
                ≡ v)
      passed x k = ground arith

  -- `get` returns only the body that the server has sent with the answer 200 to a GET of /v/<name>.
  pub get-accepted :
      (name : Text) (w : H.World) (b : Text)
      → (get_object H c name w).0 ≡ ok b
      → Answers
          (request H c (codes "GET") (codes "/v/" ++ name) [] [])
          w
          (get_object H c name w).1
          200
          b
  unfolding get_object
  get-accepted name w b h =
      let (resp, sent, rest, same) =
        >>=-ok (H.send (request H c (codes "GET") (codes "/v/" ++ name) [] [])) _ w h in
      rw same (
        sent_body resp _ (codes "get " ++ name) w
          (H.send (request H c (codes "GET") (codes "/v/" ++ name) [] []) w).1 b
          (λ i. (sent i, (H.send (request H c (codes "GET") (codes "/v/" ++ name) [] []) w).1))
          rest)
