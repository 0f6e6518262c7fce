-- ===== src/Ctl/Tests.antt =====
-- The client against a small server, whose world is the list of the requests it has served.
use dezhan.Base.{◌≡◌, ◌≢◌, ◌↔◌, refl, [], ◌∷◌, List, true, if◌then◌else◌, ok, In}
use dezhan.Text.{Text, codes, text_eq, pos, trim_space, split}
use dezhan.Ctl.Http.{Http, Request, Response}
use dezhan.Ctl.Order.{IsSorted, sort}
use dezhan.Ctl.Client.{Client, text, list, put, delete, request, nonempty_lines}
use dezhan.Ctl.Client.Requests.{Answers}
use dezhan.Ctl.Client.Names.{IsLineOf, list-ok}

abbrev answer : Request → Response
answer req = record {
  status = if text_eq req.method (codes "PUT") then 201 else 200;
  headers = [];
  body = ok (if text_eq req.method (codes "GET") then codes " b\n\na\n" else codes "done\n");
}

abbrev pub http : Http
http = record { World = List Request; send = λ req w. (ok (answer req), req ∷ w) }

abbrev pub client : Client
client = record { endpoint = codes "http://v" }

put_done :
    (put http client (codes "x") (codes "data") (codes "governance") (pos 60) []).0
    ≡ ok (codes "done")
unfolding put text trim_space text_eq
put_done = refl

delete_done : (delete http client (codes "x") true []).0 ≡ ok (codes "done")
unfolding delete text trim_space text_eq
delete_done = refl

list_done : (list http client []).0 ≡ ok (codes "a" ∷ codes "b" ∷ [])
unfolding list text trim_space text_eq nonempty_lines split sort
list_done = refl

list-ok_example :
    (body : Text) × Answers http client
      (request http client (codes "GET") (codes "/v") [] [])
      []
      (list http client []).1
      200
      body
    × IsSorted (codes "a" ∷ codes "b" ∷ [])
    × ((a : Text) → In a (codes "a" ∷ codes "b" ∷ []) ↔ ((a ≢ []) × IsLineOf a (split body b'\n')))
list-ok_example = list-ok http client [] (codes "a" ∷ codes "b" ∷ []) list_done
