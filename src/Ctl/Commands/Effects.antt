-- ===== src/Ctl/Commands/Effects.antt =====
-- About the commands put and get of ctl/cmd/commands.go.
use dezhan.Base.{
  ℕ, ◌++◌, ◌≡◌, ◌⊎◌, refl, ap, ◌∙◌, [], true, false, Option, none, some, Result, ok, >>=-ok,
  checked, continue, inl, inr, Bool-cases,
}
use dezhan.Text.{Text, codes, ℤ, trim_space, text_eq}
use dezhan.Csi.Conn.{is_empty}
use dezhan.Ctl.Http.{Http}
use dezhan.Ctl.Client.{Client, put, get, request, put_headers}
use dezhan.Ctl.Client.Requests.{Answers, put-accepted, get-accepted}
use dezhan.Ctl.Metrics.{Floats}
use dezhan.Ctl.Commands.{Shell, put_data, put_command, get_command, write_output}

module _ (N : Floats) (H : Http) (sh : Shell N.F H.World) (c : Client) where
  -- A `put` command that succeeds has taken its data from the file that was named, or else from the
  -- second argument; the server has accepted a PUT of exactly this data at /v/<name>, with 200 or 201,
  -- and what is printed at last is the trimmed body of its answer.
  pub put_command-ok :
      (file mode : Text) (retain : ℤ) (name : Text) (arg : Option Text) (w : H.World)
      → (put_command N H sh c file mode retain name arg w).0 ≡ ok tt
      → (content : Text) × (u : H.World) × (code : ℕ) × (body : Text) × ((put_data N H sh c file arg
            w).0
          ≡ ok content)
        × Answers H c
            (request H c (codes "PUT") (codes "/v/" ++ name) (put_headers mode retain) content)
            (put_data N H sh c file arg w).1
            u
            code
            body
        × ((code ≡ 200) ⊎ (code ≡ 201))
        × ((put_command N H sh c file mode retain name arg w).1
            ≡ sh.print (trim_space body ++ codes "\n") u)
  unfolding put_command
  put_command-ok file mode retain name arg w h =
      let (content, got, rest, same) = >>=-ok (put_data N H sh c file arg) _ w h in
      let (out, stored, last, same') =
        >>=-ok (put H c name content mode retain) _ (put_data N H sh c file arg w).1 rest in
      let (code, body, sent, good, trimmed, mode_sent, secs_sent) =
        put-accepted H c name content mode retain (put_data N H sh c file arg w).1 out stored in
      (
        content,
        (put H c name content mode retain (put_data N H sh c file arg w).1).1,
        code,
        body,
        got,
        sent,
        good,
        ap second (same ∙ same')
            ∙ ap
                (λ t.
                  sh.print (t ++ codes "\n")
                    (put H c name content mode retain (put_data N H sh c file arg w).1).1)
                trimmed,
      )
    where
      second : Result Text (Unit {0}) × H.World → H.World
      second x = x.1

  -- A `get` command that succeeds hands on exactly the body that the server has sent with the answer 200
  -- to a GET of /v/<name>: as the contents of the file that was named with -o, or to the standard output
  -- where none or "-" was named.
  pub get_command-ok :
      (output name : Text) (w : H.World)
      → (get_command N H sh c output name w).0 ≡ ok tt
      → (b : Text) × (u : H.World) × Answers H c
          (request H c (codes "GET") (codes "/v/" ++ name) [] [])
          w
          u
          200
          b
        × (((is_empty output ≡ false)
              × (text_eq output (codes "-") ≡ false)
              × ((sh.write_file output b u).0 ≡ none))
            ⊎ (((is_empty output ≡ true) ⊎ (text_eq output (codes "-") ≡ true))
                × ((get_command N H sh c output name w).1 ≡ (sh.write_stdout b u).1)
                × ((sh.write_stdout b u).0 ≡ none)))
  unfolding get_command write_output
  get_command-ok output name w h =
      let (b, got, rest, same) = >>=-ok (get H c name) _ w h in
      (
        b,
        (get H c name w).1,
        get-accepted H c name w b got,
        rw same (wrote b (get H c name w).1 rest),
      )
    where
      none_of :
          (x : Option Text × H.World) → (checked x).0 ≡ ok tt → (x.0 ≡ none) × ((checked x).1 ≡ x.1)
      none_of (none, v) k = (refl, refl)
      none_of (some e, v) k = cc

      none_first :
          (x : Option Text × H.World) (g : H.World → H.World)
          → (continue (checked x) (λ _ v. (ok tt, g v))).0 ≡ ok tt
          → x.0 ≡ none
      none_first (none, v) g k = refl
      none_first (some e, v) g k = cc

      wrote :
          (b : Text) (u : H.World)
          → (write_output N H sh c output b u).0 ≡ ok tt
          → ((is_empty output ≡ false)
              × (text_eq output (codes "-") ≡ false)
              × ((sh.write_file output b u).0 ≡ none))
            ⊎ (((is_empty output ≡ true) ⊎ (text_eq output (codes "-") ≡ true))
                × ((write_output N H sh c output b u).1 ≡ (sh.write_stdout b u).1)
                × ((sh.write_stdout b u).0 ≡ none))
      wrote b u k = elim (Bool-cases (is_empty output)) [
        | inl e ↦
            let p = none_of (sh.write_stdout b u) (rw (write_output, e) at k) in
            inr (inl e, rw (write_output, e) (p.1), p.0)
        | inr e ↦ elim (Bool-cases (text_eq output (codes "-"))) [
          | inl f ↦
              let p = none_of (sh.write_stdout b u) (rw (write_output, e, f) at k) in
              inr (inr f, rw (write_output, e, f) (p.1), p.0)
          | inr f ↦
              inl (e, f, none_first (sh.write_file output b u) _ (rw (write_output, e, f) at k))
        ]
      ]
