-- ===== src/Ctl/CommandTests.antt =====
-- Commands over the small server of the client's tests, in a shell whose files all hold "data".
use dezhan.Base.{◌≡◌, ◌⊎◌, refl, [], true, false, none, ok}
use dezhan.Text.{Text, codes, pos, text_eq, trim_space}
use dezhan.Csi.Conn.{is_empty}
use dezhan.Ctl.Client.{request, put, get, text}
use dezhan.Ctl.Client.Requests.{Answers}
use dezhan.Ctl.Commands.{Shell, put_data, put_command, get_command, write_output}
use dezhan.Ctl.Commands.Effects.{get_command-ok}
use dezhan.Ctl.Tests.{http, client}
use dezhan.Ctl.MetricTests.{texts}

abbrev shell : Shell texts.F http.World
shell = record {
  read_file = λ f w. (ok (codes "data"), w);
  write_file = λ f b w. (none, w);
  write_stdout = λ b w. (none, w);
  print = λ t w. w;
  print_error = λ t w. w;
  marshal = λ v. ok [];
}

put_run :
    (put_command texts http shell client
      (codes "f")
      (codes "governance")
      (pos 60)
      (codes "x")
      none
      []).0
    ≡ ok tt
unfolding put_command put_data put text trim_space text_eq
put_run = refl

get_run : (get_command texts http shell client (codes "out") (codes "x") []).0 ≡ ok tt
unfolding get_command write_output get text_eq
get_run = refl

get_command-ok_example :
    (b : Text) × (u : http.World) × Answers http client
      (request http client (codes "GET") (codes "/v/x") [] [])
      []
      u
      200
      b
    × (((is_empty (codes "out") ≡ false)
          × (text_eq (codes "out") (codes "-") ≡ false)
          × ((shell.write_file (codes "out") b u).0 ≡ none))
        ⊎ (((is_empty (codes "out") ≡ true) ⊎ (text_eq (codes "out") (codes "-") ≡ true))
            × ((get_command texts http shell client (codes "out") (codes "x") []).1
                ≡ (shell.write_stdout b u).1)
            × ((shell.write_stdout b u).0 ≡ none)))
get_command-ok_example = get_command-ok texts http shell client (codes "out") (codes "x") [] get_run
