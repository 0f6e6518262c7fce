-- ===== src/Ctl/Commands.antt =====
-- The commands of dezhanctl, ctl/cmd. The flags are arguments; cobra has checked the number of the
-- others. Time limits are left out.
pub mod Effects
pub mod Dash
use dezhan.Base.{
  ℕ, zero, suc, ◌-◌, ◌++◌, [], ◌∷◌, List, Bool, true, false, not, ◌||◌, ◌&&◌, Option, none, some,
  if◌then◌else◌, ◌==◌, length, Result, ok, err, Exec, pure, fail, ◌>>=◌, ◌>>◌, lift, continue,
  nil_or, checked, map,
}
use dezhan.Text.{Text, codes, ℤ, pos, itoa, text_eq}
use dezhan.Dict.{Dict, get as get_key}
use dezhan.Csi.Conn.{is_empty}
use dezhan.Ctl.Http.{Http}
use dezhan.Ctl.Order.{sort}
use dezhan.Ctl.Client.{
  Client, new_client, health, version, list, get, put, delete, admin, stat, interesting_headers,
}
use dezhan.Ctl.Metrics.{Floats, Metrics, metrics}

-- the values that are given to printJSON
pub data Json (F : Type 0) : Type 0 where
  health_json : Text → Bool → Json F
  version_json : Text → Json F
  names_json : List Text → Json F
  metrics_json : Text → Dict F → Json F
  stat_json : Text → ℕ → Dict Text → Json F

-- Files, the standard streams and encoding/json. Errors of fmt.Print are dropped by the program.
pub record Shell (F W : Type 0) : Type 0 where
  pub read_file : Text → Exec W Text Text
  pub write_file : Text → Text → W → Option Text × W
  pub write_stdout : Text → W → Option Text × W
  pub print : Text → W → W
  pub print_error : Text → W → W
  pub marshal : Json F → Result Text Text

-- what of DEZHAN_ENDPOINT is the default of the flag
unfoldable pub default_endpoint : Text → Text
default_endpoint e = if is_empty e then codes "http://127.0.0.1:8080" else e

spaces : ℕ → Text
spaces zero = []
spaces (suc n) = 32 ∷ spaces n

-- "%-18s %s\n"
unfoldable pub header_line : Text → Text → Text
unfolding spaces
header_line k v = k ++ (spaces (18 - length k) ++ (32 ∷ (v ++ codes "\n")))

unfoldable pub header_lines : Dict Text → List Text → Text
unfolding header_line
header_lines meta [] = []
header_lines meta (k ∷ ks) = header_line k (get_key k meta) ++ header_lines meta ks

unfoldable pub keys : Dict Text → List Text
keys [] = []
keys ((k, v) ∷ m) = k ∷ keys m

unfoldable pub lines : List Text → Text
lines [] = []
lines (n ∷ ns) = n ++ (codes "\n" ++ lines ns)

module _ (N : Floats) (H : Http) (sh : Shell N.F H.World) where
  abbrev Do : Type 0 → Type 0
  Do A = Exec H.World Text A

  -- fmt.Println, and fmt.Print of a text that ends its lines itself
  abbrev pub say : Text → Do (Unit {0})
  say t w = (ok tt, sh.print (t ++ codes "\n") w)

  abbrev show : Text → Do (Unit {0})
  show t w = (ok tt, sh.print t w)

  unfoldable pub print_json : Json N.F → Do (Unit {0})
  print_json v = do b ← lift (sh.marshal v); say b

  module _ (c : Client) (json_out : Bool) where
    unfoldable pub health_command : Do (Unit {0})
    unfolding print_json text_eq
    health_command = do
      h ← health H c
      if json_out then print_json (health_json h (text_eq h (codes "ok"))) else say h

    unfoldable pub version_command : Do (Unit {0})
    unfolding print_json
    version_command = do v ← version H c; if json_out then print_json (version_json v) else say v

    unfoldable pub ls_command : Do (Unit {0})
    unfolding print_json lines
    ls_command = do
      names ← list H c
      if json_out then print_json (names_json names) else show (lines names)

    -- a panic of the parser is none here
    abbrev metrics_out : Option (Metrics N.F) → Do (Option (Unit {0}))
    metrics_out none = pure none
    metrics_out (some m) =
        ((if json_out then print_json (metrics_json m.version m.values) else show m.raw)
          >> pure (some tt))

    unfoldable pub metrics_command : Do (Option (Unit {0}))
    unfolding print_json
    metrics_command = do m ← metrics N H c; metrics_out m

    unfoldable pub stat_command : Text → Do (Unit {0})
    unfolding print_json header_lines keys sort interesting_headers itoa
    stat_command name = do
      (h, code) ← stat H c name
      if json_out
          then print_json (stat_json name code (interesting_headers h []))
          else show (
              codes "name    "
              ++ (name
                  ++ (codes "\nstatus  "
                      ++ (itoa (pos code)
                          ++ (codes "\n"
                              ++ header_lines (interesting_headers h [])
                                  (sort (keys (interesting_headers h []))))))))

  module _ (c : Client) where
    unfoldable pub write_output : Text → Text → Do (Unit {0})
    unfolding text_eq itoa
    write_output output b =
        if not (is_empty output) && not (text_eq output (codes "-"))
        then (nil_or (sh.write_file output b) >> (λ w. (
          ok tt,
          sh.print_error
              (codes "wrote "
                ++ (itoa (pos (length b)) ++ (codes " bytes to " ++ (output ++ codes "\n"))))
              w,
        )))
        else nil_or (sh.write_stdout b)

    unfoldable pub get_command : Text → Text → Do (Unit {0})
    get_command output name = do b ← get H c name; write_output output b

    -- the data of a put: the file, where one is named, or else the second argument
    unfoldable pub put_data : Text → Option Text → Do Text
    put_data file none =
        if is_empty file then fail (codes "provide <data> or --file") else sh.read_file file
    put_data file (some data_given) = if is_empty file then pure data_given else sh.read_file file

    unfoldable pub put_command : Text → Text → ℤ → Text → Option Text → Do (Unit {0})
    put_command file mode retain name arg = do
      content ← put_data file arg
      out ← put H c name content mode retain
      say out

    unfoldable pub delete_command : Bool → Text → Do (Unit {0})
    delete_command bypass name = do out ← delete H c name bypass; say out

    unfoldable pub admin_command : Text → Text → Do (Unit {0})
    admin_command action token = do
      out ← admin H c action token
      say (if is_empty out then codes "ok" else out)
