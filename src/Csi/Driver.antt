-- ===== src/Csi/Driver.antt =====
-- The driver as a whole, csi/internal/driver/driver.go and identity.go, with the constant answers of
-- controller.go and node.go. Log lines and the interceptor that writes them are left out.
pub mod Services
use dezhan.Base.{
  ◌++◌, [], ◌∷◌, List, Bool, true, false, not, ◌||◌, ◌&&◌, Option, none, some, if◌then◌else◌,
  Result, ok, err, Exec, pure, fail, ◌>>=◌, ◌>>◌, or_fail, lift, continue, mapped, nil_or, checked,
}
use dezhan.Text.{Text, codes, text_eq, has_prefix}
use dezhan.Csi.Conn.{is_empty}

pub record Options : Type 0 where
  pub name : Text
  pub node_id : Text
  pub endpoint : Text
  pub mode : Text

abbrev pub mode_controller : Text
mode_controller = codes "controller"

abbrev pub mode_node : Text
mode_node = codes "node"

abbrev pub mode_all : Text
mode_all = codes "all"

-- what New may refuse
pub data OptionError : Type 0 where
  invalid_mode : Text → OptionError
  missing_node_id : OptionError

-- New: the options that a driver is made with
unfoldable pub new_driver : Options → Result OptionError Options
new_driver o =
    if text_eq o.mode mode_controller || (text_eq o.mode mode_node || text_eq o.mode mode_all)
    then (if not (text_eq o.mode mode_controller) && is_empty o.node_id
        then err missing_node_id
        else ok o)
    else err (invalid_mode o.mode)

-- the services that are registered
pub data ServiceName : Type 0 where
  identity controller node : ServiceName

abbrev pub registered_if : Bool → ServiceName → List ServiceName
registered_if b s = if b then s ∷ [] else []

unfoldable pub services_of : Text → List ServiceName
services_of mode =
    identity
    ∷ (registered_if (text_eq mode mode_controller || text_eq mode mode_all) controller
        ++ registered_if (text_eq mode mode_node || text_eq mode mode_all) node)

-- what of url.URL is used
pub record Url : Type 0 where
  pub scheme : Text
  pub host : Text
  pub path : Text

-- The network, the file system, gRPC and net/url: `serve` returns when the server has ended.
pub record Net : Type 1 where
  pub World : Type 0
  pub parse_url : Text → Result Text Url
  pub remove : Text → World → Option Text × World
  pub listen : Text → Text → World → Option Text × World
  pub serve : List ServiceName → World → Option Text × World

pub data RunError : Type 0 where
  bad_endpoint : Text → Text → RunError
  unsupported_scheme : Text → RunError
  not_listening : Text → Text → Text → RunError
  ended : Text → RunError

module _ (T : Net) where
  -- parseEndpoint: the network and the address
  unfoldable pub parse_endpoint : Text → Result RunError (Text × Text)
  unfolding has_prefix text_eq
  parse_endpoint ep =
      if has_prefix ep (codes "/") then ok (codes "unix", ep) else elim (T.parse_url ep) [
        | err e ↦ err (bad_endpoint ep e)
        | ok u ↦
            if text_eq u.scheme (codes "unix")
            then ok (codes "unix", u.path)
            else if text_eq u.scheme (codes "tcp")
            then ok (codes "tcp", u.host)
            else err (unsupported_scheme u.scheme)
      ]

  -- a socket that an earlier run has left behind is removed, and no error of that is looked at
  unfoldable pub clear_socket : Text → Text → T.World → T.World
  unfolding text_eq
  clear_socket scheme addr w = if text_eq scheme (codes "unix") then (T.remove addr w).1 else w

  unfoldable pub run_driver : Options → Exec T.World RunError (Unit {0})
  unfolding parse_endpoint clear_socket services_of
  run_driver o = do
    (scheme, addr) ← lift (parse_endpoint o.endpoint)
    (λ w. (ok tt, clear_socket scheme addr w))
    or_fail (nil_or (T.listen scheme addr)) (not_listening scheme addr)
    or_fail (nil_or (T.serve (services_of o.mode))) ended

-- GetPluginInfo: the name and the version
abbrev pub plugin_info : Options → Text × Text
plugin_info o = (o.name, codes "0.1.0")

-- ControllerGetCapabilities
pub data Capability : Type 0 where
  create_delete_volume create_delete_snapshot : Capability

abbrev pub controller_capabilities : List Capability
controller_capabilities = create_delete_volume ∷ create_delete_snapshot ∷ []

-- NodeGetInfo
abbrev pub node_info : Options → Text
node_info o = o.node_id
