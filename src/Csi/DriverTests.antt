-- ===== src/Csi/DriverTests.antt =====
-- The driver at concrete options.
use dezhan.Base.{◌≡◌, ◌≢◌, ◌⊎◌, ◌↔◌, refl, [], ok, In}
use dezhan.Text.{codes, text_eq}
use dezhan.Csi.Driver.{
  Options, new_driver, services_of, identity, controller, node, mode_controller, mode_node,
  mode_all,
}
use dezhan.Csi.Driver.Services.{new_driver-services}

abbrev options : Options
options = record {
  name = codes "dezhan";
  node_id = codes "n1";
  endpoint = codes "unix:///csi/csi.sock";
  mode = codes "all";
}

options_made : new_driver options ≡ ok options
unfolding new_driver text_eq
options_made = refl

new_driver-services_example :
    (options ≡ options)
    × In identity (services_of options.mode)
    × (In controller (services_of options.mode)
        ↔ ((options.mode ≡ mode_controller) ⊎ (options.mode ≡ mode_all)))
    × (In node (services_of options.mode)
        ↔ ((options.mode ≡ mode_node) ⊎ (options.mode ≡ mode_all)))
    × ((options.mode ≡ mode_controller)
        ⊎ ((options.node_id ≢ []) × ((options.mode ≡ mode_node) ⊎ (options.mode ≡ mode_all))))
new_driver-services_example = new_driver-services options options options_made
