-- ===== src/Tests/Orders.antt =====
-- Examples of the boot order of discover/platform.c.
use petitboot.CString.{codes}
use petitboot.Base.{◌≡◌, refl, true, [], ◌∷◌, arith}
use petitboot.Types.{Config, by_type, by_uuid}
use petitboot.BootOrder.{config_populate_bootdev, params_update_bootdev_values}
use petitboot.BootOrder.RoundTrip.{config_populate_bootdev-params_update_bootdev_values}
use petitboot.Tests.Data.{text}
use petitboot.Tests.Configurations.{settings}
use petitboot.Tests.Events.{nvram}

abbrev ordered : Config
ordered = record settings {
  autoboot_opts = by_uuid 1 (text "1234-ab") ∷ by_type 0 ∷ by_type 5 ∷ [];
}

order_kept :
    (config_populate_bootdev true settings
      (params_update_bootdev_values nvram (codes "petitboot,bootdevs") ordered)).autoboot_opts
    ≡ by_uuid 1 (text "1234-ab") ∷ by_type 0 ∷ by_type 5 ∷ []
order_kept =
    config_populate_bootdev-params_update_bootdev_values true nvram ordered settings (λ e. cc)
      ((refl, search), (omega arith, (omega arith, tt)))
