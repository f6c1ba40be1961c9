-- ===== src/Cli/Tests.antt =====
-- A run of the client with the default flags.
use netsee.Cli.{Printers, client_main, default_client_flags, default_version, success}
use netsee.Cli.Ends.{Reaches, client_main-Reaches}
use netsee.Client.Measure.Samples.{libraries, meets}
use netsee.Client.Types.{succeeded}
use netsee.Client.World.{Meets}
use netsee.Prelude.{[], refl, some, true, ℕ, ◌∷◌, ◌≡◌}
use netsee.Prelude.Text.{utf8}

abbrev printers : Printers
printers = record {
  format = λ t. utf8 "now";
  floats = record { seconds = λ d. utf8 "1.0"; millis = λ us. utf8 "2.50" };
  encode = λ r. succeeded (utf8 "{}");
  version = default_version;
}

abbrev world : ℕ → Meets
world n = meets

client_main-Reaches_example :
    Reaches printers libraries world default_client_flags
      (client_main printers libraries world default_client_flags)
client_main-Reaches_example = client_main-Reaches printers libraries world default_client_flags

client_main_version :
    client_main printers libraries world (record default_client_flags { show_version = true })
    ≡ some (record { out = utf8 "netsee dev" ∷ []; err = []; code = 0 })
unfolding client_main success utf8
client_main_version = refl
