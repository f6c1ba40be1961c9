-- ===== src/Cli.antt =====
-- cmd/netsee/main.go: the flags and what `main` does with them. The package `flag`, which fills the
-- record of the flags, is not modelled; `version.Version` and the JSON encoder are parameters.
pub mod Ends
mod Tests
use netsee.Client.Run.{Ended, aborted, finished, run, run_stuck}
use netsee.Client.Types.{Fallible, failed_with, succeeded}
use netsee.Client.World.{Libraries, Meets, RunConfig}
use netsee.Prelude.{Bool, List, Option, [], false, if◌then◌else◌, none, some, ℕ, ◌++◌, ◌∷◌}
use netsee.Prelude.Int.{pos, ℤ}
use netsee.Prelude.Text.{Bytes, utf8}
use netsee.Report.{build}
use netsee.Report.Items.{Report}
use netsee.Report.Text.{text_lines}
use netsee.Report.Text.Format.{Floats}

-- `version.Version`, where the build sets no other.
abbrev pub default_version : Bytes
default_version = utf8 "dev"

pub record ClientFlags : Type 0 where
  pub probe_url : Bytes
  pub timeout : ℤ
  pub doh : Bytes
  pub dns_host : Bytes
  pub ipinfo_token : Bytes
  pub direct : Bool
  pub as_json : Bool
  pub show_version : Bool

-- The flags of a command line without any; durations are in nanoseconds.
abbrev pub default_client_flags : ClientFlags
default_client_flags = record {
  probe_url = utf8 "http://127.0.0.1:8080";
  timeout = pos 15_000_000_000;
  doh = utf8 "https://dns.google/resolve";
  dns_host = utf8 "example.com";
  ipinfo_token = [];
  direct = false;
  as_json = false;
  show_version = false;
}

-- The configuration of the run; `IPAPIBase` is not set.
pub client_config : ClientFlags → RunConfig
client_config f = record {
  probe_url = f.probe_url;
  timeout = f.timeout;
  doh_url = f.doh;
  dns_host = f.dns_host;
  ipinfo_token = f.ipinfo_token;
  ip_api_base = [];
  direct = f.direct;
}

-- What the process writes to its two streams, in lines, and its exit status.
pub record Output : Type 0 where
  pub out : List Bytes
  pub err : List Bytes
  pub code : ℕ

-- What the report and the command line take from the libraries.
pub record Printers : Type 0 where
  pub format : ℤ → Bytes
  pub floats : Floats
  pub encode : Report → Fallible Bytes
  pub version : Bytes

-- `fmt.Fprintf(os.Stderr, ...)` and `os.Exit(1)`
pub failure : Bytes → Output
failure text = record { out = []; err = (utf8 "netsee: " ++ text) ∷ []; code = 1 }

pub success : List Bytes → Output
success lines = record { out = lines; err = []; code = 0 }

encoded : Fallible Bytes → Output
unfolding failure success
encoded (failed_with e) = failure (utf8 "encode: " ++ e)
encoded (succeeded text) = success (text ∷ [])

-- The end of `main`, behind `Run`; none where the run is stuck, which is no result of the source.
show_run : Printers → Bool → Ended → Option Output
unfolding encoded failure success
show_run p as_json run_stuck = none
show_run p as_json (aborted e) = some (failure e)
show_run p as_json (finished r) =
    let report = build p.format r in
    some (if as_json then encoded (p.encode report) else success (text_lines p.floats report))

pub client_main : Printers → Libraries → (ℕ → Meets) → ClientFlags → Option Output
unfolding show_run success
client_main p lib world f =
    if f.show_version
    then some (success ((utf8 "netsee " ++ p.version) ∷ []))
    else show_run p f.as_json (run lib world (client_config f)).0
