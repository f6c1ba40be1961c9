-- ===== src/Cli/Ends.antt =====
-- What the client's command prints, and with which status it exits.
use netsee.Cli.{
  ClientFlags, Output, Printers, client_config, client_main, encoded, failure, show_run, success,
}
use netsee.Client.Result.{Result}
use netsee.Client.Run.{Ended, aborted, finished, run, run_stuck}
use netsee.Client.Run.Steps.{EndsWell, run-EndsWell}
use netsee.Client.Types.{Fallible, failed_with, succeeded}
use netsee.Client.World.{Libraries, Meets}
use netsee.Prelude.{
  Bool, Option, [], false, if◌then◌else◌, none, refl, some, true, ℕ, ◌++◌, ◌∷◌, ◌≡◌,
}
use netsee.Prelude.Text.{Bytes, utf8}
use netsee.Report.{build}
use netsee.Report.Text.{text_lines}

module _ (p : Printers) (lib : Libraries) (world : ℕ → Meets) (f : ClientFlags) where
  -- The result of the run, in which the probe was discovered.
  abbrev pub IsRunResult : Result → Type 0
  IsRunResult r = EndsWell lib world (client_config f) (finished r)

  -- The ways to end, each with what is printed.
  pub data Prints : Output → Type 0 where
    prints_version :
        f.show_version ≡ true
        → Prints (record { out = (utf8 "netsee " ++ p.version) ∷ []; err = []; code = 0 })
    prints_error :
        (e : Bytes)
        → f.show_version ≡ false
        → EndsWell lib world (client_config f) (aborted e)
        → Prints (record { out = []; err = (utf8 "netsee: " ++ e) ∷ []; code = 1 })
    prints_text :
        (r : Result)
        → f.show_version ≡ false
        → f.as_json ≡ false
        → IsRunResult r
        → Prints (record { out = text_lines p.floats (build p.format r); err = []; code = 0 })
    prints_json :
        (r : Result) (text : Bytes)
        → f.show_version ≡ false
        → f.as_json ≡ true
        → IsRunResult r
        → p.encode (build p.format r) ≡ succeeded text
        → Prints (record { out = text ∷ []; err = []; code = 0 })
    fails_to_encode :
        (r : Result) (e : Bytes)
        → f.show_version ≡ false
        → f.as_json ≡ true
        → IsRunResult r
        → p.encode (build p.format r) ≡ failed_with e
        → Prints
            (record { out = []; err = (utf8 "netsee: " ++ (utf8 "encode: " ++ e)) ∷ []; code = 1 })

  -- One end is reached.
  abbrev pub Reaches : Option Output → Type 0
  Reaches none = ⊥
  Reaches (some o) = Prints o

  encoded-Reaches :
      (r : Result)
      → f.show_version ≡ false
      → f.as_json ≡ true
      → IsRunResult r
      → (t : Fallible Bytes) → p.encode (build p.format r) ≡ t
      → Prints (encoded t)
  unfolding encoded failure success
  encoded-Reaches r runs json is_result (failed_with e) h =
      fails_to_encode r e runs json is_result h
  encoded-Reaches r runs json is_result (succeeded text) h =
      prints_json r text runs json is_result h

  show_run-Reaches :
      f.show_version ≡ false
      → (json : Bool) → f.as_json ≡ json
      → (e : Ended) → EndsWell lib world (client_config f) e
      → Reaches (show_run p json e)
  unfolding show_run failure success
  show_run-Reaches runs json is_json run_stuck h = elim h [ ]
  show_run-Reaches runs json is_json (aborted e) h = prints_error e runs h
  show_run-Reaches runs true is_json (finished r) h = encoded-Reaches r runs is_json h _ refl
  show_run-Reaches runs false is_json (finished r) h = prints_text r runs is_json h

-- `main` of the client ends in one of five ways: it shows the version; or, where the probe is not
-- discovered, the error alone with status 1; or, where the run has a result, the text report of that
-- result or its JSON with status 0, as the flag `-json` says, or the error of the encoder with
-- status 1.
pub client_main-Reaches :
    (p : Printers) (lib : Libraries) (world : ℕ → Meets) (f : ClientFlags)
    → Reaches p lib world f (client_main p lib world f)
unfolding client_main success
client_main-Reaches p lib world f = chosen f.show_version refl
  where
    chosen :
        (shown : Bool)
        → f.show_version ≡ shown
        → Reaches p lib world f (
            if shown
            then some (success ((utf8 "netsee " ++ p.version) ∷ []))
            else show_run p f.as_json (run lib world (client_config f)).0)
    chosen true shown = prints_version shown
    chosen false runs =
        show_run-Reaches p lib world f runs f.as_json refl _
          (run-EndsWell lib world (client_config f))
