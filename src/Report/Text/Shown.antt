-- ===== src/Report/Text/Shown.antt =====
-- What the text shows of a report.
use mathlib.Core.List.{map}
use netsee.Client.Types.{Observation}
use netsee.Prelude.{All, In, List, [], get_elem?, some, ℕ, ◌++◌, ◌+◌, ◌∷◌, ◌≡◌}
use netsee.Prelude.Text.{Bytes, utf8}
use netsee.Report.Items.{NatItem, Report, Sheet}
use netsee.Report.Text.{fact_line, label_line, note_line, port_line, seen_line}

-- The lines hold the part without a break.
pub record Contains (part rows : List Bytes) : Type 0 where
  pub before : List Bytes
  pub after : List Bytes
  pub splits : rows ≡ before ++ (part ++ after)

-- What has to be in the text of a sheet.
pub record IsShown (s : Sheet) (rows : List Bytes) : Type 0 where
  pub highlights_shown : All (λ h. In (utf8 "    - " ++ h) rows) s.overview.highlights
  pub facts_first :
      (n : NatItem) → s.nat ≡ some n → Contains (map fact_line n.facts ++ (label_line n ∷ [])) rows
  pub seen :
      (i : ℕ) (o : Observation)
      → get_elem? s.observations i ≡ some o
      → In (seen_line (i + 1) o) rows
  pub checks : All (λ pc. In (port_line pc) rows) s.ports
  pub notes_shown : All (λ n. In (note_line n) rows) s.notes
