-- ===== src/Core/Types.antt =====
-- packages/core/core/domain/types.py: the values that the lookups pass around. A cell that is a
-- number is one of the counts, so it is not negative.
use docs_pe.Common.{ℕ, Bool, List, Text, Text}
use docs_pe.Core.Doc.{Doc}

pub data Status : Type 0 where
  ok failed not_found : Status

pub data Cell : Type 0 where
  word : Text → Cell
  number : ℕ → Cell

abbrev pub Row : Type 0
Row = List Cell

pub record AttemptOutcome : Type 0 where
  pub attempt : ℕ
  pub status : Status
  pub elapsed_ms : ℕ
  pub error_code : Text

pub record Result : Type 0 where
  pub doc : Doc
  pub site : Text
  pub status : Status
  pub rows : List Row
  pub error_code : Text
  pub error_detail : Text
  pub made_healthy_contact : Bool
  pub http_session_id : Text
  pub proxy_id : Text
  pub provider : Text
  pub attempt : ℕ
  pub attempts : List AttemptOutcome

pub record RunTotals : Type 0 where
  pub processed : ℕ
  pub succeeded : ℕ
  pub not_found : ℕ
  pub failed : ℕ
