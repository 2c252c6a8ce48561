-- ===== src/Portal/Tests/Plans.antt =====
-- packages/portal: the theorem on the plan of a submission at a concrete input.
use docs_pe.Common.{true, List, [], ◌∷◌, Text, text}
use docs_pe.Portal.Planning.{InputLine, plan_submission}
use docs_pe.Portal.Planning.Pairs.{IsSubmitted, plan_submission-IsSubmitted}
use docs_pe.Portal.Tests.{ascii}

abbrev osiptel : List Text
osiptel = text "osiptel" ∷ []

abbrev lines : List InputLine
lines =
    record { ordinal = 1; value = text "1234567" }
    ∷ record { ordinal = 2; value = text "abc" }
    ∷ record { ordinal = 3; value = text "01234567" }
    ∷ []

plan_submission-IsSubmitted_example :
    IsSubmitted osiptel osiptel lines
      (plan_submission ascii (λ source doc. true) osiptel lines osiptel)
plan_submission-IsSubmitted_example =
    plan_submission-IsSubmitted ascii (λ source doc. true) osiptel lines osiptel
