-- ===== src/Core/Osiptel/Ready.antt =====
-- packages/core/core/sites/osiptel/site.py: the wait for the page of the site.
use docs_pe.Common.{
  ℕ, Bool, true, false, ◌&&◌, ◌||◌, List, [], ◌∷◌, Text, text, ltb, ◌==◌, if◌then◌else◌,
}
use docs_pe.Common.Unicode.{Unicode}
use docs_pe.Core.Policy.{ban_signal, upstream_not_ready}
use docs_pe.Core.Osiptel.{Fetched, ok, err}

unfoldable pub starts_with : Text → Text → Bool
starts_with [] t = true
starts_with (c ∷ cs) [] = false
starts_with (c ∷ cs) (x ∷ xs) = c == x && starts_with cs xs

-- `needle in text`
unfoldable pub contains : Text → Text → Bool
unfolding starts_with
contains needle [] = starts_with needle []
contains needle (c ∷ cs) = starts_with needle (c ∷ cs) || contains needle cs

-- `_is_waf_block`
unfoldable pub is_waf_block : Unicode → Text → Bool
unfolding contains
is_waf_block u body =
    contains (text "the url you requested has been blocked") (u.lower body)
    || (contains (text "web page blocked") (u.lower body)
        || contains (text "attack id:") (u.lower body))

-- One try: no response (TransientTransportError or HTTPError), or a page.
pub data Try : Type 0 where
  no_response : Try
  shown : ℕ → Text → Try

abbrev pub is_home : ℕ → Text → Bool
is_home status body = status == 200 && contains (text "Checa tus l") body

-- The loop of `_ready` over the tries, each with the clock read before it; the list ends when the
-- deadline has passed.
unfoldable pub ready : Unicode → ℕ → List (ℕ × Try) → Fetched (Unit {0})
unfolding contains is_waf_block
ready u deadline [] = err upstream_not_ready
ready u deadline ((now, no_response) ∷ tries) =
    let rest = ready u deadline tries in if ltb now deadline then rest else err upstream_not_ready
ready u deadline ((now, shown status body) ∷ tries) =
    let rest = ready u deadline tries in
    if ltb now deadline
    then (if is_home status body
        then ok tt
        else if is_waf_block u body
        then err ban_signal
        else rest)
    else err upstream_not_ready
