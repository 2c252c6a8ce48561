-- ===== src/Portal/Sessions/Tokens.antt =====
-- packages/portal/portal/application/sessions.py: `OneTimeTokens`.
use docs_pe.Common.{
  ℕ, ◌+◌, ◌≡◌, ◌≤◌, ◌<◌, false, none, some, Text, sym, ◌∙◌, arith, text_eq_refl, is_empty,
}
use docs_pe.Portal.Ephemeral.{EphemeralStore, put_new, take, live_entry}
use docs_pe.Portal.Ephemeral.Reads.{read-put_new, read-take}
use docs_pe.Portal.Sessions.{Services, issue, consume, peek, token_key}

module _ (v : Services) where
  -- Peeking shows what `consume` gives, and after it nothing is left.
  pub consume-peek :
      (now later : ℕ) (purpose token : Text) (s : EphemeralStore)
      → now ≤ later
      → ((consume v now purpose token s).0 ≡ peek v now purpose token s)
        × ((consume v later purpose token (consume v now purpose token s).1).0 ≡ none)
        × (peek v later purpose token (consume v now purpose token s).1 ≡ none)
  unfolding consume peek
  consume-peek now later purpose token s h = ground (
    arith,
    read-take now later (token_key v purpose token) (token_key v purpose token) s,
    read-take later later (token_key v purpose token) (token_key v purpose token)
        (take now (token_key v purpose token) s).1,
    text_eq_refl (token_key v purpose token),
  )

  -- A token that is issued under a free key gives its payload until its time has run out, and
  -- nothing from then on.
  consume-issue :
      (now later ttl : ℕ) (purpose token payload : Text) (s : EphemeralStore)
      → is_empty token ≡ false
      → live_entry now (token_key v purpose token) s ≡ none
      → (later < now + ttl
          → (consume v later purpose token (issue v now purpose token payload ttl s)).0
            ≡ some payload)
        × (now + ttl ≤ later
            → (consume v later purpose token (issue v now purpose token payload ttl s)).0 ≡ none)
  unfolding consume issue
  consume-issue now later ttl purpose token payload s full free =
      let key = token_key v purpose token in
      let written = read-put_new now later key key payload ttl s in
      let taken = read-take later later key key (put_new now key payload ttl s).1 (omega arith) in
      (
        λ h. ground (arith, written, taken, text_eq_refl key),
        λ h. ground (arith, written, taken, text_eq_refl key),
      )

  -- A token that is issued under a free key and consumed within its time gives its payload, which
  -- peeking showed before; consumed after its time it gives nothing. Either way a later `consume` and
  -- a later `peek` give nothing.
  pub consume_once :
      (now at later ttl : ℕ) (purpose token payload : Text) (s : EphemeralStore)
      → is_empty token ≡ false
      → live_entry now (token_key v purpose token) s ≡ none
      → at ≤ later
      → (let issued = issue v now purpose token payload ttl s in
          (at < now + ttl
            → (peek v at purpose token issued ≡ some payload)
              × ((consume v at purpose token issued).0 ≡ some payload))
          × (now + ttl ≤ at → (consume v at purpose token issued).0 ≡ none)
          × ((consume v later purpose token (consume v at purpose token issued).1).0 ≡ none)
          × (peek v later purpose token (consume v at purpose token issued).1 ≡ none))
  consume_once now at later ttl purpose token payload s full free h =
      let issued = issue v now purpose token payload ttl s in
      let (shown, gone, unseen) = consume-peek at later purpose token issued h in
      let (inside, after) = consume-issue now at ttl purpose token payload s full free in
      (λ k. (sym shown ∙ inside k, inside k), after, gone, unseen)
