-- ===== src/Core/Proxy/DataImpulse.antt =====
-- packages/core/core/proxy/dataimpulse.py: the provider whose lanes share one port.
use docs_pe.Common.{ℕ, true, List, [], ◌∷◌, ◌++◌, Text, text}
use docs_pe.Common.Unicode.{Unicode}
use docs_pe.Core.Proxy.{
  ProxySession, ℤ, whole, Texts, Configured, ok, ◌>>=◌, item, required, whole_number, country_code,
}
use docs_pe.Core.Proxy.Geonode.{int_of}

pub record DataImpulseConfig : Type 0 where
  pub user : Text
  pub password : Text
  pub country : Text
  pub sessttl : ℤ
  pub host : Text

module _ (u : Unicode) (s : Texts) where
  -- `_normalize`
  unfoldable pub normalize : List (Text × Text) → Configured (List (Text × Text))
  unfolding required country_code whole_number
  normalize raw = required u s raw (text "username") >>= λ username.
      required u s raw (text "password") >>= λ password.
      country_code u s raw (text "country") true >>= λ country.
      whole_number u s raw (text "session_minutes") 1 1440 >>= λ minutes. ok (
        (text "username", username)
        ∷ (text "password", password)
        ∷ (text "country", country)
        ∷ (text "session_minutes", s.str (whole minutes))
        ∷ [])

  -- `_build`
  unfoldable pub build : List (Text × Text) → Configured DataImpulseConfig
  build values = item values (text "username") >>= λ username.
      item values (text "password") >>= λ password. item values (text "country") >>= λ country.
      item values (text "session_minutes") >>= λ minutes. int_of (s.int minutes) >>= λ sessttl.
      ok (record {
        user = username;
        password = password;
        country = country;
        sessttl = sessttl;
        host = text "gw.dataimpulse.com";
      })

  -- `DataImpulseProvider.new_session`, with the first eight signs of `uuid4().hex`
  unfoldable pub new_session : DataImpulseConfig → Text → ℕ → ProxySession
  new_session config hex slot_id =
      let session_id = text "d" ++ (s.str (whole slot_id) ++ (text "_" ++ hex)) in
      record {
        proxy_id = text "dataimpulse-slot-" ++ s.str (whole slot_id);
        host = config.host;
        port = text "823";
        username =
            config.user
            ++ (text "__cr."
                ++ (config.country
                    ++ (text ";sessid."
                        ++ (session_id ++ (text ";sessttl." ++ s.str config.sessttl)))));
        password = config.password;
        session_id = session_id;
      }
