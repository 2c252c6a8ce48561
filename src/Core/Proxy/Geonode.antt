-- ===== src/Core/Proxy/Geonode.antt =====
-- packages/core/core/proxy/geonode.py: the provider with one sticky port for each lane.
use docs_pe.Common.{
  ℕ, ◌+◌, ◌-◌, Bool, true, false, not, ◌||◌, Option, none, some, List, [], ◌∷◌, ◌++◌, Text, text,
  ltb, if◌then◌else◌, is_empty, ◌==◌,
}
use docs_pe.Common.Dict.{lookup}
use docs_pe.Common.Eq.{text_eq_key}
use docs_pe.Common.Unicode.{Unicode}
use docs_pe.Core.Proxy.{
  ProxySession, ℤ, whole, below_zero, Texts, value_error, Configured, ok, err, ◌>>=◌, item, text_or,
  required, optional, one_of, whole_number, country_code, flag,
}

-- _GATEWAY_HOST_BY_NAME
abbrev pub gateways : List (Text × Text)
gateways =
    (text "fr", text "proxy.geonode.io")
    ∷ (text "fr_whitelist", text "prod-proxy.geonode.io")
    ∷ (text "us", text "us.proxy.geonode.io")
    ∷ (text "sg", text "sg.proxy.geonode.io")
    ∷ []

-- Its names, sorted.
abbrev pub gateway_names : List Text
gateway_names = text "fr" ∷ text "fr_whitelist" ∷ text "sg" ∷ text "us" ∷ []

abbrev pub proxy_types : List Text
proxy_types = text "residential" ∷ text "datacenter" ∷ text "mix" ∷ []

abbrev pub sticky_port_min : ℕ
sticky_port_min = 10000

abbrev pub sticky_port_max : ℕ
sticky_port_max = 10900

abbrev pub sticky_slot_count : ℕ
sticky_slot_count = sticky_port_max - sticky_port_min + 1

abbrev pub release_retries : ℕ
release_retries = 3

pub record GeoNodeConfig : Type 0 where
  pub user : Text
  pub password : Text
  pub host : Text
  pub proxy_type : Text
  pub country : Text
  pub state : Text
  pub city : Text
  pub asn : Text
  pub strict_off : Bool
  pub lifetime : ℤ

-- `slot_port`
unfoldable pub slot_port : ℕ → Configured ℕ
slot_port slot_id =
    if ltb slot_id 1 || ltb sticky_slot_count slot_id
    then err value_error
    else ok (sticky_port_min + slot_id - 1)

-- "-".join
unfoldable pub join_dashes : List Text → Text
join_dashes [] = []
join_dashes (t ∷ []) = t
join_dashes (t ∷ (x ∷ ts)) = t ++ (text "-" ++ join_dashes (x ∷ ts))

-- `int(text)`
abbrev pub int_of : Option ℤ → Configured ℤ
int_of none = err value_error
int_of (some i) = ok i

abbrev is_zero : ℤ → Bool
is_zero (whole n) = n == 0
is_zero (below_zero n) = false

abbrev option_chunk : Text → Text → List Text
option_chunk name value = if is_empty value then [] else name ∷ value ∷ []

module _ (u : Unicode) (s : Texts) where
  -- The normalized dictionary.
  abbrev pub settings :
      List (Text × Text) → Text → Text → Text → Text → Text → ℕ → List (Text × Text)
  settings raw username password gateway proxy_type country lifetime =
      (text "username", username)
      ∷ (text "password", password)
      ∷ (text "gateway", gateway)
      ∷ (text "proxy_type", proxy_type)
      ∷ (text "country", country)
      ∷ (text "state", optional u s raw (text "state"))
      ∷ (text "city", optional u s raw (text "city"))
      ∷ (text "asn", optional u s raw (text "asn"))
      ∷ (text "strict_off", flag u s raw (text "strict_off"))
      ∷ (text "lifetime_minutes", s.str (whole lifetime))
      ∷ []

  -- `_normalize`
  unfoldable pub normalize : List (Text × Text) → Configured (List (Text × Text))
  unfolding required one_of country_code whole_number optional flag
  normalize raw = required u s raw (text "username") >>= λ username.
      required u s raw (text "password") >>= λ password.
      one_of u s raw (text "gateway") gateway_names >>= λ gateway.
      one_of u s raw (text "proxy_type") proxy_types >>= λ proxy_type.
      country_code u s raw (text "country") false >>= λ country.
      whole_number u s raw (text "lifetime_minutes") 3 1440 >>= λ lifetime.
      ok (settings raw username password gateway proxy_type country lifetime)

  -- `_build`
  unfoldable pub build : List (Text × Text) → Configured GeoNodeConfig
  build values = item values (text "username") >>= λ username.
      item values (text "password") >>= λ password. item values (text "gateway") >>= λ gateway.
      item gateways gateway >>= λ host. item values (text "proxy_type") >>= λ proxy_type.
      item values (text "country") >>= λ country.
      item values (text "lifetime_minutes") >>= λ minutes. int_of (s.int minutes) >>= λ lifetime.
      ok (record {
        user = username;
        password = password;
        host = host;
        proxy_type = proxy_type;
        country = country;
        state = text_or [] (lookup (text "state") values);
        city = text_or [] (lookup (text "city") values);
        asn = text_or [] (lookup (text "asn") values);
        strict_off = not (is_empty (text_or [] (lookup (text "strict_off") values)));
        lifetime = lifetime;
      })

  -- `build_username`
  unfoldable pub build_username : GeoNodeConfig → Text → Text
  unfolding join_dashes
  build_username config session_id = join_dashes (
      (config.user ∷ text "session" ∷ session_id ∷ [])
      ++ (option_chunk (text "type") config.proxy_type
          ++ (option_chunk (text "country") config.country
              ++ (option_chunk (text "state") config.state
                  ++ (option_chunk (text "city") config.city
                      ++ (option_chunk (text "asn") config.asn
                          ++ ((if config.strict_off then text "strict" ∷ text "off" ∷ [] else [])
                              ++ (if is_zero config.lifetime
                                  then []
                                  else text "lifetime" ∷ s.str config.lifetime ∷ []))))))))

  -- The session of a slot with its port.
  abbrev pub session_on : GeoNodeConfig → Text → ℕ → ℕ → ProxySession
  session_on config hex slot_id port =
      let session_id = text "s" ++ (s.str (whole slot_id) ++ (text "_" ++ hex)) in
      record {
        proxy_id = text "proxy-1-port-" ++ s.str (whole port);
        host = config.host;
        port = s.str (whole port);
        username = build_username config session_id;
        password = config.password;
        session_id = session_id;
      }

  -- `GeoNodeProvider.new_session`, with the first eight signs of `uuid4().hex`
  unfoldable pub new_session : GeoNodeConfig → Text → ℕ → Configured ProxySession
  unfolding slot_port build_username
  new_session config hex slot_id =
      slot_port slot_id >>= λ port. ok (session_on config hex slot_id port)

-- What the API answers to one request for a release: whether it was done.
unfoldable pub release_from : ℕ → List Bool → ℕ × Bool
release_from tries [] = (tries, false)
release_from tries (true ∷ answers) = (tries + 1, true)
release_from tries (false ∷ answers) =
    let rest = release_from (tries + 1) answers in
    if ltb (tries + 1) release_retries then rest else (tries + 1, false)

-- `release`: the requests made, and whether one was answered well
unfoldable pub release : List Bool → ℕ × Bool
unfolding release_from
release answers = release_from 0 answers
