-- ===== src/Core/Proxy/Ports.antt =====
-- packages/core/core/proxy/geonode.py: normalized settings make a provider whose slots have ports of
-- their own.
use docs_pe.Common.{
  ℕ, ◌+◌, ◌-◌, ◌≤◌, ◌<◌, ◌≡◌, refl, sym, ap, ◌∙◌, true, false, not, ◌&&◌, Option, none, some, List,
  Text, text, ltb, leb, if◌then◌else◌, is_empty, arith, Bool-cases, inl, inr, text_eq, text_eq_iff,
  any,
}
use docs_pe.Common.Dict.{lookup}
use docs_pe.Common.Eq.{text_eq_key}
use docs_pe.Common.Unicode.{Unicode}
use docs_pe.Core.Proxy.{
  ProxySession, ℤ, whole, below_zero, Texts, value_error, Configured, ok, err, ◌>>=◌, item,
  required, one_of, whole_number, country_code, optional, flag, within,
}
use docs_pe.Core.Proxy.Geonode.{
  GeoNodeConfig, session_on, settings, normalize, build, new_session, slot_port, gateways,
  gateway_names, proxy_types,
}

-- What a chain that ends well went through first.
went_through :
    {A B : Type 0} (first_step : Configured A) (rest : A → Configured B) {end : B}
    → (first_step >>= rest) ≡ ok end
    → (mid : A) × (rest mid ≡ ok end) × (first_step ≡ ok mid)
went_through (err fault) rest h = cc
went_through (ok mid) rest h = (mid, h, refl)

within-bounds : (lo hi n : ℕ) (i : Option ℤ) → within lo hi i ≡ ok n → (lo ≤ n) × (n ≤ hi)
within-bounds lo hi n none h = cc
within-bounds lo hi n (some (below_zero m)) h = cc
within-bounds lo hi n (some (whole m)) h = ground (arith, h)

not_known :
    (g : Text)
    → text_eq g (text "fr") ≡ false
    → text_eq g (text "fr_whitelist") ≡ false
    → text_eq g (text "sg") ≡ false
    → text_eq g (text "us") ≡ false
    → any (λ choice. text_eq g choice) gateway_names ≡ true
    → ⊥
not_known g a b c d h = ground (arith, a, b, c, d, h)

gateway_known :
    (g : Text)
    → any (λ choice. text_eq g choice) gateway_names ≡ true
    → (host : Text) × (item gateways g ≡ ok host)
unfolding lookup text_eq
gateway_known g h = elim (Bool-cases (text_eq g (text "fr"))) [
  | inl e ↦ (text "proxy.geonode.io", rw ((text_eq_iff g (text "fr")).0 e) refl)
  | inr a ↦ elim (Bool-cases (text_eq g (text "fr_whitelist"))) [
    | inl e ↦ (text "prod-proxy.geonode.io", rw ((text_eq_iff g (text "fr_whitelist")).0 e) refl)
    | inr b ↦ elim (Bool-cases (text_eq g (text "sg"))) [
      | inl e ↦ (text "sg.proxy.geonode.io", rw ((text_eq_iff g (text "sg")).0 e) refl)
      | inr c ↦ elim (Bool-cases (text_eq g (text "us"))) [
        | inl e ↦ (text "us.proxy.geonode.io", rw ((text_eq_iff g (text "us")).0 e) refl)
        | inr d ↦ absurd (not_known g a b c d h)
      ]
    ]
  ]
]

slot_port_lem :
    (slot_id : ℕ)
    → slot_port slot_id
      ≡ (if ltb 0 slot_id && leb slot_id 901 then ok (9999 + slot_id) else err value_error)
unfolding slot_port
slot_port_lem slot_id =
    let e : 0 < slot_id → 10000 + slot_id - 1 ≡ 9999 + slot_id = λ h. omega (arith, h) in
    ground (arith, e)

one_of-chosen :
    (u : Unicode) (s : Texts) (raw : List (Text × Text)) (name value : Text) (choices : List Text)
    → one_of u s raw name choices ≡ ok value
    → any (λ choice. text_eq value choice) choices ≡ true
unfolding one_of
one_of-chosen u s raw name value choices h =
    let (v, b, a) = went_through (required u s raw name) _ h in ground (arith, b)

module _ (u : Unicode) (s : Texts) where
  -- The text of a port names the port.
  str-injective : (m n : ℕ) → s.str (whole m) ≡ s.str (whole n) → m ≡ n
  str-injective m n h =
      let e : some (whole m) ≡ some (whole n) =
        sym (s.int-str (whole m)) ∙ ap s.int h ∙ s.int-str (whole n) in
      cc

  -- A provider of normalized settings, in what its sessions rest on.
  pub record IsUsable (config : GeoNodeConfig) : Type 0 where
    pub minutes : ℕ
    pub lifetime : config.lifetime ≡ whole minutes
    pub bounds : (3 ≤ minutes) × (minutes ≤ 1440)
    pub typed : any (λ t. text_eq config.proxy_type t) proxy_types ≡ true

  ok-injective : {A : Type 0} {a b : A} → Configured.ok a ≡ Configured.ok b → a ≡ b
  ok-injective h = cc

  build-settings :
      (raw : List (Text × Text)) (username password gateway proxy_type country host : Text)
      (minutes : ℕ)
      → item gateways gateway ≡ ok host
      → (config : GeoNodeConfig) × (build u s
            (settings u s raw username password gateway proxy_type country minutes)
          ≡ ok config)
        × (config.lifetime ≡ whole minutes)
        × (config.proxy_type ≡ proxy_type)
  unfolding build lookup text_eq
  build-settings raw username password gateway proxy_type country host minutes h =
      let config : GeoNodeConfig = record {
        user = username;
        password = password;
        host = host;
        proxy_type = proxy_type;
        country = country;
        state = optional u s raw (text "state");
        city = optional u s raw (text "city");
        asn = optional u s raw (text "asn");
        strict_off = not (is_empty (flag u s raw (text "strict_off")));
        lifetime = whole minutes;
      } in
      (config, rw h (rw (s.int-str (whole minutes)) refl), refl, refl)

  whole_number-bounds :
      (raw : List (Text × Text)) (name : Text) (lo hi n : ℕ)
      → whole_number u s raw name lo hi ≡ ok n
      → (lo ≤ n) × (n ≤ hi)
  unfolding whole_number
  whole_number-bounds raw name lo hi n h =
      let (t, b, a) = went_through (required u s raw name) _ h in within-bounds lo hi n (s.int t) b

  settings-IsUsable :
      (raw values : List (Text × Text)) (username password gateway proxy_type country : Text)
      (minutes : ℕ)
      → any (λ choice. text_eq gateway choice) gateway_names ≡ true
      → any (λ choice. text_eq proxy_type choice) proxy_types ≡ true
      → (3 ≤ minutes) × (minutes ≤ 1440)
      → ok (settings u s raw username password gateway proxy_type country minutes) ≡ ok values
      → (config : GeoNodeConfig) × (build u s values ≡ ok config) × IsUsable config
  settings-IsUsable raw values username password gateway proxy_type country minutes g t b e =
      let (host, known) = gateway_known gateway g in
      let (config, built, lasts, typed) =
        build-settings raw username password gateway proxy_type country host minutes known in
      (
        config,
        ap (λ vs. build u s vs) (sym (ok-injective e)) ∙ built,
        record { minutes = minutes; lifetime = lasts; bounds = b; typed = rw typed t },
      )

  pub normalize-IsUsable :
      (raw values : List (Text × Text))
      → normalize u s raw ≡ ok values
      → (config : GeoNodeConfig) × (build u s values ≡ ok config) × IsUsable config
  unfolding normalize
  normalize-IsUsable raw values h =
      let (username, k1, h1) = went_through (required u s raw (text "username")) _ h in
      let (password, k2, h2) = went_through (required u s raw (text "password")) _ k1 in
      let (gateway, k3, h3) = went_through (one_of u s raw (text "gateway") gateway_names) _ k2 in
      let (proxy_type, k4, h4) =
        went_through (one_of u s raw (text "proxy_type") proxy_types) _ k3 in
      let (country, k5, h5) = went_through (country_code u s raw (text "country") false) _ k4 in
      let (minutes, k6, h6) =
        went_through (whole_number u s raw (text "lifetime_minutes") 3 1440) _ k5 in
      settings-IsUsable raw values username password gateway proxy_type country minutes
        (one_of-chosen u s raw (text "gateway") gateway gateway_names h3)
        (one_of-chosen u s raw (text "proxy_type") proxy_type proxy_types h4)
        (whole_number-bounds raw (text "lifetime_minutes") 3 1440 minutes h6) k6

  new_session-port :
      (config : GeoNodeConfig) (hex : Text) (i : ℕ) (p : ProxySession)
      → new_session u s config hex i ≡ ok p
      → p.port ≡ s.str (whole (9999 + i))
  unfolding new_session
  new_session-port config hex i p h =
      let (port, b, a) = went_through (slot_port i) _ h in
      let place : port ≡ 9999 + i = ground (arith, a, slot_port_lem i) in
      ap (λ q. q.port) (sym (ok-injective b)) ∙ ap (λ n. s.str (whole n)) place

  new_session-within :
      (config : GeoNodeConfig) (hex : Text) (i : ℕ)
      → 1 ≤ i
      → i ≤ 901
      → new_session u s config hex i ≡ ok (session_on u s config hex i (9999 + i))
  unfolding new_session
  new_session-within config hex i a b =
      let e : slot_port i ≡ ok (9999 + i) = ground (arith, slot_port_lem i) in rw e refl

  new_session-beyond :
      (config : GeoNodeConfig) (hex : Text) (i : ℕ)
      → 901 < i
      → new_session u s config hex i ≡ err value_error
  unfolding new_session
  new_session-beyond config hex i a =
      let e : slot_port i ≡ err value_error = ground (arith, slot_port_lem i) in rw e refl

  -- Settings that `_normalize` accepts make a provider, with a lifetime of 3 to 1440 minutes; each slot
  -- from 1 to 901 has a port that no other slot has, from 10000 on, and a slot above 901 is refused.
  pub new_session_ports :
      (raw values : List (Text × Text))
      → normalize u s raw ≡ ok values
      → (config : GeoNodeConfig) × (build u s values ≡ ok config)
        × IsUsable config
        × ((hex : Text) (i : ℕ)
            → 1 ≤ i
            → i ≤ 901
            → (p : ProxySession) × (new_session u s config hex i ≡ ok p)
              × (p.port ≡ s.str (whole (9999 + i)))
              × ((hex' : Text) (j : ℕ) (q : ProxySession)
                  → new_session u s config hex' j ≡ ok q
                  → q.port ≡ p.port
                  → j ≡ i))
        × ((hex : Text) (i : ℕ) → 901 < i → new_session u s config hex i ≡ err value_error)
  new_session_ports raw values h =
      let (config, built, usable) = normalize-IsUsable raw values h in
      (
        config,
        built,
        usable,
        λ hex i a b. (
          session_on u s config hex i (9999 + i),
          new_session-within config hex i a b,
          refl,
          λ hex' j q k e.
              let same : 9999 + j ≡ 9999 + i =
                str-injective (9999 + j) (9999 + i)
                  (sym (new_session-port config hex' j q k) ∙ e) in
              omega (arith, same),
        ),
        λ hex i a. new_session-beyond config hex i a,
      )
