-- ===== src/Config/Loads.antt =====
-- When the configuration of a session can be read, and what it then is.
use kiss_smpp.Common.{◌≡◌, refl, subst, ap, ◌∙◌, Option, none, some, ◌↔◌, arith, ℕ, ◌≢◌, ◌⊎◌}
use kiss_smpp.Config.{
  BindType, tx, rx, trx, Config, Settings, Loaded, loaded, ◌>>=◌, with_bind, make_bind_type,
  make_interface_version, session_config,
}
use Prim.Native.String.{String}
use text.Mathlib.TextEquality.{eq_iff}

-- How a type of bind is written.
abbrev pub name_of : BindType → String
name_of rx = "RX"
name_of tx = "TX"
name_of trx = "TRX"

pub make_bind_type-name_of : (b : BindType) → make_bind_type (name_of b) ≡ some b
unfolding make_bind_type
make_bind_type-name_of rx = refl
make_bind_type-name_of tx = refl
make_bind_type-name_of trx = refl

named : (s : String) (b : BindType) → make_bind_type s ≡ some b → s ≡ name_of b
unfolding make_bind_type
named s rx h = ground (arith, eq_iff s "RX", eq_iff s "TX", eq_iff s "TRX")
named s b h = ground (arith, eq_iff s "RX", eq_iff s "TX", eq_iff s "TRX")

-- makeBindType reads back the three names and no other.
make_bind_type_iff : (s : String) (b : BindType) → (make_bind_type s ≡ some b) ↔ (s ≡ name_of b)
make_bind_type_iff s b = (named s b, λ e. ap make_bind_type e ∙ make_bind_type-name_of b)

-- How a version of the interface is written: 33 and 50 stand for their octets, and any other number
-- stands for 3.4.
abbrev pub HasVersion : ℕ → ℕ → Type 0
HasVersion n v =
    ((n ≡ 33) × (v ≡ 0x33)) ⊎ ((n ≡ 50) × (v ≡ 0x50)) ⊎ ((n ≢ 33) × (n ≢ 50) × (v ≡ 0x34))

make_interface_version_iff : (n v : ℕ) → (make_interface_version n ≡ v) ↔ HasVersion n v
unfolding make_interface_version
make_interface_version_iff n v = (λ e. ground arith, λ h. ground arith)

-- Every lookup gives the member of the configuration.
pub record Reads (cfg : Settings) (c : Config) : Type 0 where
  pub link : cfg.get_unsigned "smpp-session.enquire-link-period" ≡ some c.enquire_link_timeout
  pub link_resp :
      cfg.get_unsigned "smpp-session.enquire-link-response-timeout"
      ≡ some c.enquire_link_resp_timeout
  pub id : cfg.get_string "smpp-session.system-id" ≡ some c.system_id
  pub pass : cfg.get_string "smpp-session.password" ≡ some c.password
  pub kind : cfg.get_string "smpp-session.system-type" ≡ some c.system_type
  pub version : HasVersion (cfg.get_int_or "smpp-session.interface-version" 34) c.interface_version
  pub ton : cfg.get_uint8 "smpp-session.default-type-of-number" ≡ some c.addr_ton
  pub npi : cfg.get_uint8 "smpp-session.default-number-plan-indicator" ≡ some c.addr_npi
  pub range : cfg.get_string "smpp-session.address-range" ≡ some c.address_range
  pub limit : cfg.get_unsigned "smpp-session.tx-throttle-limit" ≡ some c.tx_throttle_limit
  pub bind : cfg.get_string "smpp-session.bind-type" ≡ some (name_of c.type_of_bind)

>>=-loaded {ℓ} :
    {A : Type ℓ} (o : Option A) (f : A → Loaded) {c : Config}
    → (o >>= f) ≡ loaded c
    → (a : A) × (o ≡ some a) × (f a ≡ loaded c)
>>=-loaded none f h = cc
>>=-loaded (some a) f h = (a, refl, h)

with_bind-loaded :
    (o : Option BindType) (f : BindType → Config) {c : Config}
    → with_bind o f ≡ loaded c
    → (b : BindType) × (o ≡ some b) × (f b ≡ c)
with_bind-loaded none f h = cc
with_bind-loaded (some b) f h = (b, refl, cc)

session_config-Reads : (cfg : Settings) (c : Config) → session_config cfg ≡ loaded c → Reads cfg c
unfolding session_config
session_config-Reads cfg c h =
    let (link, e1, h1) = >>=-loaded _ _ h in
    let (link_resp, e2, h2) = >>=-loaded _ _ h1 in
    let (id, e3, h3) = >>=-loaded _ _ h2 in
    let (pass, e4, h4) = >>=-loaded _ _ h3 in
    let (kind, e5, h5) = >>=-loaded _ _ h4 in
    let (ton, e6, h6) = >>=-loaded _ _ h5 in
    let (npi, e7, h7) = >>=-loaded _ _ h6 in
    let (range, e8, h8) = >>=-loaded _ _ h7 in
    let (limit, e9, h9) = >>=-loaded _ _ h8 in
    let (bind, e10, h10) = >>=-loaded _ _ h9 in
    let (b, e11, same) = with_bind-loaded (make_bind_type bind) _ h10 in
    subst (Reads cfg) same (record {
      link = e1;
      link_resp = e2;
      id = e3;
      pass = e4;
      kind = e5;
      version = (make_interface_version_iff _ _).0 refl;
      ton = e6;
      npi = e7;
      range = e8;
      limit = e9;
      bind = e10 ∙ ap some ((make_bind_type_iff bind b).0 e11);
    })

Reads-session_config : (cfg : Settings) (c : Config) → Reads cfg c → session_config cfg ≡ loaded c
unfolding session_config
Reads-session_config cfg c r = rw r.link (
    rw r.link_resp (
      rw r.id (
        rw r.pass (
          rw r.kind (
            rw r.ton (
              rw r.npi (
                rw r.range (
                  rw r.limit (
                    rw r.bind (
                      rw ((make_bind_type_iff (name_of c.type_of_bind) c.type_of_bind).1 refl)
                        (rw ((make_interface_version_iff _ _).1 r.version) refl)))))))))))

-- The configuration is read, and is `c`, exactly if every lookup gives its member of `c`, the
-- version of the interface as it is written and the bind type by its name. In all other
-- cases a lookup throws, or makeBindType has no value to return.
pub session_config_iff :
    (cfg : Settings) (c : Config) → (session_config cfg ≡ loaded c) ↔ Reads cfg c
session_config_iff cfg c = (session_config-Reads cfg c, Reads-session_config cfg c)
