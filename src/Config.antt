-- ===== src/Config.antt =====
-- ksmppc/src/bind_type.hpp, util.cpp and smpp_session_config.hpp: the configuration of a session.
-- The property tree that `CFG->get` reads belongs to kisscpp; it is a record of lookups.
pub mod Loads
use kiss_smpp.Common.{ℕ, Option, none, some, ◌==◌, if◌then◌else◌}
use Prim.Native.String.{String}
use text.Mathlib.Text.{◌==◌ as str_eq}

pub data BindType : Type 0 where
  tx rx trx : BindType

-- makeInterfaceVersion
unfoldable pub make_interface_version : ℕ → ℕ
make_interface_version i =
    if i == 33 then 0x33 else if i == 34 then 0x34 else if i == 50 then 0x50 else 0x34

-- makeBindType; `none` where the function runs off its end with no `return`.
unfoldable pub make_bind_type : String → Option BindType
make_bind_type s =
    if str_eq s "RX"
    then some rx
    else if str_eq s "TX"
    then some tx
    else if str_eq s "TRX"
    then some trx
    else none

pub record Config : Type 0 where
  pub system_id : String
  pub password : String
  pub system_type : String
  pub interface_version : ℕ
  pub addr_ton : ℕ
  pub addr_npi : ℕ
  pub address_range : String
  pub enquire_link_timeout : ℕ
  pub enquire_link_resp_timeout : ℕ
  pub tx_throttle_limit : ℕ
  pub type_of_bind : BindType

-- `CFG->get<T>(key)`: `none` where it throws, for a key that is missing or does not convert.
pub record Settings : Type 0 where
  pub get_string : String → Option String
  pub get_unsigned : String → Option ℕ
  pub get_uint8 : String → Option ℕ
  -- `get<int>(key, default)` gives the default in place of an error.
  pub get_int_or : String → ℕ → ℕ

-- What the constructor ends in: a configuration, an exception of a lookup, or no value of `bind-
-- type`.
pub data Loaded : Type 0 where
  loaded : Config → Loaded
  bad_setting : Loaded
  undefined_bind : Loaded

infixl 5 ◌>>=◌
abbrev ◌>>=◌ {ℓ} : {A : Type ℓ} → Option A → (A → Loaded) → Loaded
none >>= f = bad_setting
some a >>= f = f a

abbrev with_bind : Option BindType → (BindType → Config) → Loaded
with_bind none f = undefined_bind
with_bind (some b) f = loaded (f b)

-- SmppSessionConfiguration::SmppSessionConfiguration
unfoldable pub session_config : Settings → Loaded
session_config cfg = do
  link ← cfg.get_unsigned "smpp-session.enquire-link-period"
  link_resp ← cfg.get_unsigned "smpp-session.enquire-link-response-timeout"
  id ← cfg.get_string "smpp-session.system-id"
  pass ← cfg.get_string "smpp-session.password"
  kind ← cfg.get_string "smpp-session.system-type"
  let version = make_interface_version (cfg.get_int_or "smpp-session.interface-version" 34)
  ton ← cfg.get_uint8 "smpp-session.default-type-of-number"
  npi ← cfg.get_uint8 "smpp-session.default-number-plan-indicator"
  range ← cfg.get_string "smpp-session.address-range"
  limit ← cfg.get_unsigned "smpp-session.tx-throttle-limit"
  bind ← cfg.get_string "smpp-session.bind-type"
  with_bind (make_bind_type bind) λ b. record {
    system_id = id;
    password = pass;
    system_type = kind;
    interface_version = version;
    addr_ton = ton;
    addr_npi = npi;
    address_range = range;
    enquire_link_timeout = link;
    enquire_link_resp_timeout = link_resp;
    tx_throttle_limit = limit;
    type_of_bind = b;
  }
