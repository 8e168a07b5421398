-- ===== src/Tests/Fixture.antt =====
-- A platform that can be computed with: the queue is three lists, sleeps are exact, and the PDU
-- library has the identifiers of the protocol.
use kiss_smpp.Common.{ℕ, ◌≡◌, refl, false, Option, none, some, [], ◌∷◌, arith, true}
use kiss_smpp.Smpp.{CommandId, Pdu, RawPdu, runtime_error, opaque, throws, submit_sm}
use kiss_smpp.Smpp.Standard.{standard, standard_create}
use kiss_smpp.Config.{Config, trx}
use kiss_smpp.TransmitQueue.{Items, no_items, push_items, pop_items, clear_items, Queue}
use kiss_smpp.Session.{bound_trx, Platform, Session}

-- The object goes back to the front of the messages.
abbrev pub put_back : Items → Option Pdu → Items × Option Pdu
put_back i none = (i, none)
put_back i (some x) = (record i { messages = some x ∷ i.messages }, none)

pub put_back_full : (i : Items) (x : Pdu) → no_items (put_back i (some x)).0 ≡ false
put_back_full i x = ground arith

abbrev pub list_queue : Queue Items
list_queue = record {
  items = λ i. i;
  is_empty = no_items;
  push = push_items;
  pop = pop_items;
  clear = clear_items;
  push_back_last_pop = put_back;
  is_empty_items = λ q. refl;
  items_push = λ q x p. refl;
  pop_object = λ q. refl;
  items_pop = λ q. refl;
  items_clear = λ q p. refl;
  is_empty_push_back = put_back_full;
}

abbrev pub no_pdus : Items
no_pdus = record { sessions = []; responses = []; messages = [] }

abbrev pub lists : Platform Items
lists = record {
  smpp = standard;
  queue = list_queue;
  open_queue = λ name. no_pdus;
  resolves = λ host port. true;
  elapsed = λ d. d;
  le_elapsed = λ d. omega arith;
}

-- The same with a library whose constructors from bytes always throw.
abbrev pub throwing : Platform Items
throwing = record {
  smpp = record standard { decode = λ c raw. throws runtime_error };
  queue = list_queue;
  open_queue = λ name. no_pdus;
  resolves = λ host port. true;
  elapsed = λ d. d;
  le_elapsed = λ d. omega arith;
}

abbrev pub config : Config
config = record {
  system_id = "smppclient1";
  password = "password";
  system_type = "ESME";
  interface_version = 0x34;
  addr_ton = 0;
  addr_npi = 1;
  address_range = "^[1234567890]";
  enquire_link_timeout = 30;
  enquire_link_resp_timeout = 30;
  tx_throttle_limit = 20;
  type_of_bind = trx;
}

-- A transceiver with nothing to write, after five numbers.
abbrev pub bound : Session Items
bound = record {
  config = config;
  stop_flag = false;
  reconnect_flag = false;
  rx_q = [];
  tx_q = no_pdus;
  last_pop = none;
  current_state = bound_trx;
  seq_num_gen = 6;
  throttle_next_send_time = 0;
  time_between_sends = 50000;
  w4r_q = [];
  read_count = 0;
  write_count = 0;
  start_time = 0;
  enquire_link_timer = some 30;
  enquire_link_response_timer = none;
  ageing_timer = some 30;
  clock = 100000000;
  tasks = [];
  sent = [];
}

-- A submit_sm with the number `n`.
abbrev pub submit : ℕ → Pdu
submit n = record (standard_create submit_sm) { sequence_number = n }

-- The header of a PDU with no body, of the command `c` with the number `n`.
abbrev pub raw_pdu : CommandId → ℕ → RawPdu
raw_pdu c n = record {
  cmd_length = 16;
  cmd_id = standard.code c;
  cmd_status = 0;
  seq_num = n;
  bytes = [];
}

-- What the test decoder makes of it.
abbrev pub parsed : CommandId → ℕ → Pdu
parsed c n = record {
  command_id = standard.code c;
  command_status = 0;
  sequence_number = n;
  body = opaque;
}
