-- ===== src/Fedroute/Messages.antt =====
-- Federation messages (src/fedroute.rs, "Wire format"): their types and constants. An f64 is its
-- 64 bits.
pub mod Build
pub mod Parse
pub mod RoundTrip
pub mod Sound
pub mod Paths
use brew_server.Common.{
  ℕ, zero, suc, ◌+◌, ◌-◌, ◌*◌, ◌/◌, ◌%◌, ◌^◌, Bool, true, false, not, ◌&&◌, ◌||◌, Option, none,
  some, List, [], ◌∷◌, ◌++◌, if◌then◌else◌, ltb, leb, nat_beq, min, Text, Result, ok, err, ◌>>=◌,
  ◌>>◌, refuse_if, ok_or, length, get_elem?, get_or, take, drop, contains, nat_eq, to_le, le_at,
  words, word_bytes,
}
use brew_server.State.{Advert, CallId}
use brew_server.Protocol.{class_federation}

abbrev pub fed_withdraw : ℕ
fed_withdraw = 0

abbrev pub fed_route : ℕ
fed_route = 1

abbrev pub fed_prune : ℕ
fed_prune = 2

abbrev pub fed_bts_hello : ℕ
fed_bts_hello = 3

abbrev pub fed_bts : ℕ
fed_bts = 4

abbrev pub fed_ms_pos : ℕ
fed_ms_pos = 5

abbrev pub fed_emergency : ℕ
fed_emergency = 6

abbrev pub hello_version : ℕ
hello_version = 3

abbrev pub max_path : ℕ
max_path = 16

abbrev pub max_bts_text : ℕ
max_bts_text = 64

pub record BtsAdvert : Type 0 where
  pub key : Text
  pub name : Text
  pub lat : ℕ
  pub lon : ℕ
  pub online : Bool
  pub seq : ℕ
  pub path : List ℕ

pub record MsAdvert : Type 0 where
  pub issi : ℕ
  pub lat : ℕ
  pub lon : ℕ
  pub at_ms : ℕ
  pub station : Text
  pub path : List ℕ

pub record EmAdvert : Type 0 where
  pub issi : ℕ
  pub dest : Option ℕ
  pub bts : Text
  pub active : Bool
  pub seq : ℕ
  pub path : List ℕ

pub data FedMessage : Type 0 where
  withdraw : ℕ → FedMessage
  route : ℕ → Advert → FedMessage
  prune : CallId → ℕ → FedMessage
  bts_hello : ℕ → FedMessage
  bts : BtsAdvert → FedMessage
  ms_pos : MsAdvert → FedMessage
  emergency : EmAdvert → FedMessage
  unknown : ℕ → FedMessage

pub data FedError : Type 0 where
  too_short wrong_length path_length not_from_sender crosses_twice not_utf8 text_too_long : FedError
