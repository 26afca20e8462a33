-- ===== src/Types.antt =====
-- src/common/types.h: the data that the components exchange.
use my_etcd.Base.{ℕ, Bytes, Option, []}

abbrev pub no_term : ℕ
no_term = 0

abbrev pub no_index : ℕ
no_index = 0

abbrev pub no_node_id : ℕ
no_node_id = 0

-- `unknown n` is an `EventType` that a cast from the byte n made, where no enumerator has that value.
pub data EventType : Type 0 where
  put delete conf_change : EventType
  unknown : ℕ → EventType

pub data ConfChangeType : Type 0 where
  add_node remove_node : ConfChangeType
  unknown : ℕ → ConfChangeType

pub record ConfChange : Type 0 where
  pub type : ConfChangeType
  pub node_id : ℕ
  pub peer_addr : Bytes

abbrev pub default_conf_change : ConfChange
default_conf_change = record {
  type = ConfChangeType.add_node;
  node_id = no_node_id;
  peer_addr = [];
}

pub data NodeState : Type 0 where
  follower candidate leader : NodeState

pub record RaftEntry : Type 0 where
  pub term : ℕ
  pub index : ℕ
  pub type : EventType
  pub key : Bytes
  pub value : Bytes
  pub lease_id : ℕ
  pub conf_change : ConfChange

abbrev pub default_entry : RaftEntry
default_entry = record {
  term = no_term;
  index = no_index;
  type = EventType.put;
  key = [];
  value = [];
  lease_id = 0;
  conf_change = default_conf_change;
}

pub record Snapshot : Type 0 where
  pub last_index : ℕ
  pub last_term : ℕ
  pub content : Bytes

pub record RaftHardState : Type 0 where
  pub current_term : ℕ
  pub voted_for : Option ℕ
  pub commit_index : ℕ

pub record KeyValue : Type 0 where
  pub key : Bytes
  pub value : Bytes
  pub create_revision : ℕ
  pub mod_revision : ℕ
  pub version : ℕ
  pub lease_id : ℕ

abbrev pub default_key_value : KeyValue
default_key_value = record {
  key = [];
  value = [];
  create_revision = 0;
  mod_revision = 0;
  version = 0;
  lease_id = 0;
}

pub record WatchEvent : Type 0 where
  pub type : EventType
  pub kv : KeyValue
  pub prev_kv : KeyValue
