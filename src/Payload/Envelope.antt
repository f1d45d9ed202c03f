-- ===== src/Payload/Envelope.antt =====
-- BuildEnvelope, and the two functions that it replaced, MetaData and AppendLabelMap.
pub mod Members
use mdt_dialout_collector.Common.{
  ℕ, ◌+◌, not, Option, none, some, List, [], ◌∷◌, get_elem?, if◌then◌else◌, Partial, done, bind,
  found_or, out_of_range,
}
use mdt_dialout_collector.Common.Number.{ℤ, pos, u16, u64, stoi}
use mdt_dialout_collector.Common.Text.{Bytes, codes, is_empty}
use mdt_dialout_collector.Json.{Jsoncpp, read_json, or_text}
use mdt_dialout_collector.Json.Assign.{assign}
use mdt_dialout_collector.Labels.{LabelMap, find_label}

module _ (J : Jsoncpp) where
  -- the value of "label": `search->second.at(0)` and `.at(1)`, or unknown
  unfoldable pub label_value : Option (List Bytes) → Partial J.Value
  label_value none = done (
      assign J
        ((codes "node_id", J.of_string (codes "unknown"))
          ∷ (codes "platform_id", J.of_string (codes "unknown"))
          ∷ [])
        J.null)
  label_value (some labels) = bind (found_or out_of_range (get_elem? labels 0)) λ nkey.
      bind (found_or out_of_range (get_elem? labels 1)) λ pkey.
        done (
          assign J ((codes "nkey", J.of_string nkey) ∷ (codes "pkey", J.of_string pkey) ∷ [])
            J.null)

  -- a body that is JSON is nested, any other is a text; nothing catches the exception of the reader
  abbrev pub telemetry_value : Bytes → Partial J.Value
  telemetry_value body = bind (read_json J body) λ read. done (or_text J body read)

  -- the members that every envelope has
  abbrev pub envelope_base : J.Value → Bytes → ℤ → Bytes → ℕ → ℕ → List (Bytes × J.Value)
  envelope_base telemetry peer_ip port writer_id now seq =
      (codes "event_type", J.of_string (codes "gRPC"))
      ∷ (codes "serialization", J.of_string (codes "json_string"))
      ∷ (codes "seq", J.of_uint seq)
      ∷ (codes "timestamp", J.of_int (pos now))
      ∷ (codes "writer_id", J.of_string writer_id)
      ∷ (codes "telemetry_node", J.of_string peer_ip)
      ∷ (codes "telemetry_port", J.of_uint (u16 port))
      ∷ (codes "telemetry_data", telemetry)
      ∷ []

  -- `label_map` is none for the null pointer
  abbrev pub add_label : Option LabelMap → Bytes → J.Value → Partial J.Value
  add_label none peer_ip root = done root
  add_label (some label_map) peer_ip root =
      bind (label_value (find_label peer_ip label_map)) λ l. done (J.set root (codes "label") l)

  -- BuildEnvelope, with the text and the new sequence number; `now` is `std::time(nullptr)`
  unfoldable pub build_envelope :
      Bytes → Bytes → Bytes → Option LabelMap → Bytes → ℕ → ℕ → Partial (Bytes × ℕ)
  build_envelope body peer_ip peer_port label_map writer_id now sequence_number =
      let seq = u64 (sequence_number + 1) in
      bind (stoi peer_port) λ port. bind (telemetry_value body) λ telemetry.
        bind
          (add_label label_map peer_ip
            (assign J (envelope_base telemetry peer_ip port writer_id now seq) J.null))
          λ root. done (J.write root, seq)

  -- MetaData; none is its failure, which leaves the sequence number as it is
  unfoldable pub meta_data : Bytes → Bytes → Bytes → Bytes → ℕ → ℕ → Partial (Option Bytes × ℕ)
  meta_data json_str peer_ip peer_port writer_id now sequence_number =
      bind (read_json J json_str) λ read. elim read [
        | none ↦ if not (is_empty json_str) then done (none, sequence_number) else meta_root J.null
        | some telemetry ↦ meta_root telemetry
      ]
    where
      meta_root : J.Value → Partial (Option Bytes × ℕ)
      meta_root telemetry =
          let seq = u64 (sequence_number + 1) in
          bind (stoi peer_port) λ port. done (
            some (
                J.write (
                  assign J
                    ((codes "event_type", J.of_string (codes "gRPC"))
                      ∷ (codes "serialization", J.of_string (codes "json_string"))
                      ∷ (codes "seq", J.of_uint seq)
                      ∷ (codes "timestamp", J.of_int (pos now))
                      ∷ (codes "writer_id", J.of_string writer_id)
                      ∷ (codes "telemetry_data", telemetry)
                      ∷ (codes "telemetry_node", J.of_string peer_ip)
                      ∷ (codes "telemetry_port", J.of_uint (u16 port))
                      ∷ [])
                    J.null)),
            seq,
          )

  -- AppendLabelMap; none is its failure
  unfoldable pub append_label_map : LabelMap → Bytes → Bytes → Partial (Option Bytes)
  append_label_map label_map peer_ip json_str = bind (read_json J json_str) λ read. elim read [
    | none ↦ if not (is_empty json_str) then done none else labelled J.null
    | some root ↦ labelled root
  ]
    where
      labelled : J.Value → Partial (Option Bytes)
      labelled root =
          bind (label_value (find_label peer_ip label_map))
            λ l. done (some (J.write (J.set root (codes "label") l)))
