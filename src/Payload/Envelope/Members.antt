-- ===== src/Payload/Envelope/Members.antt =====
-- What an envelope holds.
use mdt_dialout_collector.Common.{
  ℕ, ◌+◌, false, Option, none, some, List, [], ◌∷◌, get_elem?, Option-cases, Bool-cases, inl, inr,
  ◌≡◌, refl, ◌∙◌, subst, done, bind-eq-done, done-injective,
}
use mdt_dialout_collector.Common.Number.{ℤ, pos, u16, u64, stoi}
use mdt_dialout_collector.Common.Text.{Bytes, codes, equal, equal_refl}
use mdt_dialout_collector.Json.{Jsoncpp, IsLawful}
use mdt_dialout_collector.Json.Assign.{
  assign, member-assign_null, member-assign_set, takes_members-assign, takes_members-null,
}
use mdt_dialout_collector.Labels.{LabelMap, find_label}
use mdt_dialout_collector.Payload.Envelope.{
  label_value, telemetry_value, envelope_base, build_envelope,
}

-- The members of an envelope: those that identify the message, the body, and no label.
pub record EnvelopeBase (J : Jsoncpp) (root : J.Value) (body peer_ip writer_id : Bytes) (port : ℤ)
    (now seq : ℕ) : Type 0 where
  pub event_type : J.member? root (codes "event_type") ≡ some (J.of_string (codes "gRPC"))
  pub serialization :
      J.member? root (codes "serialization") ≡ some (J.of_string (codes "json_string"))
  pub sequence : J.member? root (codes "seq") ≡ some (J.of_uint seq)
  pub timestamp : J.member? root (codes "timestamp") ≡ some (J.of_int (pos now))
  pub writer : J.member? root (codes "writer_id") ≡ some (J.of_string writer_id)
  pub node : J.member? root (codes "telemetry_node") ≡ some (J.of_string peer_ip)
  pub telemetry_port : J.member? root (codes "telemetry_port") ≡ some (J.of_uint (u16 port))
  pub telemetry :
      J.member? root (codes "telemetry_data")
      ≡ some (elim (J.parse body) [ some v ↦ v | none ↦ J.of_string body ])

-- The labels of an address: the first two that the map has for it under "nkey" and "pkey", or, where
-- the map does not have the address, unknown ones; and no other member.
abbrev pub Labels : (J : Jsoncpp) → Option (List Bytes) → J.Value → Type 0
Labels J none l =
    (J.member? l (codes "node_id") ≡ some (J.of_string (codes "unknown")))
    × (J.member? l (codes "platform_id") ≡ some (J.of_string (codes "unknown")))
    × (J.member? l (codes "nkey") ≡ none)
    × (J.member? l (codes "pkey") ≡ none)
Labels J (some labels) l =
    (nkey : Bytes) × (pkey : Bytes) × (get_elem? labels 0 ≡ some nkey)
    × (get_elem? labels 1 ≡ some pkey)
    × (J.member? l (codes "nkey") ≡ some (J.of_string nkey))
    × (J.member? l (codes "pkey") ≡ some (J.of_string pkey))
    × (J.member? l (codes "node_id") ≡ none)
    × (J.member? l (codes "platform_id") ≡ none)

-- The label of an address; none without a label map.
abbrev pub HasLabel : (J : Jsoncpp) → Option LabelMap → Bytes → J.Value → Type 0
HasLabel J none peer_ip root = J.member? root (codes "label") ≡ none
HasLabel J (some label_map) peer_ip root =
    (l : J.Value) × Labels J (find_label peer_ip label_map) l
    × (J.member? root (codes "label") ≡ some l)

module _ (J : Jsoncpp) (L : IsLawful J) (body peer_ip writer_id : Bytes) (port : ℤ)
    (now seq : ℕ) where
  abbrev kvs : List (Bytes × J.Value)
  kvs =
      envelope_base J (elim (J.parse body) [ some v ↦ v | none ↦ J.of_string body ]) peer_ip port
        writer_id now seq

  base-EnvelopeBase : EnvelopeBase J (assign J kvs J.null) body peer_ip writer_id port now seq
  unfolding equal
  base-EnvelopeBase = record {
    event_type = member-assign_null J L kvs (codes "event_type");
    serialization = member-assign_null J L kvs (codes "serialization");
    sequence = member-assign_null J L kvs (codes "seq");
    timestamp = member-assign_null J L kvs (codes "timestamp");
    writer = member-assign_null J L kvs (codes "writer_id");
    node = member-assign_null J L kvs (codes "telemetry_node");
    telemetry_port = member-assign_null J L kvs (codes "telemetry_port");
    telemetry = member-assign_null J L kvs (codes "telemetry_data");
  }

  labelled-EnvelopeBase :
      (l : J.Value)
      → EnvelopeBase J
          (J.set (assign J kvs J.null) (codes "label") l)
          body
          peer_ip
          writer_id
          port
          now
          seq
  unfolding equal
  labelled-EnvelopeBase l = record {
    event_type = member-assign_set J L kvs (codes "label") l (codes "event_type") refl;
    serialization = member-assign_set J L kvs (codes "label") l (codes "serialization") refl;
    sequence = member-assign_set J L kvs (codes "label") l (codes "seq") refl;
    timestamp = member-assign_set J L kvs (codes "label") l (codes "timestamp") refl;
    writer = member-assign_set J L kvs (codes "label") l (codes "writer_id") refl;
    node = member-assign_set J L kvs (codes "label") l (codes "telemetry_node") refl;
    telemetry_port = member-assign_set J L kvs (codes "label") l (codes "telemetry_port") refl;
    telemetry = member-assign_set J L kvs (codes "label") l (codes "telemetry_data") refl;
  }

  base_unlabelled : J.member? (assign J kvs J.null) (codes "label") ≡ none
  unfolding equal
  base_unlabelled = member-assign_null J L kvs (codes "label")

  labelled_label :
      (l : J.Value)
      → J.member? (J.set (assign J kvs J.null) (codes "label") l) (codes "label") ≡ some l
  labelled_label l =
      L.member-set (assign J kvs J.null) (codes "label") l (codes "label")
        (takes_members-assign J L kvs J.null (takes_members-null J L))
      ∙ rw (equal_refl (codes "label"))

module _ (J : Jsoncpp) where
  -- Where the reader does not throw, the body is what it reads, or the text.
  pub telemetry_value_read :
      (body : Bytes)
      → J.too_deep body ≡ false
      → telemetry_value J body ≡ done (elim (J.parse body) [ some v ↦ v | none ↦ J.of_string body ])
  telemetry_value_read body shallow = elim (Option-cases (J.parse body)) [
    | inl unread ↦ rw (shallow, unread) refl
    | inr (v, read) ↦ rw (shallow, read) refl
  ]

  telemetry_value_done :
      (body : Bytes) {v : J.Value}
      → telemetry_value J body ≡ done v
      → telemetry_value J body ≡ done (elim (J.parse body) [ some v ↦ v | none ↦ J.of_string body ])
  telemetry_value_done body h = elim (Bool-cases (J.too_deep body)) [
    | inl deep ↦ absurd (let h1 = rw deep at h in cc)
    | inr shallow ↦ telemetry_value_read body shallow
  ]

module _ (J : Jsoncpp) (L : IsLawful J) where
  label_value-Labels :
      (o : Option (List Bytes)) {l : J.Value} → label_value J o ≡ done l → Labels J o l
  unfolding label_value equal
  label_value-Labels none h =
      let kvs =
        (codes "node_id", J.of_string (codes "unknown"))
        ∷ (codes "platform_id", J.of_string (codes "unknown"))
        ∷ [] in
      subst (Labels J none) (done-injective h) (
        member-assign_null J L kvs (codes "node_id"),
        member-assign_null J L kvs (codes "platform_id"),
        member-assign_null J L kvs (codes "nkey"),
        member-assign_null J L kvs (codes "pkey"),
      )
  label_value-Labels (some []) h = absurd (cc)
  label_value-Labels (some (n ∷ [])) h = absurd (cc)
  label_value-Labels (some (n ∷ p ∷ rest)) h =
      let kvs = (codes "nkey", J.of_string n) ∷ (codes "pkey", J.of_string p) ∷ [] in
      subst (Labels J (some (n ∷ p ∷ rest))) (done-injective h) (
        n,
        p,
        refl,
        refl,
        member-assign_null J L kvs (codes "nkey"),
        member-assign_null J L kvs (codes "pkey"),
        member-assign_null J L kvs (codes "node_id"),
        member-assign_null J L kvs (codes "platform_id"),
      )

-- The envelope that a text and a sequence number are made of.
abbrev pub Envelope :
    (J : Jsoncpp) → Bytes → Bytes → Bytes → Option LabelMap → Bytes → ℕ → ℕ → Bytes × ℕ → Type 0
Envelope J body peer_ip peer_port label_map writer_id now before (out, seq) =
    (root : J.Value) × (port : ℤ) × (out ≡ J.write root)
    × (seq ≡ u64 (before + 1))
    × (stoi peer_port ≡ done port)
    × EnvelopeBase J root body peer_ip writer_id port now seq
    × HasLabel J label_map peer_ip root

-- Over a jsoncpp that keeps its documentation: every envelope that is built is the text of one
-- JSON object. It holds the kind of the message, the next sequence number, the time, the writer,
-- the peer's address and the number of its port, and the body, nested where it is JSON and as a
-- text where it is not; none overwrites another. With a label map it holds the labels of the
-- peer's address or unknown ones, without one it holds no label.
pub build_envelope-Envelope :
    (J : Jsoncpp)
    → IsLawful J
    → (body peer_ip peer_port : Bytes) (label_map : Option LabelMap) (writer_id : Bytes)
      (now before : ℕ) {result : Bytes × ℕ}
    → build_envelope J body peer_ip peer_port label_map writer_id now before ≡ done result
    → Envelope J body peer_ip peer_port label_map writer_id now before result
unfolding build_envelope
build_envelope-Envelope J L body peer_ip peer_port none writer_id now before h =
    let (port, read, e0) = bind-eq-done (stoi peer_port) _ h in
    let (v, nested, _) = bind-eq-done (telemetry_value J body) _ e0 in
    let e = rw (telemetry_value_done J body nested) at e0 in
    subst (Envelope J body peer_ip peer_port none writer_id now before) (done-injective e) (
      assign J (kvs J L body peer_ip writer_id port now (u64 (before + 1))) J.null,
      port,
      refl,
      refl,
      read,
      base-EnvelopeBase J L body peer_ip writer_id port now (u64 (before + 1)),
      base_unlabelled J L body peer_ip writer_id port now (u64 (before + 1)),
    )
build_envelope-Envelope J L body peer_ip peer_port (some label_map) writer_id now before h =
    let (port, read, e0) = bind-eq-done (stoi peer_port) _ h in
    let (v, nested, _) = bind-eq-done (telemetry_value J body) _ e0 in
    let e = rw (telemetry_value_done J body nested) at e0 in
    let (root, labelled, e') = bind-eq-done _ (λ root. done (J.write root, u64 (before + 1))) e in
    let (l, found, e'') = bind-eq-done (label_value J (find_label peer_ip label_map)) _ labelled in
    subst (Envelope J body peer_ip peer_port (some label_map) writer_id now before)
      (done-injective e')
      (
        root,
        port,
        refl,
        refl,
        read,
        subst (λ r. EnvelopeBase J r body peer_ip writer_id port now (u64 (before + 1)))
            (done-injective e'')
            (labelled-EnvelopeBase J L body peer_ip writer_id port now (u64 (before + 1)) l),
        (
          l,
          label_value-Labels J L (find_label peer_ip label_map) found,
          subst (λ r. J.member? r (codes "label") ≡ some l) (done-injective e'')
              (labelled_label J L body peer_ip writer_id port now (u64 (before + 1)) l),
        ),
      )
