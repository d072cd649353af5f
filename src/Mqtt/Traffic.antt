-- ===== src/Mqtt/Traffic.antt =====
-- What a client receives, and its entity acknowledges, of the packets that its endpoint gives.
use hhctrl_mgmt.Base.{
  ℕ, ◌<◌, ◌≡◌, refl, sym, ap, ◌∙◌, true, none, some, List, [], ◌∷◌, ◌++◌, All, length,
}
use hhctrl_mgmt.Base.Outcome.{done}
use hhctrl_mgmt.Mqtt.Error.{value}
use hhctrl_mgmt.Mqtt.Packet.{
  Packet, publish, puback, suback, packet, Result, publish_result, puback_result, suback_result,
}
use hhctrl_mgmt.Mqtt.Client.{Endpoint, Client, async_receive as client_receive}
use hhctrl_mgmt.Mqtt.Client.Calls.{result_of, Delivers, async_receive_first}
use hhctrl_mgmt.Mqtt.Bound.{mqtt_client}
use hhctrl_mgmt.Mqtt.Entity.Acks.{is_ack, Gives}

abbrev pub packet_of : Result → Packet
packet_of (publish_result m) = publish m
packet_of (puback_result id) = puback id
packet_of (suback_result codes) = suback codes

result_of-packet_of : (r : Result) → result_of (packet_of r) ≡ some r
result_of-packet_of (publish_result m) = refl
result_of-packet_of (puback_result id) = refl
result_of-packet_of (suback_result codes) = refl

-- Packets that the client drops, and then an acknowledgement.
abbrev pub Ack : Type 0
Ack = List Packet × Result

abbrev pub ack_packets : List Ack → List Packet
ack_packets [] = []
ack_packets ((dropped, r) ∷ later) = (dropped ++ packet_of r ∷ []) ++ ack_packets later

abbrev pub results : List Ack → List Result
results [] = []
results ((dropped, r) ∷ later) = r ∷ results later

module _ (E : Endpoint) where
  -- The endpoint gives these packets next, and what is left of it then.
  abbrev pub Comes : List Packet → E.Net → Type 0
  Comes [] net = Unit {0}
  Comes (p ∷ ps) net = ((E.recv net).0 ≡ packet p) × Comes ps (E.recv net).1

  abbrev pub rest : List Packet → E.Net → E.Net
  rest [] net = net
  rest (p ∷ ps) net = rest ps (E.recv net).1

  pub rest-append :
      (ps qs : List Packet) (net : E.Net) → rest (ps ++ qs) net ≡ rest qs (rest ps net)
  rest-append [] qs net = refl
  rest-append (p ∷ ps) qs net = rest-append ps qs (E.recv net).1

  pub Comes-append :
      (ps qs : List Packet) (net : E.Net)
      → Comes (ps ++ qs) net
      → Comes ps net × Comes qs (rest ps net)
  Comes-append [] qs net h = (tt, h)
  Comes-append (p ∷ ps) qs net h =
      let (first, later) = Comes-append ps qs (E.recv net).1 h.1 in ((h.0, first), later)

  Comes-Delivers : (ps : List Packet) (net : E.Net) → Comes ps net → Delivers E ps net (rest ps net)
  Comes-Delivers [] net h = refl
  Comes-Delivers (p ∷ ps) net h = (h.0, Comes-Delivers ps (E.recv net).1 h.1)

  module _ (rounds fuel : ℕ) where
    -- The client drops few enough packets at a time.
    abbrev pub AreDropped : List Packet → Type 0
    AreDropped ps = All (λ q. result_of q ≡ none) ps × (length ps < rounds)

    pub client-received :
        (dropped : List Packet) (r : Result) (c : Client E.Net)
        → c.connected ≡ true
        → AreDropped dropped
        → Comes (dropped ++ packet_of r ∷ []) c.net
        → client_receive E rounds fuel c
          ≡ done (value r, record c { net = rest (dropped ++ packet_of r ∷ []) c.net })
    client-received dropped r c up d h =
        let (first, last) = Comes-append dropped (packet_of r ∷ []) c.net h in
        let before = rest dropped c.net in
        async_receive_first E dropped (packet_of r) r rounds fuel c before (E.recv before).1 up d.0
          (result_of-packet_of r) (Comes-Delivers dropped c.net first)
          (ap (λ x. (x, (E.recv before).1)) last.0) d.1
        ∙ ap (λ net. done (value r, record c { net = net }))
            (sym (rest-append dropped (packet_of r ∷ []) c.net))

    abbrev pub AreAcks : List Ack → Type 0
    AreAcks = All (λ a. (is_ack a.1 ≡ true) × AreDropped a.0)

    pub results-acks : (acks : List Ack) → AreAcks acks → All (λ r. is_ack r ≡ true) (results acks)
    results-acks [] h = tt
    results-acks (a ∷ acks) h = (h.0.0, results-acks acks h.1)

    pub acks-Gives :
        (acks : List Ack) (c : Client E.Net)
        → c.connected ≡ true
        → AreAcks acks
        → Comes (ack_packets acks) c.net
        → Gives
            (mqtt_client E rounds fuel)
            (results acks)
            c
            (record c { net = rest (ack_packets acks) c.net })
    acks-Gives [] c up a h = refl
    acks-Gives ((dropped, r) ∷ acks) c up a h =
        let (first, later) =
          Comes-append (dropped ++ packet_of r ∷ []) (ack_packets acks) c.net h in
        let t : Client E.Net = record c { net = rest (dropped ++ packet_of r ∷ []) c.net } in
        (
          t,
          client-received dropped r c up a.0.1 first,
          rw (rest-append (dropped ++ packet_of r ∷ []) (ack_packets acks) c.net)
              (acks-Gives acks t up a.1 later),
        )
