-- ===== src/Delivery/Packets.antt =====
-- One packet: who receives it.
use shadowroller.Common.{
  ◌≡◌, refl, ap, Bool, true, false, ◌&&◌, ◌||◌, not, String, List, [], ◌∷◌, Option, some, str_eq,
  arith, if◌then◌else◌, All, map, keep,
}
use shadowroller.Update.{Update, Element, elements}
use shadowroller.Update.Filter.{
  IsPlain, players_of, last_or, names_gms, parse_exclude-serialize, parse_exclude_unfiltered,
}
use shadowroller.Game.Share.{Packet, Message, publish_packet, publish_packets}
use shadowroller.Game.Subscribe.{PubSub, channels, contains}
use shadowroller.Routes.Subscription.{should_send_update, write_updates, received}

-- `json.Marshal` on the arrays of `MarshalJSON`: it does not fail on them, and its text begins
-- with a bracket.
pub record Encoder : Type 0 where
  pub marshal : List Element → Option String
  pub encode : List Element → String
  pub marshal_lem : (els : List Element) → marshal els ≡ some (encode els)
  pub encode_array : (els : List Element) → (rest : String) × (encode els ≡ String.◌∷◌ "[" rest)

abbrev pub excluded : List String → String → Bool → Bool
excluded [] p is_gm = false
excluded (f ∷ fs) p is_gm =
    str_eq (last_or "" (players_of (f ∷ fs))) p || (is_gm && names_gms (f ∷ fs))

-- The packet's text, as its receivers are sent it.
abbrev pub text_of : Encoder → Packet → String
text_of enc k = enc.encode (elements k.update)

exclusion :
    (named is_gm gms : Bool) (inner : String)
    → ◌≡◌ {A = String × Bool}
        (if named then (inner, false) else if is_gm && gms then (inner, false) else (inner, true))
        (inner, not (named || (is_gm && gms)))
exclusion true is_gm gms inner = refl
exclusion false true true inner = refl
exclusion false true false inner = refl
exclusion false false gms inner = refl

module _ (enc : Encoder) (p : String) (is_gm : Bool) where
  -- What `publishPacket` publishes, and what a subscriber makes of it.
  abbrev IsSent : String → List String → Update → Type 0
  IsSent channel filter u =
      (m : Message) × (publish_packet enc.marshal
          (record { channel = channel; filter = filter; update = u })
        ≡ some m)
      × (m.channel ≡ channel)
      × (should_send_update m p is_gm ≡ (enc.encode (elements u), not (excluded filter p is_gm)))

  sent_unfiltered : (channel : String) (u : Update) → IsSent channel [] u
  unfolding publish_packet should_send_update
  sent_unfiltered channel u =
      let (rest, e) = enc.encode_array (elements u) in
      (
        record { channel = channel; payload = enc.encode (elements u) },
        rw (enc.marshal_lem (elements u)),
        refl,
        rw (e, parse_exclude_unfiltered rest) refl,
      )

  sent_filtered :
      (channel f : String) (fs : List String) (u : Update)
      → IsPlain (f ∷ fs)
      → IsSent channel (f ∷ fs) u
  unfolding publish_packet should_send_update
  sent_filtered channel f fs u plain =
      let (payload, e, q) =
        parse_exclude-serialize enc.marshal f fs u plain (enc.marshal_lem (elements u)) in
      (
        record { channel = channel; payload = payload },
        rw e,
        refl,
        rw q (
            exclusion (str_eq (last_or "" (players_of (f ∷ fs))) p) is_gm (names_gms (f ∷ fs))
              (enc.encode (elements u))),
      )

  sent :
      (channel : String) (filter : List String) (u : Update)
      → IsPlain filter
      → IsSent channel filter u
  sent channel [] u plain = sent_unfiltered channel u
  sent channel (f ∷ fs) u plain = sent_filtered channel f fs u plain

module _ (pubsub : PubSub) (enc : Encoder) (g p : String) (is_gm : Bool) where
  -- The player is subscribed to the packet's channel and not among those that skip it.
  abbrev pub reaches : Packet → Bool
  reaches k = contains k.channel (channels g p is_gm) && not (excluded k.filter p is_gm)

  received-cons :
      (m : Message) (ms : List Message) (text : String) (here skip : Bool)
      → contains m.channel (channels g p is_gm) ≡ here
      → should_send_update m p is_gm ≡ (text, not skip)
      → received pubsub g p is_gm (m ∷ ms) ≡ (
          if here && not skip
          then text ∷ received pubsub g p is_gm ms
          else received pubsub g p is_gm ms)
  unfolding received write_updates
  received-cons m ms text false skip e sends = rw (pubsub.deliver-cons (channels g p is_gm) m ms, e)
  received-cons m ms text true true e sends =
      rw (pubsub.deliver-cons (channels g p is_gm) m ms, e, sends)
  received-cons m ms text true false e sends =
      rw (pubsub.deliver-cons (channels g p is_gm) m ms, e, sends)

  -- Packets with plain filters are all published, and the player is sent the texts of those that
  -- reach it, in their order.
  pub received-publish_packets :
      (ks : List Packet)
      → All (λ k. IsPlain k.filter) ks
      → (ms : List Message) × (publish_packets enc.marshal ks ≡ some ms)
        × (received pubsub g p is_gm ms ≡ map (text_of enc) (keep reaches ks))
  unfolding publish_packets
  received-publish_packets [] h =
      ([], refl, unfold received write_updates in rw (pubsub.deliver-nil (channels g p is_gm)))
  received-publish_packets (k ∷ ks) (h, hs) =
      let (m, published, channel, sends) = sent enc p is_gm k.channel k.filter k.update h in
      let (ms, all, rest) = received-publish_packets ks hs in
      (
        m ∷ ms,
        rw (published, publish_packets, all),
        rw
            (
              received-cons m ms (text_of enc k) (contains k.channel (channels g p is_gm))
                  (excluded k.filter p is_gm) (ap (λ c. contains c (channels g p is_gm)) channel)
                  sends,
              rest,
            )
            (ground arith),
      )
