-- ===== src/Sphinx/Examples.antt =====
-- src/core/sphinx: packets on a route over a mixnode and a peer, with simple stand-ins for the packages.
use mixnet.Base.{
  ◌⊎◌, ◌≢◌, err, drop, ℕ, ◌≡◌, refl, Bytes, List, [], ◌∷◌, map, some, length, replicate,
  length-replicate, arith,
}
use mixnet.Sphinx.{
  Target, mixnode_index, peer_id, header_size, packet_size, surb_size, surb_id_size, peer_id_size,
}
use mixnet.Sphinx.StandIn.{stand_in}
use mixnet.Sphinx.Crypto.{derive_kx_public}
use mixnet.Sphinx.Header.{request, build_header}
use mixnet.Sphinx.Refinement.{described, build_header-described}
use mixnet.Sphinx.Peel.{peel, mac_err}
use mixnet.Sphinx.Peel.Forwarding.{mac_for}
use mixnet.Sphinx.Peel.Errors.{
  actions_of, mac_of, raw_action_of, tag_of, IsActionAnswer, peel-errors,
}
use mixnet.Sphinx.Travel.Requests.{
  RequestArrives, CoverArrives, complete_request_packet-travel, build_cover_packet-travel,
}
use mixnet.Sphinx.Travel.Replies.{ReplyArrives, complete_reply_packet-travel}

abbrev secrets : List Bytes
secrets = replicate 32 1 ∷ replicate 32 2 ∷ replicate 32 3 ∷ []

abbrev peer : Bytes
peer = replicate peer_id_size 5

abbrev targets : List Target
targets = mixnode_index 7 ∷ peer_id peer ∷ []

abbrev bytes_of : ℕ → Bytes
bytes_of n = replicate n 8

abbrev sized : (n : ℕ) → length (bytes_of n) ≡ n
sized n = length-replicate n 8

build_header-described_example :
    build_header stand_in
      (bytes_of header_size)
      3
      targets
      (map (derive_kx_public stand_in) secrets)
      request
    ≡ some (described stand_in 3 targets (map (derive_kx_public stand_in) secrets) request)
build_header-described_example =
    build_header-described stand_in (bytes_of header_size) 3 targets
      (map (derive_kx_public stand_in) secrets) request (sized header_size)
      (omega arith, (length-replicate peer_id_size 5, tt)) tt refl (omega arith) (omega arith)

complete_request_packet-travel_example :
    RequestArrives stand_in (bytes_of packet_size) (bytes_of packet_size) 3 targets secrets
complete_request_packet-travel_example =
    complete_request_packet-travel stand_in (bytes_of packet_size) (bytes_of packet_size) 3 targets
      secrets (sized packet_size) (sized packet_size)
      (omega arith, (length-replicate peer_id_size 5, tt)) refl (omega arith) (omega arith)

build_cover_packet-travel_example :
    CoverArrives stand_in
      (bytes_of packet_size)
      (bytes_of packet_size)
      3
      targets
      secrets
      (some (bytes_of surb_id_size))
build_cover_packet-travel_example =
    build_cover_packet-travel stand_in (bytes_of packet_size) (bytes_of packet_size) 3 targets
      secrets (some (bytes_of surb_id_size)) (sized packet_size) (sized packet_size)
      (omega arith, (length-replicate peer_id_size 5, tt)) (sized surb_id_size) refl (omega arith)
      (omega arith)

complete_reply_packet-travel_example :
    ReplyArrives stand_in
      (bytes_of surb_size)
      (bytes_of packet_size)
      (bytes_of packet_size)
      (bytes_of surb_id_size)
      3
      4
      targets
      secrets
complete_reply_packet-travel_example =
    complete_reply_packet-travel stand_in (bytes_of surb_size) (bytes_of packet_size)
      (bytes_of packet_size) (bytes_of surb_id_size) 3 4 targets secrets (sized surb_size)
      (sized packet_size) (sized packet_size) (sized surb_id_size) (omega arith)
      (omega arith, (length-replicate peer_id_size 5, tt)) refl (omega arith) (omega arith)

peel-errors_example :
    ((mac_for stand_in (bytes_of 32) (actions_of stand_in (bytes_of packet_size))
        ≢ mac_of stand_in (bytes_of packet_size))
      × (peel stand_in [] (bytes_of packet_size) (bytes_of 32) ≡ (err mac_err, [])))
    ⊎ ((mac_for stand_in (bytes_of 32) (actions_of stand_in (bytes_of packet_size))
          ≡ mac_of stand_in (bytes_of packet_size))
        × IsActionAnswer stand_in
            (raw_action_of stand_in (bytes_of packet_size) (bytes_of 32))
            (tag_of stand_in (drop header_size (bytes_of packet_size)) (bytes_of 32))
            (peel stand_in [] (bytes_of packet_size) (bytes_of 32)).0)
peel-errors_example =
    peel-errors stand_in [] (bytes_of packet_size) (bytes_of 32) (sized packet_size)
