-- ===== src/KxPair/Examples.antt =====
-- src/core/kx_pair.rs: two pairs.
use mixnet.Base.{◌≡◌}
use mixnet.Sphinx.StandIn.{stand_in}
use mixnet.KxPair.{gen, exchange}
use mixnet.KxPair.Agreement.{exchange-gen}

exchange-gen_example :
    exchange stand_in (gen stand_in 1).0 (gen stand_in 2).0.public_key
    ≡ exchange stand_in (gen stand_in 2).0 (gen stand_in 1).0.public_key
exchange-gen_example = exchange-gen stand_in 1 2
