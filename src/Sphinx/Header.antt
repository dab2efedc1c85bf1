-- ===== src/Sphinx/Header.antt =====
-- src/core/sphinx/build.rs: the building of a header. The field `mac_plus_actions` of the header is one
-- buffer here, of which `actions` is the part from `MAC_SIZE` on. `none` is a panic.
use mixnet.Base.{
  ℕ, ◌+◌, ◌-◌, ◌%◌, Bytes, Option, none, some, List, [], ◌∷◌, ◌++◌, length, drop, replicate,
  to_le_bytes, slice_split_at, if◌then◌else◌, ltb, ◌>>=◌,
}
use mixnet.Sphinx.{
  KxPublic, Target, mixnode_index, peer_id, mac_size, kx_public_size, actions_size, raw_action_size,
  peer_id_size, surb_id_size, cover_id_size, max_hops, max_actions_pad_size,
  raw_action_forward_to_peer_id, raw_action_deliver_request, raw_action_deliver_reply,
  raw_action_deliver_cover, raw_action_deliver_cover_with_id,
}
use mixnet.Sphinx.Packages.{Packages}
use mixnet.Sphinx.Delay.{zero_delay, exp, add}
use mixnet.Sphinx.Crypto.{
  SharedSecret, apply_keystream, last, gen_kx_public_and_shared_secrets, small_derived_secrets,
  mac_key, actions_encryption_key, delay_seed, compute_mac, apply_actions_encryption_keystream,
}

-- A write through `mut_arr_at`.
unfoldable pub write_at : Bytes → ℕ → Bytes → Option Bytes
write_at slice offset arr = do
  (front, rest) ← slice_split_at slice offset
  (old, back) ← slice_split_at rest (length arr)
  some (front ++ (arr ++ back))

pub data PacketKind : Type 0 where
  request : PacketKind
  reply : Bytes → PacketKind
  cover : Option Bytes → PacketKind

-- Data of the forward loop for the backward loop.
pub record Hop : Type 0 where
  pub mac_key : Bytes
  pub keystream : Bytes
  pub start_offset : ℕ

-- An action with an id: first the id, then the raw action before it.
unfoldable pub write_with_id : Bytes → ℕ → Bytes → ℕ → Option Bytes
write_with_id buffer start_offset id raw_action = do
  buffer ← write_at buffer (mac_size + (start_offset + raw_action_size)) id
  write_at buffer (mac_size + start_offset) (to_le_bytes raw_action_size raw_action)

-- The forward action for a hop, from `start_offset`; with the offset after it.
unfoldable pub write_forward_action : Bytes → ℕ → Target → Option (Bytes × ℕ)
write_forward_action buffer start_offset (mixnode_index index) = do
  buffer ← write_at buffer (mac_size + start_offset) (to_le_bytes raw_action_size index)
  some (buffer, start_offset + raw_action_size)
write_forward_action buffer start_offset (peer_id id) = do
  buffer ← write_with_id buffer start_offset id raw_action_forward_to_peer_id
  some (buffer, start_offset + raw_action_size + peer_id_size)

unfoldable pub write_deliver_action : Bytes → ℕ → PacketKind → Option (Bytes × ℕ)
write_deliver_action buffer start_offset request = do
  buffer ←
      write_at buffer (mac_size + start_offset)
        (to_le_bytes raw_action_size raw_action_deliver_request)
  some (buffer, start_offset + raw_action_size)
write_deliver_action buffer start_offset (reply surb_id) = do
  buffer ← write_with_id buffer start_offset surb_id raw_action_deliver_reply
  some (buffer, start_offset + raw_action_size + surb_id_size)
write_deliver_action buffer start_offset (cover none) = do
  buffer ←
      write_at buffer (mac_size + start_offset)
        (to_le_bytes raw_action_size raw_action_deliver_cover)
  some (buffer, start_offset + raw_action_size)
write_deliver_action buffer start_offset (cover (some cover_id)) = do
  buffer ← write_with_id buffer start_offset cover_id raw_action_deliver_cover_with_id
  some (buffer, start_offset + raw_action_size + cover_id_size)

-- `apply_keystream(&mut pad[..len], &keystream[ACTIONS_SIZE - start_offset..])`. The subtraction does
-- not overflow: an action was written at `start_offset` before.
unfoldable pub encrypt_pad : Bytes → ℕ → Bytes → ℕ → Option Bytes
encrypt_pad pad len keystream start_offset = do
  (front, back) ← slice_split_at pad len
  (skipped, rest) ← slice_split_at keystream (actions_size - start_offset)
  some (apply_keystream front rest ++ back)

-- A push to `hops`, an `ArrayVec` of capacity `MAX_HOPS - 1` that is kept as a stack.
unfoldable pub push_hop : Hop → List Hop → Option (List Hop)
push_hop hop hops = if ltb (length hops) (max_hops - 1) then some (hop ∷ hops) else none

module _ {State : Type 0} (p : Packages State) where
  -- The variables of the forward loop.
  pub record Forward : Type 0 where
    pub buffer : Bytes
    pub pad : Bytes
    pub offset : ℕ
    pub total_delay : p.F64
    pub hops : List Hop

  -- The keystream of a hop: zeros, encrypted.
  unfoldable pub hop_keystream : SharedSecret → Bytes
  hop_keystream kx_shared_secret =
      apply_actions_encryption_keystream p (replicate (actions_size + max_actions_pad_size) 0)
        (actions_encryption_key p (small_derived_secrets p kx_shared_secret))

  unfoldable pub forward_hop : Target → SharedSecret → Forward → Option Forward
  forward_hop target kx_shared_secret f = do
    (buffer, offset) ← write_forward_action f.buffer f.offset target
    let sds = small_derived_secrets p kx_shared_secret
    let keystream = hop_keystream kx_shared_secret
    hops ←
        push_hop
          (record {
            mac_key = mac_key p sds;
            keystream = keystream;
            start_offset = f.offset % 65536;
          })
          f.hops
    pad ← encrypt_pad f.pad (offset + mac_size) keystream f.offset
    some (record {
      buffer = buffer;
      pad = pad;
      offset = offset + mac_size;
      total_delay = add p f.total_delay (exp p (delay_seed p sds));
      hops = hops;
    })

  -- The loop over the hops forward, as long as there are targets and secrets.
  unfoldable pub forward : List Target → List SharedSecret → Forward → Option Forward
  forward [] kx_shared_secrets f = some f
  forward (target ∷ targets) [] f = some f
  forward (target ∷ targets) (kx_shared_secret ∷ kx_shared_secrets) f = do
    f' ← forward_hop target kx_shared_secret f
    forward targets kx_shared_secrets f'

  -- A hop's MAC over its actions and the used part of the padding, right before its actions.
  unfoldable pub place_mac : Bytes → Bytes → Bytes → ℕ → Bytes → Option Bytes
  place_mac front actions pad start_offset key = do
    (used, unused) ← slice_split_at pad start_offset
    write_at (front ++ actions) start_offset (compute_mac p actions used key)

  unfoldable pub last_hop :
      PacketKind → List SharedSecret → State → Forward → Option (Bytes × State)
  last_hop kind kx_shared_secrets s f = do
    (buffer, offset) ← write_deliver_action f.buffer f.offset kind
    (written, remainder) ← slice_split_at buffer (mac_size + offset)
    let (random, s) = p.fill_bytes s (length remainder)
    kx_shared_secret ← last kx_shared_secrets
    let sds = small_derived_secrets p kx_shared_secret
    (front, actions) ← slice_split_at (written ++ random) (mac_size + f.offset)
    buffer ←
        place_mac front
          (apply_actions_encryption_keystream p actions (actions_encryption_key p sds)) f.pad
          f.offset (mac_key p sds)
    some (buffer, s)

  -- The loop over the hops backward.
  unfoldable pub backward : List Hop → Bytes → Bytes → Option Bytes
  backward [] buffer pad = some buffer
  backward (hop ∷ hops) buffer pad = do
    (front, actions) ← slice_split_at buffer (mac_size + hop.start_offset)
    pad ← encrypt_pad pad hop.start_offset hop.keystream hop.start_offset
    buffer ←
        place_mac front (apply_keystream actions hop.keystream) pad hop.start_offset hop.mac_key
    backward hops buffer pad

  pub record Built : Type 0 where
    pub header : Bytes
    pub kx_shared_secrets : List SharedSecret
    pub total_delay : p.F64
    pub state : State

  -- The routing actions, by all three parts: `mac_plus_actions`, the delay and the generator.
  unfoldable pub build_actions :
      List Target
      → List SharedSecret
      → PacketKind
      → State
      → Forward
      → Option ((Bytes × p.F64) × State)
  build_actions targets kx_shared_secrets kind s f = do
    f' ← forward targets kx_shared_secrets f
    (buffer, s) ← last_hop kind kx_shared_secrets s f'
    buffer ← backward f'.hops buffer f'.pad
    some ((buffer, f'.total_delay), s)

  -- `kx_shared_secrets` is empty before.
  unfoldable pub build_header :
      Bytes → State → List Target → List KxPublic → PacketKind → Option Built
  build_header header s targets their_kx_publics kind = do
    ((kx_public, kx_shared_secrets), s) ← gen_kx_public_and_shared_secrets p s their_kx_publics
    ((buffer, total_delay), s) ← build_actions targets kx_shared_secrets kind s (record {
      buffer = drop kx_public_size header;
      pad = replicate (actions_size - raw_action_size) 0;
      offset = 0;
      total_delay = zero_delay p;
      hops = [];
    })
    some (record {
      header = kx_public ++ buffer;
      kx_shared_secrets = kx_shared_secrets;
      total_delay = total_delay;
      state = s;
    })
