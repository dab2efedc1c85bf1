-- ===== src/SurbKeystore.antt =====
-- src/core/surb_keystore.rs: the keys to decrypt replies with, over the linked hash map of hashlink.
-- The keys are a type parameter. A SURB id is a random argument, and `none` is a panic.
pub mod Insertion
mod Examples
use mixnet.Base.{ℕ, ◌≡◌, Bytes, Option, none, some, List, [], ◌∷◌, ◌==◌, ◌>>=◌, if◌then◌else◌}
use mixnet.Fragment.{MessageId}
use mixnet.LinkedHashMap.Front.{drop_front}
use mixnet.LinkedHashMap.{LinkedHashMap}

abbrev pub SurbId : Type 0
SurbId = Bytes

pub record Value (Keys : Type 0) : Type 0 where
  pub keys : Keys
  pub message_id : MessageId

module _ {Keys : Type 0} {dec : Discrete SurbId} (hm : LinkedHashMap dec (Value Keys)) where
  pub record SurbKeystore : Type 0 where
    pub capacity : ℕ
    pub surbs : hm.Map

  unfoldable pub new : ℕ → SurbKeystore
  new capacity = record { capacity = capacity; surbs = hm.with_capacity capacity }

  -- The oldest SURB goes if the store is at its capacity.
  unfoldable pub make_room : SurbKeystore → hm.Map
  make_room store =
      if hm.len store.surbs == store.capacity then drop_front hm store.surbs else store.surbs

  -- `initial` are the keys of `SurbPayloadEncryptionKeys::new`, which the caller fills in.
  unfoldable pub insert : SurbKeystore → SurbId → Keys → MessageId → Option SurbKeystore
  insert store id initial message_id =
      let surbs = make_room store in
      elim (hm.get surbs id) [
        | some value ↦ none
        | none ↦ some (record store {
          surbs = hm.insert surbs id (record { keys = initial; message_id = message_id });
        })
      ]

  -- The write of the keys through the reference that `insert` returns.
  unfoldable pub fill_keys : SurbKeystore → SurbId → Value Keys → SurbKeystore
  fill_keys store id value = record store { surbs = hm.set_value store.surbs id value }

  unfoldable pub entry : SurbKeystore → SurbId → Option (Value Keys)
  entry store id = hm.get store.surbs id

  -- `Entry::remove`.
  unfoldable pub remove : SurbKeystore → SurbId → SurbKeystore
  remove store id = record store { surbs = hm.remove_entry store.surbs id }
